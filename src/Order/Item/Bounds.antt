-- ===== src/Order/Item/Bounds.antt =====
-- What `OrderItem.create` accepts.
use food_delivery_api.Common.{◌*◌, ◌≤◌, ◌<◌, ◌≡◌, ok, arith}
use food_delivery_api.Common.Int.{pos}
use food_delivery_api.Common.Number.{int}
use food_delivery_api.Order.Item.{OrderItem, CreateOrderItemProps, create, max_money_cents}

-- The invariant of a line: a positive quantity, and a total that is their product and in range.
pub record IsLine (i : OrderItem) : Type 0 where
  pub positive : 0 < i.qty
  pub product : i.line_total_cents ≡ i.qty * i.unit_price_cents
  pub bounded : i.line_total_cents ≤ max_money_cents

-- An item that `create` returns has the id, the quantity and the unit price it was asked for, a
-- positive quantity, and the exact product of the two as a total of at most `max_money_cents`.
pub create-IsLine :
    (props : CreateOrderItemProps) (i : OrderItem)
    → create props ≡ ok i
    → IsLine i
      × (i.item_id ≡ props.item_id)
      × (props.qty ≡ int (pos i.qty))
      × (props.unit_price_cents ≡ int (pos i.unit_price_cents))
unfolding create
create-IsLine props i h = ground arith
