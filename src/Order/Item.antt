-- ===== src/Order/Item.antt =====
-- apps/order/src/domain/order/order-item.ts. Amounts are exact: below the maximum a product of
-- doubles is exact, and above it rounding keeps the comparison.
pub mod Bounds
use food_delivery_api.Common.{ℕ, ◌*◌, ◌||◌, not, Result, ok, ltb}
use food_delivery_api.Common.Int.{pos}
use food_delivery_api.Common.Number.{Number, is_integer, below, at_most, to_nat}
use food_delivery_api.Common.Throws.{◌>>=◌, ◌>>◌, throw_if}
use food_delivery_api.Order.Errors.{
  Label, quantity, unit_price, not_positive_integer, not_non_negative_integer, line_total_exceeds,
  OrderError, invalid_order_request,
}

pub record OrderItem : Type 0 where
  pub item_id : ℕ
  pub qty : ℕ
  pub unit_price_cents : ℕ
  pub line_total_cents : ℕ

pub record CreateOrderItemProps : Type 0 where
  pub item_id : ℕ
  pub qty : Number
  pub unit_price_cents : Number

-- The checks return the number that the value is.
unfoldable pub assert_positive_integer : Number → Label → Result OrderError ℕ
assert_positive_integer value label = do
  throw_if (not (is_integer value) || at_most value (pos 0))
      (invalid_order_request (not_positive_integer label))
  ok (to_nat value)

unfoldable pub assert_non_negative_integer : Number → Label → Result OrderError ℕ
assert_non_negative_integer value label = do
  throw_if (not (is_integer value) || below value (pos 0))
      (invalid_order_request (not_non_negative_integer label))
  ok (to_nat value)

abbrev pub max_money_cents : ℕ
max_money_cents = 2_147_483_647

unfoldable pub create : CreateOrderItemProps → Result OrderError OrderItem
unfolding assert_positive_integer assert_non_negative_integer
create props = do
  qty ← assert_positive_integer props.qty quantity
  price ← assert_non_negative_integer props.unit_price_cents unit_price
  throw_if (ltb max_money_cents (qty * price))
      (invalid_order_request (line_total_exceeds props.item_id))
  ok (record {
    item_id = props.item_id;
    qty = qty;
    unit_price_cents = price;
    line_total_cents = qty * price;
  })
