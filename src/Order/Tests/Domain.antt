-- ===== src/Order/Tests/Domain.antt =====
-- The rules of the aggregates on single values.
use food_delivery_api.Common.{ℕ, ◌≡◌, ◌↔◌, refl, [], ◌∷◌, some, ok}
use food_delivery_api.Common.Int.{pos}
use food_delivery_api.Common.Number.{int}
use food_delivery_api.Order.Status.{OrderStatus}
use food_delivery_api.Order.SagaState.{SagaState}
use food_delivery_api.Order.Item.{OrderItem, CreateOrderItemProps}
use food_delivery_api.Order.Aggregate.{
  Order, CreateOrderProps, transition_to, reserve, confirm, assert_valid_pricing_input, subtotal,
  vat, total,
}
use food_delivery_api.Order.Aggregate
use food_delivery_api.Order.Aggregate.Pricing.{IsCreated, IsPriced, create-IsPriced}
use food_delivery_api.Order.Aggregate.Machine
use food_delivery_api.Order.Aggregate.Machine.{transition_to_iff, moves-le}
use food_delivery_api.Order.Saga.{OrderSaga, start}
use food_delivery_api.Order.Tests.{two_meals}

abbrev meal_line : OrderItem
meal_line = record { item_id = 7; qty = 2; unit_price_cents = 500; line_total_cents = 1000 }

abbrev meal_props : CreateOrderItemProps
meal_props = record { item_id = 7; qty = int (pos 2); unit_price_cents = int (pos 500) }

abbrev order_props : CreateOrderProps
order_props = record {
  id = 11;
  tenant_id = 1;
  user_id = 2;
  restaurant_id = some 3;
  items = meal_line ∷ [];
  pricing = record {
    delivery_fee_cents = int (pos 100);
    vat_rate_bps = int (pos 1000);
    discount_cents = int (pos 50);
  };
}

create-IsPriced_example :
    IsCreated order_props two_meals
    × ((rate : ℕ) × (int (pos 1000) ≡ int (pos rate)) × IsPriced rate two_meals)
unfolding Aggregate.create assert_valid_pricing_input subtotal vat total
create-IsPriced_example = create-IsPriced order_props 40 two_meals refl

abbrev reserved_meals : Order
reserved_meals = record two_meals { status = OrderStatus.reserved; updated_at = 50 }

transition_to_iff_example :
    (transition_to two_meals OrderStatus.reserved 50 ≡ ok reserved_meals)
    ↔ (Machine.Step OrderStatus.pending OrderStatus.reserved × (reserved_meals ≡ reserved_meals))
transition_to_iff_example = transition_to_iff two_meals reserved_meals OrderStatus.reserved 50

abbrev new_saga : OrderSaga
unfolding start
new_saga = start (record { order_id = 11; tenant_id = 1; correlation_id = some 21 }) 40

abbrev failed_saga : OrderSaga
unfolding start
failed_saga = record new_saga {
  state = SagaState.cancelled;
  last_event_id = some 70;
  updated_at = 50;
}
