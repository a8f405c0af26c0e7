-- ===== src/Order/Commands.antt =====
-- The outbox entries of the saga: apps/order/src/application/saga/saga-commands.ts, with
-- `OutboxCommandEntry` of apps/order/src/domain/shared/outbox.port.ts. The event type and its
-- payload are one value, and the topic of an entry is written out.
use food_delivery_api.Common.{ℕ, Option, List, map}
use food_delivery_api.Order.Item.{OrderItem}

pub data Topic : Type 0 where
  inventory_commands payment_commands order_events : Topic

pub record SagaReserveItem : Type 0 where
  pub item_id : ℕ
  pub qty : ℕ

pub data Payload : Type 0 where
  reserve_stock : ℕ → List SagaReserveItem → Payload
  release_stock : ℕ → Payload
  charge_payment : ℕ → ℕ → Payload
  order_confirmed : ℕ → ℕ → Option ℕ → ℕ → Payload
  order_cancelled : ℕ → ℕ → ℕ → Payload

pub record OutboxCommandEntry : Type 0 where
  pub aggregate_id : ℕ
  pub topic : Topic
  pub payload : Payload
  pub correlation_id : ℕ

unfoldable pub reserve_stock_command : ℕ → List SagaReserveItem → ℕ → OutboxCommandEntry
reserve_stock_command order_id items correlation_id = record {
  aggregate_id = order_id;
  topic = inventory_commands;
  payload = reserve_stock order_id items;
  correlation_id = correlation_id;
}

unfoldable pub release_stock_command : ℕ → ℕ → OutboxCommandEntry
release_stock_command order_id correlation_id = record {
  aggregate_id = order_id;
  topic = inventory_commands;
  payload = release_stock order_id;
  correlation_id = correlation_id;
}

unfoldable pub charge_payment_command : ℕ → ℕ → ℕ → OutboxCommandEntry
charge_payment_command order_id total_cents correlation_id = record {
  aggregate_id = order_id;
  topic = payment_commands;
  payload = charge_payment order_id total_cents;
  correlation_id = correlation_id;
}

unfoldable pub order_confirmed_event : ℕ → ℕ → Option ℕ → ℕ → ℕ → OutboxCommandEntry
order_confirmed_event order_id user_id restaurant_id total_cents correlation_id = record {
  aggregate_id = order_id;
  topic = order_events;
  payload = order_confirmed order_id user_id restaurant_id total_cents;
  correlation_id = correlation_id;
}

unfoldable pub order_cancelled_event : ℕ → ℕ → ℕ → ℕ → OutboxCommandEntry
order_cancelled_event order_id user_id total_cents correlation_id = record {
  aggregate_id = order_id;
  topic = order_events;
  payload = order_cancelled order_id user_id total_cents;
  correlation_id = correlation_id;
}

-- `items.map((item) => ({ itemId: item.itemId, qty: item.qty }))`
unfoldable pub reserve_items : List OrderItem → List SagaReserveItem
reserve_items items = map (λ i. record { item_id = i.item_id; qty = i.qty }) items
