-- ===== src/Inventory/Commands.antt =====
-- `handleCommand` and `runEffect` of apps/inventory/src/interface/messaging/inventory-command.consumer.ts,
-- with the replies of inventory-reply-factory.ts. A payload that is no object with the fields of
-- its type does not occur here; the topic of the replies is always inventory.replies.
pub mod Redelivery
use food_delivery_api.Common.{
  ℕ, Bool, true, false, List, Option, ◌>>=◌, ◌>>◌, pure, throw, run_in_transaction,
}
use food_delivery_api.Messaging.Idempotent.{run_once}
use food_delivery_api.Inventory.Errors.{unknown_command}
use food_delivery_api.Inventory.Items.{ReserveItem}
use food_delivery_api.Inventory.Store.{
  stock_reserved, stock_reservation_failed, stock_released, OutboxCommandEntry, InventoryAction,
  append, processed_event_store,
}
use food_delivery_api.Inventory.Reserve.{Outside, reserve_stock}
use food_delivery_api.Inventory.Release.{release_stock}

-- The event type with the fields of its payload.
pub data CommandPayload : Type 0 where
  reserve : ℕ → List ReserveItem → CommandPayload
  release : ℕ → CommandPayload
  unknown : ℕ → CommandPayload

pub record Envelope : Type 0 where
  pub event_id : ℕ
  pub tenant_id : ℕ
  pub correlation_id : ℕ
  pub payload : CommandPayload

unfoldable pub stock_reserved_reply : ℕ → ℕ → OutboxCommandEntry
stock_reserved_reply order_id correlation_id = record {
  aggregate_id = order_id;
  reply = stock_reserved order_id;
  correlation_id = correlation_id;
}

unfoldable pub stock_reservation_failed_reply : ℕ → ℕ → OutboxCommandEntry
stock_reservation_failed_reply order_id correlation_id = record {
  aggregate_id = order_id;
  reply = stock_reservation_failed order_id;
  correlation_id = correlation_id;
}

unfoldable pub stock_released_reply : ℕ → ℕ → OutboxCommandEntry
stock_released_reply order_id correlation_id = record {
  aggregate_id = order_id;
  reply = stock_released order_id;
  correlation_id = correlation_id;
}

abbrev pub reserve_reply : ℕ → ℕ → Bool → OutboxCommandEntry
unfolding stock_reserved_reply stock_reservation_failed_reply
reserve_reply order_id correlation_id true = stock_reserved_reply order_id correlation_id
reserve_reply order_id correlation_id false = stock_reservation_failed_reply order_id correlation_id

abbrev effect_of : Outside → ℕ → ℕ → CommandPayload → InventoryAction OutboxCommandEntry
unfolding reserve_stock release_stock stock_released_reply
effect_of outside tenant_id correlation_id (reserve order_id items) = do
  result ←
      reserve_stock outside (record { tenant_id = tenant_id; order_id = order_id; items = items })
  pure (reserve_reply order_id correlation_id result.is_ok)
effect_of outside tenant_id correlation_id (release order_id) = do
  release_stock outside.is_contended tenant_id order_id
  pure (stock_released_reply order_id correlation_id)
effect_of outside tenant_id correlation_id (unknown type) = throw (unknown_command type)

unfoldable pub run_effect : Outside → Envelope → InventoryAction OutboxCommandEntry
unfolding reserve_stock release_stock stock_released_reply
run_effect outside envelope =
    effect_of outside envelope.tenant_id envelope.correlation_id envelope.payload

-- The effect has its own transaction, and the reply another.
unfoldable pub handle_command : Outside → Envelope → InventoryAction (Option (Unit {0}))
unfolding run_effect run_once append
handle_command outside envelope = do
  reply ← run_effect outside envelope
  run_in_transaction (run_once processed_event_store envelope.event_id (append reply))
