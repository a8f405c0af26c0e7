-- ===== src/Order/Place.antt =====
-- Placing an order: `PlaceOrderHandler.execute` of
-- apps/order/src/application/order/commands/place-order.handler.ts. The fresh UUIDs are arguments,
-- and so is what other requests write between the lookup of the key and the transaction. The
-- metric of a placed order and the log line are left out.
pub mod Again
pub mod Claim
pub mod Failure
pub mod New
use food_delivery_api.Common.{
  ℕ, Bool, true, false, Option, none, some, Action, ◌>>=◌, ◌>>◌, pure, throw, lift, or_throw, catch,
  modify, run_in_transaction, if◌then◌else◌,
}
use food_delivery_api.Order.Errors.{
  OrderError, being_created, idempotency_conflict, unique_violation,
}
use food_delivery_api.Order.Aggregate.{Order}
use food_delivery_api.Order.Saga.{start}
use food_delivery_api.Order.Commands.{reserve_stock_command, reserve_items}
use food_delivery_api.Order.Store.{
  OrderDb, OrderAction, find_by_id, find_order_id, save_key, insert_order, insert_saga, append,
}
use food_delivery_api.Order.Menu.{PlaceOrderCommand, Gateways, assert_valid_command, pending_order}

pub record Outside : Type 0 where
  pub gateways : Gateways
  pub order_id : ℕ
  pub correlation_id : ℕ
  pub meanwhile : OrderDb → OrderDb

-- `isUniqueViolation`
unfoldable pub is_unique_violation : OrderError → Bool
is_unique_violation unique_violation = true
is_unique_violation _ = false

unfoldable pub load_existing : ℕ → ℕ → OrderAction Order
unfolding find_by_id
load_existing tenant_id order_id = do
  order ← find_by_id tenant_id order_id
  or_throw order (idempotency_conflict being_created)

abbrev or_being_created : ℕ → Option ℕ → OrderAction Order
unfolding load_existing
or_being_created tenant_id none = throw (idempotency_conflict being_created)
or_being_created tenant_id (some order_id) = load_existing tenant_id order_id

unfoldable pub resolve_concurrent_claim : PlaceOrderCommand → OrderAction Order
unfolding find_order_id load_existing
resolve_concurrent_claim command = do
  winner ← find_order_id command.tenant_id command.user_id command.idempotency_key
  or_being_created command.tenant_id winner

-- The work of the transaction.
unfoldable pub claim_and_insert : Outside → PlaceOrderCommand → Order → ℕ → OrderAction Order
unfolding save_key insert_order insert_saga start append reserve_stock_command
claim_and_insert outside command pending now = do
  save_key command.tenant_id command.user_id command.idempotency_key outside.order_id
  inserted ← insert_order pending now
  insert_saga
      (start
        (record {
          order_id = outside.order_id;
          tenant_id = command.tenant_id;
          correlation_id = some outside.correlation_id;
        })
        now)
      now
  append command.tenant_id
      (reserve_stock_command outside.order_id (reserve_items inserted.items) outside.correlation_id)
  pure inserted

unfoldable pub store_order : Outside → PlaceOrderCommand → Order → ℕ → OrderAction Order
unfolding claim_and_insert resolve_concurrent_claim is_unique_violation
store_order outside command pending now =
    catch (run_in_transaction (claim_and_insert outside command pending now))
      λ error. if is_unique_violation error then resolve_concurrent_claim command else throw error

unfoldable pub place_new : Outside → PlaceOrderCommand → ℕ → OrderAction Order
unfolding store_order
place_new outside command now = do
  pending ← lift (pending_order outside.gateways command outside.order_id now)
  modify outside.meanwhile
  store_order outside command pending now

abbrev replay_or_place : Outside → PlaceOrderCommand → ℕ → Option ℕ → OrderAction Order
unfolding load_existing place_new
replay_or_place outside command now none = place_new outside command now
replay_or_place outside command now (some order_id) = load_existing command.tenant_id order_id

unfoldable pub place_order : Outside → PlaceOrderCommand → ℕ → OrderAction Order
unfolding find_order_id load_existing place_new
place_order outside command now = do
  lift (assert_valid_command command)
  existing ← find_order_id command.tenant_id command.user_id command.idempotency_key
  replay_or_place outside command now existing
