-- ===== src/Order/Replies.antt =====
-- The saga's orchestration: apps/order/src/application/saga/handle-inventory-reply.handler.ts and
-- handle-payment-reply.handler.ts. `execute` returns the outcome that it records in the metrics.
pub mod Steps
pub mod Effects
pub mod Consistency
pub mod Exactly
pub mod Runs
pub mod Advance
pub mod Ends
use food_delivery_api.Common.{
  ℕ, not, Option, none, some, Action, ◌>>=◌, ◌>>◌, pure, lift, or_throw, run_in_transaction,
  if◌then◌else◌, String,
}
use food_delivery_api.Messaging.Idempotent.{run_once}
use food_delivery_api.Order.SagaState.{SagaState, state_eq}
use food_delivery_api.Order.Errors.{order_not_found, saga_not_found}
use food_delivery_api.Order.Aggregate.{Order, reserve, confirm, cancel}
use food_delivery_api.Order.Saga.{OrderSaga, transition}
use food_delivery_api.Order.Commands.{
  charge_payment_command, order_cancelled_event, order_confirmed_event, release_stock_command,
}
use food_delivery_api.Order.Store.{
  OrderDb, OrderAction, find_by_id, update_status, find_by_order_id, save_transition, append,
  processed_event_store,
}

-- The `eventType` of a reply; any other text is ignored.
pub data InventoryReply : Type 0 where
  stock_reserved stock_reservation_failed stock_released : InventoryReply
  unknown : String → InventoryReply

pub data PaymentReply : Type 0 where
  payment_succeeded payment_failed : PaymentReply
  unknown : String → PaymentReply

-- The fields of `EventEnvelopeHeaders` that the handlers read.
pub record Envelope (T : Type 0) : Type 0 where
  pub event_id : ℕ
  pub event_type : T
  pub tenant_id : ℕ
  pub correlation_id : ℕ

pub data SagaOutcome : Type 0 where
  confirmed cancelled : SagaOutcome

unfoldable pub load_order : ℕ → ℕ → OrderAction Order
unfolding find_by_id
load_order tenant_id order_id = do
  order ← find_by_id tenant_id order_id
  or_throw order (order_not_found order_id)

unfoldable pub load_saga : ℕ → ℕ → OrderAction OrderSaga
unfolding find_by_order_id
load_saga tenant_id order_id = do
  saga ← find_by_order_id tenant_id order_id
  or_throw saga (saga_not_found order_id)

-- `cancelOrder`; the outbox writes under the tenant of the envelope.
unfoldable pub cancel_order : ℕ → Order → OrderSaga → ℕ → ℕ → ℕ → OrderAction (Option SagaOutcome)
unfolding cancel append order_cancelled_event
cancel_order tenant_id order saga event_id correlation_id now = do
  update_status (← lift (cancel order now)) now
  save_transition (← lift (transition saga SagaState.cancelled event_id now)) now
  append tenant_id (order_cancelled_event order.id order.user_id order.total_cents correlation_id)
  pure (some cancelled)

unfoldable pub reserve_order :
    Envelope InventoryReply → ℕ → OrderSaga → ℕ → OrderAction (Option SagaOutcome)
unfolding load_order reserve append charge_payment_command
reserve_order envelope order_id saga now = do
  order ← load_order envelope.tenant_id order_id
  update_status (← lift (reserve order now)) now
  save_transition (← lift (transition saga SagaState.stock_reserved envelope.event_id now)) now
  append envelope.tenant_id
      (charge_payment_command order_id order.total_cents envelope.correlation_id)
  pure none

unfoldable pub abandon_order :
    Envelope InventoryReply → ℕ → OrderSaga → ℕ → OrderAction (Option SagaOutcome)
unfolding load_order cancel_order
abandon_order envelope order_id saga now = do
  order ← load_order envelope.tenant_id order_id
  cancel_order envelope.tenant_id order saga envelope.event_id envelope.correlation_id now

-- The `switch` on the event type, with the early returns of each case.
unfoldable pub apply_inventory_type :
    InventoryReply → Envelope InventoryReply → ℕ → OrderSaga → ℕ → OrderAction (Option SagaOutcome)
unfolding reserve_order abandon_order
apply_inventory_type stock_reserved envelope order_id saga now =
    if not (state_eq saga.state SagaState.started)
    then pure none
    else reserve_order envelope order_id saga now
apply_inventory_type stock_reservation_failed envelope order_id saga now =
    if not (state_eq saga.state SagaState.started)
    then pure none
    else abandon_order envelope order_id saga now
apply_inventory_type stock_released envelope order_id saga now =
    if not (state_eq saga.state SagaState.compensating)
    then pure none
    else abandon_order envelope order_id saga now
apply_inventory_type (InventoryReply.unknown _) envelope order_id saga now = pure none

unfoldable pub apply_inventory : Envelope InventoryReply → ℕ → ℕ → OrderAction (Option SagaOutcome)
unfolding load_saga
apply_inventory envelope order_id now = do
  saga ← load_saga envelope.tenant_id order_id
  apply_inventory_type envelope.event_type envelope order_id saga now

-- `(await runOnce(…)) ?? undefined`: a duplicate and a run with no outcome end alike.
abbrev flatten_outcome : Option (Option SagaOutcome) → Option SagaOutcome
flatten_outcome none = none
flatten_outcome (some outcome) = outcome

-- `execute` of both handlers, around `apply`.
unfoldable pub execute : ℕ → OrderAction (Option SagaOutcome) → OrderAction (Option SagaOutcome)
unfolding run_once
execute event_id apply = do
  outcome ← run_in_transaction (run_once processed_event_store event_id apply)
  pure (flatten_outcome outcome)

unfoldable pub handle_inventory_reply :
    Envelope InventoryReply → ℕ → ℕ → OrderAction (Option SagaOutcome)
unfolding execute apply_inventory
handle_inventory_reply envelope order_id now =
    execute envelope.event_id (apply_inventory envelope order_id now)

unfoldable pub confirm_order :
    Envelope PaymentReply → ℕ → OrderSaga → ℕ → OrderAction (Option SagaOutcome)
unfolding load_order confirm append order_confirmed_event
confirm_order envelope order_id saga now = do
  order ← load_order envelope.tenant_id order_id
  update_status (← lift (confirm order now)) now
  save_transition (← lift (transition saga SagaState.completed envelope.event_id now)) now
  append envelope.tenant_id (
      order_confirmed_event order_id order.user_id order.restaurant_id order.total_cents
        envelope.correlation_id)
  pure (some confirmed)

unfoldable pub compensate :
    Envelope PaymentReply → ℕ → OrderSaga → ℕ → OrderAction (Option SagaOutcome)
unfolding append release_stock_command
compensate envelope order_id saga now = do
  save_transition (← lift (transition saga SagaState.compensating envelope.event_id now)) now
  append envelope.tenant_id (release_stock_command order_id envelope.correlation_id)
  pure none

unfoldable pub apply_payment_type :
    PaymentReply → Envelope PaymentReply → ℕ → OrderSaga → ℕ → OrderAction (Option SagaOutcome)
unfolding confirm_order compensate
apply_payment_type payment_succeeded envelope order_id saga now =
    confirm_order envelope order_id saga now
apply_payment_type payment_failed envelope order_id saga now = compensate envelope order_id saga now
apply_payment_type (PaymentReply.unknown _) envelope order_id saga now = pure none

unfoldable pub apply_payment : Envelope PaymentReply → ℕ → ℕ → OrderAction (Option SagaOutcome)
unfolding load_saga
apply_payment envelope order_id now = do
  saga ← load_saga envelope.tenant_id order_id
  (if not (state_eq saga.state SagaState.stock_reserved)
      then pure none
      else apply_payment_type envelope.event_type envelope order_id saga now)

unfoldable pub handle_payment_reply :
    Envelope PaymentReply → ℕ → ℕ → OrderAction (Option SagaOutcome)
unfolding execute apply_payment
handle_payment_reply envelope order_id now =
    execute envelope.event_id (apply_payment envelope order_id now)
