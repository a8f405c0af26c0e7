-- ===== src/Order/Reaper.antt =====
-- The sweep over stranded sagas: apps/order/src/application/saga/saga-reconciler.ts and the calls
-- `reconcile` and `recoverOne` of apps/order/src/interface/messaging/saga-reaper.provider.ts. A
-- correlation id that is minted for a saga without one is an argument; the timer, the advisory
-- lock of `sweep`, the log and the metrics are left out.
pub mod Redrive
use food_delivery_api.Common.{
  ℕ, Result, ok, err, lift, Bool, true, false, List, [], ◌∷◌, Option, none, some, Action, ◌>>=◌,
  ◌>>◌, pure, throw, catch, run_in_transaction, leb, if◌then◌else◌,
}
use food_delivery_api.Order.SagaState.{SagaState}
use food_delivery_api.Order.Errors.{OrderError, saga_state_changed, terminal_saga}
use food_delivery_api.Order.Aggregate.{Order}
use food_delivery_api.Order.Saga.{OrderSaga, StrandedSagaCandidate, select_stranded_sagas}
use food_delivery_api.Order.Commands.{
  OutboxCommandEntry, reserve_stock_command, charge_payment_command, release_stock_command,
  reserve_items,
}
use food_delivery_api.Order.Store.{
  OrderAction, find_by_id, find_by_order_id, find_non_terminal, record_reconcile_attempt, append,
}

pub data ReconcileAction : Type 0 where
  redrive : OutboxCommandEntry → ReconcileAction
  escalate : ReconcileAction

-- `saga.correlationId ?? randomUUID()`
abbrev pub correlation_or : Option ℕ → ℕ → ℕ
correlation_or none minted = minted
correlation_or (some id) minted = id

-- The `switch` on the state.
unfoldable pub redrive_for : SagaState → ℕ → Order → ℕ → Result OrderError ReconcileAction
redrive_for SagaState.started order_id order correlation_id =
    ok (redrive (reserve_stock_command order_id (reserve_items order.items) correlation_id))
redrive_for SagaState.stock_reserved order_id order correlation_id =
    ok (redrive (charge_payment_command order_id order.total_cents correlation_id))
redrive_for SagaState.compensating order_id order correlation_id =
    ok (redrive (release_stock_command order_id correlation_id))
redrive_for SagaState.completed order_id order correlation_id =
    err (terminal_saga SagaState.completed)
redrive_for SagaState.cancelled order_id order correlation_id =
    err (terminal_saga SagaState.cancelled)

unfoldable pub decide_reconcile_action :
    OrderSaga → Order → ℕ → ℕ → Result OrderError ReconcileAction
unfolding redrive_for
decide_reconcile_action saga order max_attempts minted =
    if leb max_attempts saga.attempts
    then ok escalate
    else redrive_for saga.state saga.order_id order (correlation_or saga.correlation_id minted)

-- What a run of `recoverOne` was for: its returns, its log lines and its metrics.
pub data Recovery : Type 0 where
  raced_a_delete no_order_row escalated redriven state_changed failed : Recovery

pub record ReaperSettings : Type 0 where
  pub timeout_ms : ℕ
  pub max_attempts : ℕ

-- The `catch` clause, which ends the call whatever was thrown.
abbrev pub recovery_of : OrderError → Recovery
recovery_of (saga_state_changed _ _) = state_changed
recovery_of _ = failed

unfoldable pub redrive_with :
    StrandedSagaCandidate → SagaState → OutboxCommandEntry → ℕ → OrderAction Recovery
unfolding record_reconcile_attempt append
redrive_with candidate state command now = run_in_transaction (do
  record_reconcile_attempt candidate.order_id state now
  append candidate.tenant_id command
  pure redriven)

unfoldable pub act : StrandedSagaCandidate → SagaState → ℕ → ReconcileAction → OrderAction Recovery
unfolding redrive_with
act candidate state now (redrive command) = redrive_with candidate state command now
act candidate state now escalate = pure escalated

unfoldable pub recover_order :
    ReaperSettings → ℕ → StrandedSagaCandidate → OrderSaga → ℕ → Option Order → OrderAction Recovery
unfolding decide_reconcile_action act
recover_order settings minted candidate saga now none = pure no_order_row
recover_order settings minted candidate saga now (some order) = do
  action ← lift (decide_reconcile_action saga order settings.max_attempts minted)
  act candidate saga.state now action

unfoldable pub recover_saga :
    ReaperSettings → ℕ → StrandedSagaCandidate → ℕ → Option OrderSaga → OrderAction Recovery
unfolding find_by_id recover_order
recover_saga settings minted candidate now none = pure raced_a_delete
recover_saga settings minted candidate now (some saga) = do
  order ← find_by_id candidate.tenant_id candidate.order_id
  recover_order settings minted candidate saga now order

unfoldable pub recover_one : ReaperSettings → ℕ → StrandedSagaCandidate → ℕ → OrderAction Recovery
unfolding find_by_order_id recover_saga
recover_one settings minted candidate now =
    catch
      (do
        saga ← find_by_order_id candidate.tenant_id candidate.order_id
        recover_saga settings minted candidate now saga)
      (λ error. pure (recovery_of error))

-- `for (const candidate of stranded) await this.recoverOne(candidate)`; the id that a redrive mints
-- for a saga without one is a function of the saga's order.
unfoldable pub recover_all :
    ReaperSettings → (ℕ → ℕ) → List StrandedSagaCandidate → ℕ → OrderAction (List Recovery)
unfolding recover_one
recover_all settings mint [] now = pure []
recover_all settings mint (candidate ∷ stranded) now = do
  recovery ← recover_one settings (mint candidate.order_id) candidate now
  recoveries ← recover_all settings mint stranded now
  pure (recovery ∷ recoveries)

unfoldable pub reconcile : ReaperSettings → (ℕ → ℕ) → ℕ → OrderAction (List Recovery)
unfolding recover_all find_non_terminal
reconcile settings mint now = do
  candidates ← find_non_terminal now settings.timeout_ms
  recover_all settings mint (select_stranded_sagas candidates now settings.timeout_ms) now
