-- ===== src/Order/Saga.antt =====
-- The saga aggregate and the selection of stranded sagas: apps/order/src/domain/saga/order-saga.ts
-- and stranded-saga-sweep.ts.
pub mod Machine
use food_delivery_api.Common.{
  ℕ, ◌+◌, ◌&&◌, not, Bool, List, Option, none, some, Result, ok, any, keep, ltb, ◌==◌, length,
}
use food_delivery_api.Common.Throws.{◌>>=◌, ◌>>◌, throw_if}
use food_delivery_api.Order.SagaState.{
  SagaState, allowed_transitions, non_terminal_states, state_eq,
}
use food_delivery_api.Order.Errors.{OrderError, illegal_saga_transition}

pub record OrderSaga : Type 0 where
  pub order_id : ℕ
  pub tenant_id : ℕ
  pub state : SagaState
  pub correlation_id : Option ℕ
  pub last_event_id : Option ℕ
  pub version : ℕ
  pub attempts : ℕ
  pub created_at : ℕ
  pub updated_at : ℕ

pub record StartOrderSagaProps : Type 0 where
  pub order_id : ℕ
  pub tenant_id : ℕ
  pub correlation_id : Option ℕ

unfoldable pub start : StartOrderSagaProps → ℕ → OrderSaga
start props now = record {
  order_id = props.order_id;
  tenant_id = props.tenant_id;
  state = SagaState.started;
  correlation_id = props.correlation_id;
  last_event_id = none;
  version = 0;
  attempts = 0;
  created_at = now;
  updated_at = now;
}

unfoldable pub is_terminal : OrderSaga → Bool
unfolding allowed_transitions
is_terminal saga = length (allowed_transitions saga.state) == 0

unfoldable pub can_transition_to : OrderSaga → SagaState → Bool
unfolding allowed_transitions
can_transition_to saga next = any (state_eq next) (allowed_transitions saga.state)

unfoldable pub transition : OrderSaga → SagaState → ℕ → ℕ → Result OrderError OrderSaga
transition saga next driving_event_id now = do
  throw_if (not (can_transition_to saga next)) (illegal_saga_transition saga.state next)
  ok (record saga { state = next; last_event_id = some driving_event_id; updated_at = now })

pub record StrandedSagaCandidate : Type 0 where
  pub order_id : ℕ
  pub tenant_id : ℕ
  pub state : SagaState
  pub updated_at : ℕ

-- `candidate.updatedAt.getTime() < now.getTime() - timeoutMs`, with the timeout moved to the other
-- side, since the difference of two natural numbers stops at 0.
unfoldable pub is_stranded : ℕ → ℕ → StrandedSagaCandidate → Bool
unfolding non_terminal_states
is_stranded now timeout_ms candidate =
    any (state_eq candidate.state) non_terminal_states
    && ltb (candidate.updated_at + timeout_ms) now

unfoldable pub select_stranded_sagas :
    List StrandedSagaCandidate → ℕ → ℕ → List StrandedSagaCandidate
select_stranded_sagas candidates now timeout_ms = keep (is_stranded now timeout_ms) candidates
