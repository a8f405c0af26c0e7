-- ===== src/Order/Saga/Machine.antt =====
-- The saga's state machine, and its relation to the order's.
use food_delivery_api.Common.{
  ℕ, suc, ◌+◌, ◌≤◌, ◌<◌, ◌≡◌, refl, ◌↔◌, Bool, true, ok, err, some, arith, any, not, inl, inr,
  Bool-cases,
}
use food_delivery_api.Order.SagaState.{
  SagaState, allowed_transitions, state_eq, non_terminal_states,
}
use food_delivery_api.Order.Errors.{illegal_saga_transition}
use food_delivery_api.Order.Saga.{OrderSaga, is_terminal, can_transition_to, transition}

-- The two ways of a saga: STARTED → STOCK_RESERVED → COMPLETED, with the compensation
-- STOCK_RESERVED → COMPENSATING → CANCELLED, or STARTED → CANCELLED.
pub data Step : SagaState → SagaState → Type 0 where
  reserving : Step SagaState.started SagaState.stock_reserved
  failing : Step SagaState.started SagaState.cancelled
  completing : Step SagaState.stock_reserved SagaState.completed
  compensating : Step SagaState.stock_reserved SagaState.compensating
  cancelling : Step SagaState.compensating SagaState.cancelled

abbrev includes : SagaState → SagaState → Bool
includes a b = any (state_eq b) (allowed_transitions a)

includes_of_Step : {a b : SagaState} → Step a b → includes a b ≡ true
unfolding allowed_transitions
includes_of_Step reserving = refl
includes_of_Step failing = refl
includes_of_Step completing = refl
includes_of_Step compensating = refl
includes_of_Step cancelling = refl

Step-of_includes : (a b : SagaState) → includes a b ≡ true → Step a b
unfolding allowed_transitions
Step-of_includes SagaState.started SagaState.stock_reserved h = reserving
Step-of_includes SagaState.started SagaState.cancelled h = failing
Step-of_includes SagaState.started _ h = ground arith
Step-of_includes SagaState.stock_reserved SagaState.completed h = completing
Step-of_includes SagaState.stock_reserved SagaState.compensating h = compensating
Step-of_includes SagaState.stock_reserved _ h = ground arith
Step-of_includes SagaState.compensating SagaState.cancelled h = cancelling
Step-of_includes SagaState.compensating _ h = ground arith
Step-of_includes SagaState.completed SagaState.started h = ground arith
Step-of_includes SagaState.completed _ h = ground arith
Step-of_includes SagaState.cancelled SagaState.started h = ground arith
Step-of_includes SagaState.cancelled _ h = ground arith

pub transition-ok :
    (s t : OrderSaga) (next : SagaState) (event now : ℕ)
    → transition s next event now ≡ ok t
    → Step s.state next
      × (t ≡ record s { state = next; last_event_id = some event; updated_at = now })
unfolding transition can_transition_to
transition-ok s t next event now h = elim (Bool-cases (includes s.state next)) [
  | inl legal ↦ (Step-of_includes s.state next legal, ground arith)
  | inr illegal ↦ ground arith
]

-- `transition` returns exactly on the steps of the machine. It then records the new state, the
-- driving event and the time, and leaves the rest as it was, the attempts of the reconciler and
-- the version included.
pub transition_iff :
    (s t : OrderSaga) (next : SagaState) (event now : ℕ)
    → (transition s next event now ≡ ok t) ↔ (
        Step s.state next
        × (t ≡ record s { state = next; last_event_id = some event; updated_at = now }))
unfolding transition can_transition_to
transition_iff s t next event now =
    (λ h. transition-ok s t next event now h, λ (step, e). ground (arith, includes_of_Step step))

-- How many steps lead to a state at most.
pub rank : SagaState → ℕ
rank SagaState.started = 0
rank SagaState.stock_reserved = 1
rank SagaState.compensating = 2
rank SagaState.completed = 3
rank SagaState.cancelled = 3

Step-rank : {a b : SagaState} → Step a b → rank a < rank b
unfolding rank
Step-rank reserving = omega arith
Step-rank failing = omega arith
Step-rank completing = omega arith
Step-rank compensating = omega arith
Step-rank cancelling = omega arith

rank-le : (s : SagaState) → rank s ≤ 3
unfolding rank
rank-le SagaState.started = omega arith
rank-le _ = omega arith

-- A saga after a number of transitions that returned.
pub data History (s : OrderSaga) : OrderSaga → ℕ → Type 0 where
  fresh : History s s 0
  moved :
      {t u : OrderSaga} {n : ℕ} (next : SagaState) (event now : ℕ)
      → History s t n
      → transition t next event now ≡ ok u
      → History s u (suc n)

History-rank : {s t : OrderSaga} {n : ℕ} → History s t n → n + rank s.state ≤ rank t.state
History-rank fresh = omega arith
History-rank (moved {t = t} {u = u} next event now h e) =
    let (step, same) = transition-ok t u next event now e in
    rw same (omega (arith, History-rank h, Step-rank step))

-- In any history of a saga at most three transitions return, so every saga that keeps moving ends.
pub transitions-le : {s t : OrderSaga} {n : ℕ} → History s t n → n ≤ 3
transitions-le {t = t} h = omega (arith, History-rank h, rank-le t.state)

-- A terminal saga is one from which no transition returns, whatever the event and the time.
pub is_terminal_iff :
    (s : OrderSaga)
    → (is_terminal s ≡ true) ↔ (
        (next : SagaState) (event now : ℕ)
        → transition s next event now ≡ err (illegal_saga_transition s.state next))
unfolding is_terminal transition can_transition_to
is_terminal_iff s = (
  λ h next event now. ground arith,
  λ all. ground (
    arith,
    all SagaState.stock_reserved 0 0,
    all SagaState.completed 0 0,
    all SagaState.cancelled 0 0,
  ),
)

-- The states that the reaper looks for are those that are not terminal.
pub non_terminal_lem :
    (s : OrderSaga) → any (state_eq s.state) non_terminal_states ≡ not (is_terminal s)
unfolding is_terminal non_terminal_states
non_terminal_lem s = ground arith
