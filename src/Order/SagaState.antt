-- ===== src/Order/SagaState.antt =====
-- The saga's state machine: `SagaState` and `ALLOWED_TRANSITIONS` of
-- apps/order/src/domain/saga/order-saga.ts.
use food_delivery_api.Common.{Bool, true, false, List, [], ◌∷◌}

pub data SagaState : Type 0 where
  started stock_reserved completed compensating cancelled : SagaState

-- `===` on states.
abbrev pub state_eq : SagaState → SagaState → Bool
state_eq started started = true
state_eq stock_reserved stock_reserved = true
state_eq completed completed = true
state_eq compensating compensating = true
state_eq cancelled cancelled = true
state_eq _ _ = false

unfoldable pub allowed_transitions : SagaState → List SagaState
allowed_transitions started = stock_reserved ∷ cancelled ∷ []
allowed_transitions stock_reserved = completed ∷ compensating ∷ []
allowed_transitions compensating = cancelled ∷ []
allowed_transitions completed = []
allowed_transitions cancelled = []

-- `NON_TERMINAL_SAGA_STATES` of apps/order/src/domain/saga/stranded-saga-sweep.ts.
unfoldable pub non_terminal_states : List SagaState
non_terminal_states = started ∷ stock_reserved ∷ compensating ∷ []
