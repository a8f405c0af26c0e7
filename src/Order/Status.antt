-- ===== src/Order/Status.antt =====
-- The order's state machine: `OrderStatus` and `ALLOWED_TRANSITIONS` of
-- apps/order/src/domain/order/order.ts.
use food_delivery_api.Common.{Bool, true, false, List, [], ◌∷◌, any}

pub data OrderStatus : Type 0 where
  pending reserved confirmed cancelled : OrderStatus

-- `===` on statuses.
abbrev pub status_eq : OrderStatus → OrderStatus → Bool
status_eq pending pending = true
status_eq reserved reserved = true
status_eq confirmed confirmed = true
status_eq cancelled cancelled = true
status_eq _ _ = false

unfoldable pub allowed_transitions : OrderStatus → List OrderStatus
allowed_transitions pending = reserved ∷ cancelled ∷ []
allowed_transitions reserved = confirmed ∷ cancelled ∷ []
allowed_transitions confirmed = []
allowed_transitions cancelled = []

-- `ALLOWED_TRANSITIONS[from].includes(next)`
unfoldable pub allows : OrderStatus → OrderStatus → Bool
unfolding allowed_transitions
allows from next = any (status_eq next) (allowed_transitions from)
