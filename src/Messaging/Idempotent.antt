-- ===== src/Messaging/Idempotent.antt =====
-- `IdempotentConsumer.runOnce` (libs/shared/messaging/src/idempotent-consumer.ts) over the store of
-- processed events that a service implements.
use food_delivery_api.Common.{
  ℕ, Bool, Option, none, some, Result, ok, err, Action, ◌>>=◌, pure, if◌then◌else◌,
}

-- `ProcessedEventStorePort`. `is_duplicate` is `error instanceof DuplicateEventError`; `has` reads
-- the events that were marked.
pub record ProcessedEventStore {ℓ κ} (S : Type ℓ) (E : Type κ) : Type (ℓ ⊔ κ) where
  pub mark_processed : ℕ → Action S E (Unit {0})
  pub is_duplicate : E → Bool
  pub has : S → ℕ → Bool

module _ {ℓ κ μ} {S : Type ℓ} {E : Type κ} {A : Type μ} (store : ProcessedEventStore S E) where
  -- A duplicate event ends the call with nothing done; `none` is `undefined`.
  abbrev resume : ℕ → Action S E A → Result E (Unit {0}) × S → Result E (Option A) × S
  resume event work (r, s) = elim r [
    | ok _ ↦ (work >>= λ a. pure (some a)) s
    | err e ↦ if store.is_duplicate e then (ok none, s) else (err e, s)
  ]

  unfoldable pub run_once : ℕ → Action S E A → Action S E (Option A)
  run_once event work s = resume event work (store.mark_processed event s)
