-- ===== src/Messaging/Consume/Delivery.antt =====
-- A message is committed only when it was handled or dead-lettered.
use food_delivery_api.Common.{
  ℕ, zero, suc, ◌+◌, ◌≤◌, ◌≡◌, [], ◌∷◌, ◌++◌, false, ok, arith, inl, inr, Result-cases, Bool-cases,
  refl,
}
use food_delivery_api.Messaging.Consume.{
  DropReason, undecodable, handler_exhausted, HandlerOutcome, handled, failed, Progress, Deps,
  run_attempts, run_handler_with_retry, publish_attempts, dlq_publish_attempts,
  dead_letter_then_commit, consume_one_message,
}

module _ {ℓ κ μ ν} {S : Type ℓ} {E : Type κ} {M : Type μ} {D : Type ν} (deps : Deps S E M D) where
  -- Some run of the handler on a message returned, and left the store that there is.
  pub record IsHandled (raw : M) (p' : Progress S) : Type (ℓ ⊔ κ ⊔ ν) where
    pub message : D
    pub before : S
    pub decoded : deps.decode raw ≡ ok message
    pub returned : deps.handler message before ≡ (ok tt, p'.store)

  run_attempts-bounds :
      (n : ℕ) (message : D) (p : Progress S)
      → let q = (run_attempts deps n message p).1 in
        (q.attempts ≤ p.attempts + n)
        × (q.commits ≡ p.commits)
        × (q.dead_letters ≡ p.dead_letters)
        × (q.drops ≡ p.drops)
  unfolding run_attempts
  run_attempts-bounds zero message p = (omega arith, refl, refl, refl)
  run_attempts-bounds (suc zero) message p = ground arith
  run_attempts-bounds (suc (suc n)) message p =
      let q : Progress S = record p {
        store = (deps.handler message p.store).1;
        attempts = p.attempts + 1;
      } in
      ground (arith, run_attempts-bounds (suc n) message q)

  run_attempts-handled :
      (n : ℕ) (message : D) (p : Progress S)
      → (run_attempts deps n message p).0 ≡ handled
      → (before : S) × (deps.handler message before
          ≡ (ok tt, (run_attempts deps n message p).1.store))
  unfolding run_attempts
  run_attempts-handled zero message p h = ground arith
  run_attempts-handled (suc zero) message p h =
      elim (Result-cases (deps.handler message p.store).0) [
        | inl (tt, e) ↦ (p.store, ground (arith, e))
        | inr (bad, e) ↦ ground (arith, e)
      ]
  run_attempts-handled (suc (suc n)) message p h =
      let q : Progress S = record p {
        store = (deps.handler message p.store).1;
        attempts = p.attempts + 1;
      } in
      elim (Result-cases (deps.handler message p.store).0) [
        | inl (tt, e) ↦ (p.store, ground (arith, e))
        | inr (bad, e) ↦
            let (before, returned) = run_attempts-handled (suc n) message q (ground (arith, e)) in
            (before, ground (arith, e))
      ]

  -- What became of a message: it was handled and committed, it was dead-lettered and committed, or
  -- it was left for another delivery.
  pub data Fate (raw : M) (p p' : Progress S) : Type (ℓ ⊔ κ ⊔ ν) where
    accepted :
        IsHandled raw p'
        → p'.commits ≡ p.commits + 1
        → p'.dead_letters ≡ p.dead_letters
        → Fate raw p p'
    dropped :
        (reason : DropReason)
        → p'.commits ≡ p.commits + 1
        → p'.dead_letters ≡ p.dead_letters ++ reason ∷ []
        → p'.drops ≡ p.drops ++ reason ∷ []
        → Fate raw p p'
    left_uncommitted :
        publish_attempts deps 1 dlq_publish_attempts ≡ false
        → p'.commits ≡ p.commits
        → p'.dead_letters ≡ p.dead_letters
        → Fate raw p p'

  dead_letter-Fate :
      (raw : M) (p q : Progress S) (reason : DropReason)
      → q.commits ≡ p.commits
      → q.dead_letters ≡ p.dead_letters
      → q.drops ≡ p.drops
      → Fate raw p (dead_letter_then_commit deps reason q)
  unfolding dead_letter_then_commit
  dead_letter-Fate raw p q reason c d r =
      elim (Bool-cases (publish_attempts deps 1 dlq_publish_attempts)) [
        | inl e ↦ rw e (dropped reason (ground arith) (ground arith) (ground arith))
        | inr e ↦ rw e (left_uncommitted e (ground arith) (ground arith))
      ]

  handled-Fate :
      (raw : M) (message : D) (p : Progress S) (outcome : HandlerOutcome E)
      → deps.decode raw ≡ ok message
      → (run_handler_with_retry deps message p).0 ≡ outcome
      → Fate raw p (consume_one_message deps raw p)
  unfolding consume_one_message run_handler_with_retry
  handled-Fate raw message p handled decoded h =
      let (before, returned) = run_attempts-handled deps.max_attempts message p h in
      let (_, commits, dead, drops) = run_attempts-bounds deps.max_attempts message p in
      rw (consume_one_message, decoded)
        (rw (run_handler_with_retry, h)
          (accepted
            (record { message = message; before = before; decoded = decoded; returned = returned })
            (ground arith) dead))
  handled-Fate raw message p (failed reason) decoded h =
      let (_, commits, dead, drops) = run_attempts-bounds deps.max_attempts message p in
      rw (consume_one_message, decoded)
        (rw (run_handler_with_retry, h)
          (dead_letter-Fate raw p (run_attempts deps deps.max_attempts message p).1
            handler_exhausted commits dead drops))

  -- The offset of a message is committed once if a run of the handler returned, or if the message
  -- was published to the dead letter topic and counted as dropped; where every attempt to publish
  -- it failed, it is left uncommitted.
  pub consume_one_message-Fate :
      (raw : M) (p : Progress S) → Fate raw p (consume_one_message deps raw p)
  unfolding consume_one_message
  consume_one_message-Fate raw p = elim (Result-cases (deps.decode raw)) [
    | inl (message, decoded) ↦
        handled-Fate raw message p (run_handler_with_retry deps message p).0 decoded refl
    | inr (bad, e) ↦
        rw (consume_one_message, e) (dead_letter-Fate raw p p undecodable refl refl refl)
  ]

  dead_letter-attempts :
      (reason : DropReason) (q : Progress S)
      → (dead_letter_then_commit deps reason q).attempts ≡ q.attempts
  unfolding dead_letter_then_commit
  dead_letter-attempts reason q = elim (Bool-cases (publish_attempts deps 1 dlq_publish_attempts)) [
    | inl e ↦ ground (arith, e)
    | inr e ↦ ground (arith, e)
  ]

  -- The handler runs at most `max_attempts` times for one delivery of a message.
  pub consume_one_message_attempts :
      (raw : M) (p : Progress S)
      → (consume_one_message deps raw p).attempts ≤ p.attempts + deps.max_attempts
  unfolding consume_one_message run_handler_with_retry
  consume_one_message_attempts raw p = elim (Result-cases (deps.decode raw)) [
    | inl (message, e) ↦ ground (
      arith,
      e,
      run_attempts-bounds deps.max_attempts message p,
      dead_letter-attempts handler_exhausted (run_attempts deps deps.max_attempts message p).1,
    )
    | inr (bad, e) ↦ ground (arith, e, dead_letter-attempts undecodable p)
  ]
