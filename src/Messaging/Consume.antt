-- ===== src/Messaging/Consume.antt =====
-- One message of a topic, from its bytes to the commit of its offset:
-- libs/shared/messaging/src/message-processing.ts, with `publishDeadLetter` of
-- libs/shared/messaging/src/kafka-consumer.ts. Decoding, the handler and the publication to the
-- dead letter topic are arguments; the pauses between attempts are left out, and so is the log.
pub mod Delivery
use food_delivery_api.Common.{
  ℕ, zero, suc, ◌+◌, Option, none, some, Bool, true, false, List, [], ◌∷◌, ◌++◌, Result, ok, err,
  Action,
}

-- `DropReason`
pub data DropReason : Type 0 where
  undecodable handler_exhausted : DropReason

-- `HandlerOutcome`; a failure carries the error of the last attempt, or `none` where the budget was
-- exhausted without one.
pub data HandlerOutcome {ℓ} (E : Type ℓ) : Type ℓ where
  handled : HandlerOutcome E
  failed : Option E → HandlerOutcome E

-- What the consumer of a topic has done, beside the store `S` that its handler works on.
pub record Progress {ℓ} (S : Type ℓ) : Type ℓ where
  pub store : S
  pub attempts : ℕ
  pub dead_letters : List DropReason
  pub drops : List DropReason
  pub commits : ℕ

-- `ConsumeMessageDeps` for messages of type `M` that decode to `D`. `publish` answers whether the
-- n-th attempt to publish a dead letter succeeds.
pub record Deps {ℓ κ μ ν} (S : Type ℓ) (E : Type κ) (M : Type μ) (D : Type ν)
    : Type (ℓ ⊔ κ ⊔ μ ⊔ ν) where
  pub decode : M → Result E D
  pub handler : D → Action S E (Unit {0})
  pub publish : ℕ → Bool
  pub max_attempts : ℕ

-- `DLQ_PUBLISH_ATTEMPTS`
abbrev pub dlq_publish_attempts : ℕ
dlq_publish_attempts = 3

module _ {ℓ κ μ ν} {S : Type ℓ} {E : Type κ} {M : Type μ} {D : Type ν} (deps : Deps S E M D) where
  -- The loop, from the number of attempts that are left. The last error is reported once
  -- `attempt >= maxAttempts`, which is where none is left.
  unfoldable pub run_attempts : ℕ → D → Progress S → HandlerOutcome E × Progress S
  run_attempts zero message p = (failed none, p)
  run_attempts (suc left) message p =
      let (result, store) = deps.handler message p.store in
      let q = record p { store = store; attempts = p.attempts + 1 } in
      elim result [
        | ok _ ↦ (handled, q)
        | err e ↦ elim left [ zero ↦ (failed (some e), q) | suc _ ↦ run_attempts left message q ]
      ]

  unfoldable pub run_handler_with_retry : D → Progress S → HandlerOutcome E × Progress S
  unfolding run_attempts
  run_handler_with_retry message p = run_attempts deps.max_attempts message p

  -- The loop of `publishDeadLetter`, from the attempts that are left.
  unfoldable pub publish_attempts : ℕ → ℕ → Bool
  publish_attempts attempt zero = false
  publish_attempts attempt (suc left) = elim (deps.publish attempt) [
    | true ↦ true
    | false ↦ publish_attempts (suc attempt) left
  ]

  unfoldable pub publish_dead_letter : DropReason → Progress S → Bool × Progress S
  unfolding publish_attempts
  publish_dead_letter reason p = elim (publish_attempts 1 dlq_publish_attempts) [
    | true ↦ (true, record p { dead_letters = p.dead_letters ++ reason ∷ [] })
    | false ↦ (false, p)
  ]

  unfoldable pub dead_letter_then_commit : DropReason → Progress S → Progress S
  unfolding publish_dead_letter
  dead_letter_then_commit reason p =
      let (published, q) = publish_dead_letter reason p in
      elim published [
        | true ↦ record q { drops = q.drops ++ reason ∷ []; commits = q.commits + 1 }
        | false ↦ q
      ]

  unfoldable pub consume_one_message : M → Progress S → Progress S
  unfolding run_handler_with_retry dead_letter_then_commit
  consume_one_message raw p = elim (deps.decode raw) [
    | err _ ↦ dead_letter_then_commit undecodable p
    | ok message ↦
        let (outcome, q) = run_handler_with_retry message p in
        elim outcome [
          | handled ↦ record q { commits = q.commits + 1 }
          | failed _ ↦ dead_letter_then_commit handler_exhausted q
        ]
  ]
