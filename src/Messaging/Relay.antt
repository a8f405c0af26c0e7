-- ===== src/Messaging/Relay.antt =====
-- `OutboxRelay` (libs/shared/messaging/src/outbox-relay.ts) over the outbox of a service and a
-- producer. A timer is the delay it was set to; the log is left out.
pub mod Backoff
pub mod Drain
pub mod Progress
pub mod Outbox
use food_delivery_api.Common.{
  ℕ, ◌*◌, min, Option, none, some, Bool, List, [], ◌∷◌, map, String, length, Result, ok, err,
  Action, ◌>>=◌, ◌>>◌, pure, throw, catch, if◌then◌else◌,
}
use food_delivery_api.Messaging.Producer.{OutboundKafkaMessage}

-- `OutboxRecord`
pub record OutboxRecord {ℓ} (V : Type ℓ) : Type ℓ where
  pub id : String
  pub topic : String
  pub key : String
  pub headers : List (String × String)
  pub value : V

-- The answer of `runExclusively`.
pub record RunOutcome : Type 0 where
  pub ran : Bool
  pub result : Option ℕ

-- `OutboxPort`; `none` is a method that is left out.
pub record OutboxPort {ℓ κ μ} (S : Type ℓ) (E : Type κ) (V : Type μ) : Type (ℓ ⊔ κ ⊔ μ) where
  pub fetch_unpublished : ℕ → Action S E (List (OutboxRecord V))
  pub mark_published : List String → Action S E (Unit {0})
  pub increment_attempts : Option (List String → Action S E (Unit {0}))
  pub run_exclusively : Option (Action S E ℕ → Action S E RunOutcome)

-- The options of a relay, with their defaults where they are left out.
pub record OutboxRelayOptions : Type 0 where
  pub interval_ms : ℕ
  pub batch_size : ℕ
  pub max_backoff_ms : ℕ

abbrev or_default : ℕ → Option ℕ → ℕ
or_default d none = d
or_default d (some n) = n

abbrev pub relay_options : Option ℕ → Option ℕ → Option ℕ → OutboxRelayOptions
relay_options interval_ms batch_size max_backoff_ms = record {
  interval_ms = or_default 1000 interval_ms;
  batch_size = or_default 100 batch_size;
  max_backoff_ms = or_default 30000 max_backoff_ms;
}

-- The fields of a relay that change: the timer with its delay, and the next backoff.
pub record Relay : Type 0 where
  pub timer : Option ℕ
  pub current_backoff_ms : ℕ

abbrev pub new_relay : OutboxRelayOptions → Relay
new_relay options = record { timer = none; current_backoff_ms = options.interval_ms }

abbrev schedule_next : ℕ → Relay → Relay
schedule_next delay_ms relay = record relay { timer = some delay_ms }

abbrev clear_timer : Relay → Relay
clear_timer relay = record relay { timer = none }

unfoldable pub start : Relay → Relay
start relay = elim (relay.timer) [ none ↦ schedule_next 0 relay | some delay ↦ relay ]

unfoldable pub stop : Relay → Relay
stop relay = elim (relay.timer) [ none ↦ relay | some delay ↦ clear_timer relay ]

abbrev pub to_message {ℓ} : {V : Type ℓ} → OutboxRecord V → OutboundKafkaMessage V
to_message row = record {
  topic = row.topic;
  key = row.key;
  headers = row.headers;
  value = row.value;
}

abbrev pub row_ids {ℓ} : {V : Type ℓ} → List (OutboxRecord V) → List String
row_ids rows = map (λ r. r.id) rows

-- The end of a tick: the delay of the next, and the backoff that the next failure will use.
unfoldable pub reschedule {ℓ} : {E : Type ℓ} → OutboxRelayOptions → Result E ℕ → Relay → Relay
reschedule options (ok n) relay =
    schedule_next options.interval_ms (record relay { current_backoff_ms = options.interval_ms })
reschedule options (err e) relay = record (schedule_next relay.current_backoff_ms relay) {
  current_backoff_ms = min (relay.current_backoff_ms * 2) options.max_backoff_ms;
}

module _ {ℓ κ μ} {S : Type ℓ} {E : Type κ} {V : Type μ} (outbox : OutboxPort S E V)
    (publish_batch : List (OutboundKafkaMessage V) → Action S E (Unit {0}))
    (options : OutboxRelayOptions) where
  -- An error of the recording is logged and forgotten.
  unfoldable pub record_failed_attempts : List String → Action S E (Unit {0})
  record_failed_attempts ids = elim (outbox.increment_attempts) [
    | none ↦ pure tt
    | some increment ↦ catch (increment ids) (λ _. pure tt)
  ]

  unfoldable pub drain_rows : List (OutboxRecord V) → Action S E ℕ
  unfolding record_failed_attempts
  drain_rows [] = pure 0
  drain_rows (row ∷ rows) = do
    catch (publish_batch (map to_message (row ∷ rows)))
        (λ error. record_failed_attempts (row_ids (row ∷ rows)) >> throw error)
    outbox.mark_published (row_ids (row ∷ rows))
    pure (length (row ∷ rows))

  unfoldable pub drain_batch : Action S E ℕ
  unfolding drain_rows
  drain_batch = outbox.fetch_unpublished options.batch_size >>= drain_rows

  abbrev pub drained : RunOutcome → ℕ
  drained outcome = if outcome.ran then or_default 0 outcome.result else 0

  unfoldable pub run_once : Action S E ℕ
  unfolding drain_batch
  run_once = elim (outbox.run_exclusively) [
    | none ↦ drain_batch
    | some exclusively ↦ exclusively drain_batch >>= λ outcome. pure (drained outcome)
  ]

  unfoldable pub tick : Relay × S → Relay × S
  unfolding run_once reschedule
  tick (relay, s) = let (r, s') = run_once s in (reschedule options r relay, s')
