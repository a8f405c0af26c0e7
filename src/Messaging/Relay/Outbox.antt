-- ===== src/Messaging/Relay/Outbox.antt =====
-- The outbox table of a service, as the relay sees it:
-- apps/payment/src/infrastructure/outbox/typeorm-payment-outbox.adapter.ts. The adapters of the
-- order and inventory services are the same but for their names and the key of their lock. Rows
-- that another transaction has locked are skipped; rows of one time keep their order.
use food_delivery_api.Common.{
  ℕ, ◌+◌, Option, none, some, Bool, true, false, not, ◌&&◌, ◌||◌, List, [], ◌∷◌, map, String, keep,
  Action, ◌>>=◌, gets, modify, pure, if◌then◌else◌,
}
use food_delivery_api.Common.Table.{update_where}
use food_delivery_api.Common.Selection.{take, sort_by}
use food_delivery_api.Common.Text.{text_eq, is_empty, put}
use food_delivery_api.Messaging.Envelope.{encode_headers}
use food_delivery_api.Messaging.Producer.{OutboundKafkaMessage}
use food_delivery_api.Messaging.Relay.{OutboxRecord, RunOutcome, OutboxPort}
use food_delivery_api.Persistence.{AdvisoryLocks, HasLocks, with_advisory_lock}

-- `PaymentOutboxOrmEntity`
pub record OutboxRow {ℓ} (V : Type ℓ) : Type ℓ where
  pub id : String
  pub aggregate_id : String
  pub topic : String
  pub event_type : String
  pub payload : V
  pub tenant_id : String
  pub correlation_id : String
  pub created_at : ℕ
  pub published_at : Option ℕ
  pub attempts : ℕ
  pub trace_parent : Option String

-- The table with the locks `L` of its database, the state `W` of the broker and the time.
pub record OutboxDb {ℓ κ μ} (V : Type ℓ) (W : Type κ) (L : Type μ) : Type (ℓ ⊔ κ ⊔ μ) where
  pub rows : List (OutboxRow V)
  pub broker : W
  pub locks : L
  pub now : ℕ

abbrev pub outbox_relay_lock_key : ℕ
outbox_relay_lock_key = 4002

abbrev pub member : String → List String → Bool
member id [] = false
member id (x ∷ ids) = text_eq x id || member id ids

-- `published_at IS NULL`
abbrev pub is_null : Option ℕ → Bool
is_null none = true
is_null (some t) = false

abbrev with_traceparent : Option String → List (String × String) → List (String × String)
with_traceparent none headers = headers
with_traceparent (some t) headers = if is_empty t then headers else put "traceparent" t headers

abbrev pub outcome_of : Option ℕ → RunOutcome
outcome_of none = record { ran = false; result = none }
outcome_of (some n) = record { ran = true; result = some n }

module _ {ℓ} {V : Type ℓ} where
  abbrev pub is_unpublished : OutboxRow V → Bool
  is_unpublished row = is_null row.published_at

  abbrev pub is_claimable : (String → Bool) → OutboxRow V → Bool
  is_claimable locked row = is_unpublished row && not (locked row.id)

  -- The rows of the query of `fetchUnpublished`.
  abbrev pub unpublished_rows : (String → Bool) → ℕ → List (OutboxRow V) → List (OutboxRow V)
  unpublished_rows locked limit rows =
      take limit (sort_by (λ r. r.created_at) (keep (is_claimable locked) rows))

  -- `to_iso` is `new Date(time).toISOString()`.
  unfoldable pub to_record : (ℕ → String) → OutboxRow V → OutboxRecord V
  unfolding encode_headers
  to_record to_iso row = record {
    id = row.id;
    topic = row.topic;
    key = row.aggregate_id;
    headers = with_traceparent row.trace_parent (
        encode_headers (record {
          event_id = row.id;
          event_type = row.event_type;
          aggregate_id = row.aggregate_id;
          tenant_id = row.tenant_id;
          correlation_id = row.correlation_id;
          occurred_at = to_iso row.created_at;
        }));
    value = row.payload;
  }

  abbrev pub is_selected : List String → OutboxRow V → Bool
  is_selected ids row = member row.id ids && is_unpublished row

  abbrev pub set_published : ℕ → OutboxRow V → OutboxRow V
  set_published now row = record row { published_at = some now }

  abbrev pub increment_row : OutboxRow V → OutboxRow V
  increment_row row = record row { attempts = row.attempts + 1 }

abbrev pub held_locks {ℓ κ μ} : {V : Type ℓ} {W : Type κ} {L : Type μ} → HasLocks (OutboxDb V W L) L
held_locks = record { locks = λ db. db.locks; set_locks = λ l db. record db { locks = l } }

module _ {ℓ κ μ ν} {V : Type ℓ} {W : Type κ} {L : Type μ} {E : Type ν} where
  unfoldable pub fetch_unpublished :
      (ℕ → String) → (String → Bool) → ℕ → Action (OutboxDb V W L) E (List (OutboxRecord V))
  unfolding to_record
  fetch_unpublished to_iso locked limit =
      gets (λ db. map (to_record to_iso) (unpublished_rows locked limit db.rows))

  unfoldable pub mark_published : List String → Action (OutboxDb V W L) E (Unit {0})
  mark_published [] = pure tt
  mark_published (id ∷ ids) = modify λ db. record db {
    rows = update_where (is_selected (id ∷ ids)) (set_published db.now) db.rows;
  }

  unfoldable pub increment_attempts : List String → Action (OutboxDb V W L) E (Unit {0})
  increment_attempts [] = pure tt
  increment_attempts (id ∷ ids) =
      modify
        λ db. record db { rows = update_where (λ r. member r.id (id ∷ ids)) increment_row db.rows }

  unfoldable pub run_exclusively :
      AdvisoryLocks L → Action (OutboxDb V W L) E ℕ → Action (OutboxDb V W L) E RunOutcome
  unfolding with_advisory_lock
  run_exclusively pg drain =
      with_advisory_lock pg held_locks outbox_relay_lock_key drain >>= λ o. pure (outcome_of o)

  abbrev pub outbox_adapter :
      AdvisoryLocks L → (ℕ → String) → (String → Bool) → OutboxPort (OutboxDb V W L) E V
  unfolding fetch_unpublished mark_published increment_attempts run_exclusively
  outbox_adapter pg to_iso locked = record {
    fetch_unpublished = fetch_unpublished to_iso locked;
    mark_published = mark_published;
    increment_attempts = some increment_attempts;
    run_exclusively = some (run_exclusively pg);
  }

  -- A producer writes to the broker alone.
  abbrev pub on_broker :
      (List (OutboundKafkaMessage V) → Action W E (Unit {0}))
      → List (OutboundKafkaMessage V)
      → Action (OutboxDb V W L) E (Unit {0})
  on_broker publish messages db =
      ((publish messages db.broker).0, record db { broker = (publish messages db.broker).1 })
