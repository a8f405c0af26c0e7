-- ===== src/Messaging/Relay/Progress.antt =====
-- What drains do to the rows that wait, one drain and many ticks.
use food_delivery_api.Common.{
  ℕ, zero, suc, ◌≤◌, ◌<◌, ◌≡◌, ◌⊎◌, refl, Option, Bool, true, false, List, [], ◌∷◌, map, String,
  Result, ok, err, Action, arith,
}
use food_delivery_api.Common.Table.{update_where}
use food_delivery_api.Common.Selection.{count}
use food_delivery_api.Messaging.Producer.{OutboundKafkaMessage}
use food_delivery_api.Messaging.Relay.{OutboxRelayOptions, Relay, tick}
use food_delivery_api.Messaging.Relay.Outbox.{
  OutboxDb, is_unpublished, increment_row, outbox_adapter, outbox_relay_lock_key, on_broker,
  run_exclusively,
}
use food_delivery_api.Messaging.Relay.Drain.{Drained, nothing, refused, taken, drain, drain-Drained}
use food_delivery_api.Persistence.{AdvisoryLocks}

map-update_where {ℓ κ} :
    {A : Type ℓ} {B : Type κ} (column : A → B) (selects : A → Bool) (set : A → A)
    → ((r : A) → column (set r) ≡ column r)
    → (rows : List A) → map column (update_where selects set rows) ≡ map column rows
map-update_where column selects set keeps [] = refl
map-update_where column selects set keeps (r ∷ rows) =
    ground (arith, keeps r, map-update_where column selects set keeps rows)

abbrev pub published_columns {ℓ κ μ} :
    {V : Type ℓ} {W : Type κ} {L : Type μ} → OutboxDb V W L → List (Option ℕ)
published_columns db = map (λ r. r.published_at) db.rows

abbrev pub waiting {ℓ κ μ} : {V : Type ℓ} {W : Type κ} {L : Type μ} → OutboxDb V W L → ℕ
waiting db = count is_unpublished db.rows

module _ {ℓ κ μ ν} {V : Type ℓ} {W : Type κ} {L : Type μ} {E : Type ν} (pg : AdvisoryLocks L)
    (to_iso : ℕ → String) (locked : String → Bool)
    (publish : List (OutboundKafkaMessage V) → Action W E (Unit {0}))
    (options : OutboxRelayOptions) where
  Drained-keeps :
      (db : OutboxDb V W L) (outcome : Result E ℕ × OutboxDb V W L) (e : E)
      → Drained pg to_iso locked publish options db outcome
      → outcome.0 ≡ err e
      → published_columns outcome.1 ≡ published_columns db
  Drained-keeps db _ e (nothing none_left) h = ground arith
  Drained-keeps db _ e (refused x rest e' fetched failed) h =
      map-update_where (λ r. r.published_at) _ increment_row (λ r. refl) db.rows
  Drained-keeps db _ e (taken x rest fetched sent) h = ground arith

  -- A drain that throws marks no row as published.
  pub drain-err :
      (db : OutboxDb V W L) (e : E)
      → (drain pg to_iso locked publish options db).0 ≡ err e
      → published_columns (drain pg to_iso locked publish options db).1 ≡ published_columns db
  drain-err db e h = Drained-keeps db _ e (drain-Drained pg to_iso locked publish options db) h

  abbrev pub relay_tick : Relay × OutboxDb V W L → Relay × OutboxDb V W L
  unfolding tick run_exclusively
  relay_tick = tick (outbox_adapter pg to_iso locked) (on_broker publish) options

  -- What the work of a drain leaves, with the lock given back.
  abbrev pub released : Result E ℕ × OutboxDb V W L → OutboxDb V W L
  released (r, after) = record after { locks = pg.unlock outbox_relay_lock_key after.locks }

  unfoldable pub ticks : ℕ → Relay × OutboxDb V W L → Relay × OutboxDb V W L
  unfolding tick run_exclusively
  ticks zero state = state
  ticks (suc n) state = ticks n (relay_tick state)

  module _ (l taken_lock : L) (b : ℕ)
      (free : pg.try_lock outbox_relay_lock_key l ≡ (true, taken_lock))
      (given_back : pg.unlock outbox_relay_lock_key taken_lock ≡ l)
      (sent : (messages : List (OutboundKafkaMessage V)) (w : W) → (publish messages w).0 ≡ ok tt)
      (unlocked : (id : String) → locked id ≡ false) (size : options.batch_size ≡ suc b) where
    abbrev Progress : OutboxDb V W L → OutboxDb V W L → Type μ
    Progress before after =
        (after.locks ≡ l) × ((waiting after < waiting before) ⊎ (waiting after ≤ 0))
