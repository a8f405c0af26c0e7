-- ===== src/Messaging/Relay/Drain.antt =====
-- What a drain of the outbox does to its rows, and how long it takes to empty it.
use food_delivery_api.Common.{
  ℕ, ◌≤◌, ◌≡◌, refl, sym, subst, ◌∙◌, inl, inr, Bool, true, ◌&&◌, List, [], ◌∷◌, map, String, keep,
  any, length, Result, ok, err, Action, arith, List-cases, Result-cases,
}
use food_delivery_api.Common.Table.{update_where}
use food_delivery_api.Common.Selection.{
  sort_by, any-take, any-sort_by, any-keep, any-weaken, is_sorted_by, take-sorted, sort_by-sorted,
  length-take-le,
}
use food_delivery_api.Common.Text.{text_eq, text_eq_iff}
use food_delivery_api.Messaging.Producer.{OutboundKafkaMessage}
use food_delivery_api.Messaging.Relay.{
  OutboxRecord, OutboxRelayOptions, drain_batch, drain_rows, record_failed_attempts, row_ids,
  to_message,
}
use food_delivery_api.Messaging.Relay.Outbox.{
  OutboxRow, OutboxDb, member, is_claimable, unpublished_rows, to_record, is_selected,
  set_published, increment_row, fetch_unpublished, mark_published, increment_attempts,
  run_exclusively, outbox_adapter, on_broker,
}
use food_delivery_api.Persistence.{AdvisoryLocks}

text_eq_self : (s : String) → text_eq s s ≡ true
text_eq_self s = (text_eq_iff s s).1 refl

module _ {ℓ} {V : Type ℓ} (to_iso : ℕ → String) where
  abbrev pub ids_of : List (OutboxRow V) → List String
  unfolding to_record
  ids_of rows = row_ids (map (to_record to_iso) rows)

  abbrev pub messages_of : List (OutboxRow V) → List (OutboundKafkaMessage V)
  unfolding to_record
  messages_of rows = map to_message (map (to_record to_iso) rows)

module _ {ℓ} {V : Type ℓ} (to_iso : ℕ → String) (locked : String → Bool) where
  -- The rows that are fetched are oldest first, and at most as many as the limit says.
  pub unpublished_rows-sorted :
      (limit : ℕ) (rows : List (OutboxRow V))
      → (is_sorted_by (λ r. r.created_at) (unpublished_rows locked limit rows) ≡ true)
        × (length (unpublished_rows locked limit rows) ≤ limit)
  unpublished_rows-sorted limit rows =
      let chosen = sort_by (λ r. r.created_at) (keep (is_claimable locked) rows) in
      (
        take-sorted (λ r. r.created_at) limit chosen
            (sort_by-sorted (λ r. r.created_at) (keep (is_claimable locked) rows)),
        length-take-le limit chosen,
      )

  -- Where a row is fetched, some row is selected by the ids of the fetched ones.
  pub selected_of_fetched :
      (limit : ℕ) (rows : List (OutboxRow V)) (x : OutboxRow V) (rest : List (OutboxRow V))
      → unpublished_rows locked limit rows ≡ x ∷ rest
      → any (is_selected (ids_of to_iso (x ∷ rest))) rows ≡ true
  unfolding to_record
  selected_of_fetched limit rows x rest e =
      let wanted = λ (r : OutboxRow V). member r.id (ids_of to_iso (x ∷ rest)) in
      let claimable = keep (is_claimable locked) rows in
      let on_fetched =
        subst (λ fetched. any wanted fetched ≡ true) (sym e) (ground (arith, text_eq_self x.id)) in
      let on_claimable =
        sym (any-sort_by wanted (λ r. r.created_at) claimable)
        ∙ any-take wanted limit (sort_by (λ r. r.created_at) claimable) on_fetched in
      any-weaken (λ r. is_claimable locked r && wanted r) (is_selected (ids_of to_iso (x ∷ rest)))
        (λ r h. ground arith) rows (sym (any-keep wanted (is_claimable locked) rows) ∙ on_claimable)

module _ {ℓ κ μ ν} {V : Type ℓ} {W : Type κ} {L : Type μ} {E : Type ν} (pg : AdvisoryLocks L)
    (to_iso : ℕ → String) (locked : String → Bool)
    (publish : List (OutboundKafkaMessage V) → Action W E (Unit {0}))
    (options : OutboxRelayOptions) where
  unfoldable pub drain : Action (OutboxDb V W L) E ℕ
  unfolding drain_batch fetch_unpublished mark_published increment_attempts run_exclusively
  drain = drain_batch (outbox_adapter pg to_iso locked) (on_broker publish) options

  abbrev pub fetched_rows : OutboxDb V W L → List (OutboxRow V)
  fetched_rows db = unpublished_rows locked options.batch_size db.rows

  -- The table after a batch that the broker took.
  abbrev pub after_success : List (OutboxRecord V) → OutboxDb V W L → OutboxDb V W L
  after_success records db = record db {
    broker = (publish (map to_message records) db.broker).1;
    rows = update_where (is_selected (row_ids records)) (set_published db.now) db.rows;
  }

  -- The table after a batch that the broker refused.
  abbrev pub after_failure : List (OutboxRecord V) → OutboxDb V W L → OutboxDb V W L
  after_failure records db = record db {
    broker = (publish (map to_message records) db.broker).1;
    rows = update_where (λ r. member r.id (row_ids records)) increment_row db.rows;
  }

  drain_rows-ok :
      (r : OutboxRecord V) (rs : List (OutboxRecord V)) (db : OutboxDb V W L)
      → (publish (map to_message (r ∷ rs)) db.broker).0 ≡ ok tt
      → drain_rows (outbox_adapter pg to_iso locked) (on_broker publish) options (r ∷ rs) db
        ≡ (ok (length (r ∷ rs)), after_success (r ∷ rs) db)
  unfolding drain_rows mark_published fetch_unpublished increment_attempts run_exclusively
      record_failed_attempts
  drain_rows-ok r rs db h = ground arith

  drain_rows-err :
      (r : OutboxRecord V) (rs : List (OutboxRecord V)) (db : OutboxDb V W L) (e : E)
      → (publish (map to_message (r ∷ rs)) db.broker).0 ≡ err e
      → drain_rows (outbox_adapter pg to_iso locked) (on_broker publish) options (r ∷ rs) db
        ≡ (err e, after_failure (r ∷ rs) db)
  unfolding drain_rows record_failed_attempts mark_published fetch_unpublished increment_attempts
      run_exclusively
  drain_rows-err r rs db e h = ground arith

  drain-fetched :
      (db : OutboxDb V W L) (rows : List (OutboxRow V))
      → fetched_rows db ≡ rows
      → drain db
        ≡ drain_rows
            (outbox_adapter pg to_iso locked)
            (on_broker publish)
            options
            (map (to_record to_iso) rows)
            db
  unfolding drain drain_batch fetch_unpublished
  drain-fetched db rows e = rw e refl

  -- A drain either finds nothing, or has its batch refused, or has it taken.
  pub data Drained (db : OutboxDb V W L) : Result E ℕ × OutboxDb V W L → Type (ℓ ⊔ κ ⊔ μ ⊔ ν) where
    nothing : fetched_rows db ≡ [] → Drained db (ok 0, db)
    refused :
        (x : OutboxRow V) (rest : List (OutboxRow V)) (e : E)
        → fetched_rows db ≡ x ∷ rest
        → (publish (messages_of to_iso (x ∷ rest)) db.broker).0 ≡ err e
        → Drained db (err e, after_failure (map (to_record to_iso) (x ∷ rest)) db)
    taken :
        (x : OutboxRow V) (rest : List (OutboxRow V))
        → fetched_rows db ≡ x ∷ rest
        → (publish (messages_of to_iso (x ∷ rest)) db.broker).0 ≡ ok tt
        → Drained db (
          ok (length (map (to_record to_iso) (x ∷ rest))),
          after_success (map (to_record to_iso) (x ∷ rest)) db,
        )

  drain-Drained_of :
      (db : OutboxDb V W L) (x : OutboxRow V) (rest : List (OutboxRow V))
      → fetched_rows db ≡ x ∷ rest
      → Drained db (drain db)
  unfolding to_record
  drain-Drained_of db x rest fetched =
      elim (Result-cases (publish (messages_of to_iso (x ∷ rest)) db.broker).0) [
        | inl (done, h) ↦
            subst (Drained db) (sym (drain-fetched db (x ∷ rest) fetched ∙ drain_rows-ok _ _ db h))
              (taken x rest fetched h)
        | inr (e, h) ↦
            subst (Drained db)
              (sym (drain-fetched db (x ∷ rest) fetched ∙ drain_rows-err _ _ db e h))
              (refused x rest e fetched h)
      ]

  pub drain-Drained : (db : OutboxDb V W L) → Drained db (drain db)
  unfolding drain_rows
  drain-Drained db = elim (List-cases (fetched_rows db)) [
    | inl none_left ↦ subst (Drained db) (sym (drain-fetched db [] none_left)) (nothing none_left)
    | inr (x, rest, fetched) ↦ drain-Drained_of db x rest fetched
  ]
