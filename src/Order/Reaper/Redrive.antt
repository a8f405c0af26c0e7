-- ===== src/Order/Reaper/Redrive.antt =====
-- What the sweep writes for a stranded saga, and that it keeps sagas and orders in step.
use food_delivery_api.Common.{
  ℕ, ◌+◌, ◌<◌, ◌≡◌, ◌⊎◌, ◌++◌, [], ◌∷◌, List, some, Result, ok, err, arith, inl, inr, find, any,
  Option-cases, Bool-cases, Result-cases, refl, subst, sym, ap, map, keep, ltb, ◌&&◌,
}
use food_delivery_api.Common.Table.{update_where, touch, find-update_where}
use food_delivery_api.Order.SagaState.{SagaState}
use food_delivery_api.Order.Errors.{OrderError}
use food_delivery_api.Order.Aggregate.{Order}
use food_delivery_api.Order.Saga.{OrderSaga, StrandedSagaCandidate, select_stranded_sagas}
use food_delivery_api.Order.Commands.{
  OutboxCommandEntry, reserve_stock_command, charge_payment_command, release_stock_command,
  reserve_items,
}
use food_delivery_api.Order.Store.{
  OrderDb, order_at, saga_at, is_saga, in_expected_state, candidate_of, is_non_terminal,
}
use food_delivery_api.Order.Reaper.{
  ReaperSettings, Recovery, ReconcileAction, redrive, escalate, redriven, correlation_or,
  recover_one, recover_saga, recover_order, act, recover_all, reconcile, decide_reconcile_action,
  redrive_for,
}
use food_delivery_api.Order.Replies.Consistency.{IsConsistent}

-- The rows after an attempt on the sagas of an order in a state was counted.
abbrev pub counted : ℕ → SagaState → ℕ → OrderDb → List OrderSaga
counted i state now db =
    update_where (in_expected_state i state)
      (λ row. record row { attempts = row.attempts + 1; updated_at = now }) db.sagas

-- The command that a saga in a state waits for the answer to.
pub data AwaitedBy (s : OrderSaga) (o : Order) (id : ℕ) : OutboxCommandEntry → Type 0 where
  reservation :
      s.state ≡ SagaState.started
      → AwaitedBy s o id (reserve_stock_command s.order_id (reserve_items o.items) id)
  charge :
      s.state ≡ SagaState.stock_reserved
      → AwaitedBy s o id (charge_payment_command s.order_id o.total_cents id)
  release :
      s.state ≡ SagaState.compensating → AwaitedBy s o id (release_stock_command s.order_id id)

-- A run for a candidate queued the command and counted the attempt.
pub record IsRedriven (settings : ReaperSettings) (minted : ℕ) (candidate : StrandedSagaCandidate)
    (now : ℕ) (db db' : OrderDb) : Type 0 where
  saga : OrderSaga
  order : Order
  command : OutboxCommandEntry
  saga_found : saga_at candidate.tenant_id candidate.order_id db ≡ some saga
  order_found : order_at candidate.tenant_id candidate.order_id db ≡ some order
  below_maximum : saga.attempts < settings.max_attempts
  awaited : AwaitedBy saga order (correlation_or saga.correlation_id minted) command
  written : db' ≡ record db {
    sagas = counted candidate.order_id saga.state now db;
    outbox = db.outbox ++ record { tenant_id = candidate.tenant_id; entry = command } ∷ [];
  }

redrive_for-AwaitedBy :
    (state : SagaState) (s : OrderSaga) (o : Order) (id : ℕ) (command : OutboxCommandEntry)
    → s.state ≡ state
    → redrive_for state s.order_id o id ≡ ok (redrive command)
    → AwaitedBy s o id command
unfolding redrive_for
redrive_for-AwaitedBy SagaState.started s o id command e h =
    subst (AwaitedBy s o id) (ground arith) (reservation e)
redrive_for-AwaitedBy SagaState.stock_reserved s o id command e h =
    subst (AwaitedBy s o id) (ground arith) (charge e)
redrive_for-AwaitedBy SagaState.compensating s o id command e h =
    subst (AwaitedBy s o id) (ground arith) (release e)
redrive_for-AwaitedBy SagaState.completed s o id command e h = ground arith
redrive_for-AwaitedBy SagaState.cancelled s o id command e h = ground arith

decide_reconcile_action-AwaitedBy :
    (s : OrderSaga) (o : Order) (maximum minted : ℕ) (command : OutboxCommandEntry)
    → decide_reconcile_action s o maximum minted ≡ ok (redrive command)
    → (s.attempts < maximum) × AwaitedBy s o (correlation_or s.correlation_id minted) command
unfolding decide_reconcile_action
decide_reconcile_action-AwaitedBy s o maximum minted command h = (
  ground arith,
  redrive_for-AwaitedBy s.state s o (correlation_or s.correlation_id minted) command refl
      (ground arith),
)

-- The candidate's saga and order are there, and a command is decided on.
module _ (settings : ReaperSettings) (minted : ℕ) (candidate : StrandedSagaCandidate) (now : ℕ)
    (db db' : OrderDb) (recovery : Recovery)
    (h : recover_one settings minted candidate now db ≡ (ok recovery, db')) where
  redriven-cases :
      (s : OrderSaga) (o : Order) (command : OutboxCommandEntry)
      → saga_at candidate.tenant_id candidate.order_id db ≡ some s
      → order_at candidate.tenant_id candidate.order_id db ≡ some o
      → decide_reconcile_action s o settings.max_attempts minted ≡ ok (redrive command)
      → (db' ≡ db) ⊎ ((recovery ≡ redriven) × IsRedriven settings minted candidate now db db')
  unfolding recover_one
  redriven-cases s o command hs ho decided =
      elim (Bool-cases (any (in_expected_state candidate.order_id s.state) db.sagas)) [
        | inr none_left ↦ inl (ground (arith, hs, ho, decided, none_left))
        | inl some_left ↦
            let (below, awaited) =
              decide_reconcile_action-AwaitedBy s o settings.max_attempts minted command decided in
            inr (
              ground (arith, hs, ho, decided, some_left),
              record {
                saga = s;
                order = o;
                command = command;
                saga_found = hs;
                order_found = ho;
                below_maximum = below;
                awaited = awaited;
                written = ground (arith, hs, ho, decided, some_left);
              },
            )
      ]

  action-cases :
      (s : OrderSaga) (o : Order) (decided : Result OrderError ReconcileAction)
      → saga_at candidate.tenant_id candidate.order_id db ≡ some s
      → order_at candidate.tenant_id candidate.order_id db ≡ some o
      → decide_reconcile_action s o settings.max_attempts minted ≡ decided
      → (db' ≡ db) ⊎ ((recovery ≡ redriven) × IsRedriven settings minted candidate now db db')
  unfolding recover_one
  action-cases s o (ok (redrive command)) hs ho e = redriven-cases s o command hs ho e
  action-cases s o (ok escalate) hs ho e = inl (ground (arith, hs, ho, e))
  action-cases s o (err bad) hs ho e = inl (ground (arith, hs, ho, e))

-- A run for a candidate never throws.
recover_one-returns :
    (settings : ReaperSettings) (minted : ℕ) (candidate : StrandedSagaCandidate) (now : ℕ)
    (db : OrderDb)
    → (recovery : Recovery) × ((recover_one settings minted candidate now db).0 ≡ ok recovery)
unfolding recover_one recover_saga recover_order act
recover_one-returns settings minted candidate now db =
    elim (Result-cases (recover_one settings minted candidate now db).0) [
      | inl found ↦ found
      | inr (bad, e) ↦ ground (arith, e)
    ]

-- A run for a candidate that returned wrote nothing, or it reports a redrive: the saga had
-- attempts left, one attempt was counted, and the one command queued is the one that the saga's
-- state waits for an answer to.
pub recover_one-redrives :
    (settings : ReaperSettings) (minted : ℕ) (candidate : StrandedSagaCandidate) (now : ℕ)
    (db db' : OrderDb) (recovery : Recovery)
    → recover_one settings minted candidate now db ≡ (ok recovery, db')
    → (db' ≡ db) ⊎ ((recovery ≡ redriven) × IsRedriven settings minted candidate now db db')
unfolding recover_one recover_saga recover_order act
recover_one-redrives settings minted candidate now db db' recovery h =
    elim (Option-cases (saga_at candidate.tenant_id candidate.order_id db)) [
      | inl no_saga ↦ inl (ground (arith, no_saga))
      | inr (s, hs) ↦ elim (Option-cases (order_at candidate.tenant_id candidate.order_id db)) [
        | inl no_order ↦ inl (ground (arith, hs, no_order))
        | inr (o, ho) ↦
            action-cases settings minted candidate now db db' recovery h s o
              (decide_reconcile_action s o settings.max_attempts minted) hs ho refl
      ]
    ]

find-counted :
    (i : ℕ) (state : SagaState) (now : ℕ) (db : OrderDb) (t' i' : ℕ)
    → find (is_saga t' i') (counted i state now db)
      ≡ touch
          (in_expected_state i state)
          (λ row. record row { attempts = row.attempts + 1; updated_at = now })
          (saga_at t' i' db)
find-counted i state now db t' i' =
    find-update_where (is_saga t' i') (in_expected_state i state) _ (λ r. refl) db.sagas

counted-IsConsistent :
    (i : ℕ) (state : SagaState) (now : ℕ) (db : OrderDb)
    → IsConsistent db
    → IsConsistent (record db { sagas = counted i state now db })
counted-IsConsistent i state now db c t' i' s' h = elim (Option-cases (saga_at t' i' db)) [
  | inl missing ↦ ground (arith, find-counted i state now db t' i')
  | inr (s1, h1) ↦
      let (o, found, agreed) = c t' i' s1 h1 in
      (o, found, ground (arith, find-counted i state now db t' i'))
]

recover_one-IsConsistent :
    (settings : ReaperSettings) (minted : ℕ) (candidate : StrandedSagaCandidate) (now : ℕ)
    (db db' : OrderDb) (recovery : Recovery)
    → recover_one settings minted candidate now db ≡ (ok recovery, db')
    → IsConsistent db
    → IsConsistent db'
recover_one-IsConsistent settings minted candidate now db db' recovery h c =
    elim (recover_one-redrives settings minted candidate now db db' recovery h) [
      | inl same ↦ subst IsConsistent (sym same) c
      | inr (_, run) ↦
          subst IsConsistent (sym run.written)
            (counted-IsConsistent candidate.order_id run.saga.state now db c)
    ]

-- The rounds of the loop follow one another, since none of them throws.
recover_all-next :
    (settings : ReaperSettings) (mint : ℕ → ℕ) (candidate : StrandedSagaCandidate)
    (stranded : List StrandedSagaCandidate) (now : ℕ) (db : OrderDb)
    → (recover_all settings mint (candidate ∷ stranded) now db).1
      ≡ (recover_all settings mint stranded now
          (recover_one settings (mint candidate.order_id) candidate now db).1).1
unfolding recover_all
recover_all-next settings mint candidate stranded now db =
    let (recovery, returned) =
      recover_one-returns settings (mint candidate.order_id) candidate now db in
    elim (Result-cases
      (recover_all settings mint stranded now
        (recover_one settings (mint candidate.order_id) candidate now db).1).0) [
          | inl (rest, e) ↦ ground (arith, returned, e)
          | inr (bad, e) ↦ ground (arith, returned, e)
        ]

recover_all-IsConsistent :
    (settings : ReaperSettings) (mint : ℕ → ℕ) (stranded : List StrandedSagaCandidate) (now : ℕ)
    (db : OrderDb)
    → IsConsistent db
    → IsConsistent (recover_all settings mint stranded now db).1
unfolding recover_all
recover_all-IsConsistent settings mint [] now db c = c
recover_all-IsConsistent settings mint (candidate ∷ stranded) now db c =
    let minted = mint candidate.order_id in
    let db' = (recover_one settings minted candidate now db).1 in
    let (recovery, returned) = recover_one-returns settings minted candidate now db in
    let kept = recover_all-IsConsistent settings mint stranded now db' (
      recover_one-IsConsistent settings minted candidate now db db' recovery
        (ap (λ r. (r, db')) returned) c) in
    subst IsConsistent (sym (recover_all-next settings mint candidate stranded now db)) kept

-- A sweep over the stranded sagas keeps every saga in step with its order.
pub reconcile-IsConsistent :
    (settings : ReaperSettings) (mint : ℕ → ℕ) (now : ℕ) (db : OrderDb)
    → IsConsistent db
    → IsConsistent (reconcile settings mint now db).1
unfolding reconcile
reconcile-IsConsistent settings mint now db c =
    recover_all-IsConsistent settings mint
      (select_stranded_sagas
        (map candidate_of (
          keep (λ row. is_non_terminal row.state && ltb (row.updated_at + settings.timeout_ms) now)
            db.sagas))
        now settings.timeout_ms)
      now db c
