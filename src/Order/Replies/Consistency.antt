-- ===== src/Order/Replies/Consistency.antt =====
-- Sagas and orders stay in step.
use food_delivery_api.Common.{
  ℕ, ◌≡◌, ◌⊎◌, ◌++◌, [], ◌∷◌, refl, Option, some, none, err, arith, List, inl, inr, Option-cases,
  find, ap, if◌then◌else◌,
}
use food_delivery_api.Common.Table.{touch, find-update_where}
use food_delivery_api.Order.Status.{OrderStatus}
use food_delivery_api.Order.SagaState.{SagaState}
use food_delivery_api.Order.Errors.{saga_not_found}
use food_delivery_api.Order.Aggregate.{Order}
use food_delivery_api.Order.Saga.{OrderSaga}
use food_delivery_api.Order.Store.{
  OrderDb, OrderAction, mark_processed, order_at, saga_at, is_order, is_saga, same_order_version,
  set_status, same_saga_version, set_state,
}
use food_delivery_api.Order.Store.Laws.{order_at_key, saga_at_key}
use food_delivery_api.Order.Replies.{
  Envelope, InventoryReply, PaymentReply, SagaOutcome, apply_inventory, apply_payment, execute,
  handle_inventory_reply, handle_payment_reply,
}
use food_delivery_api.Order.Replies.Steps.{moved_orders, moved_sagas}
use food_delivery_api.Order.Replies.Effects.{
  expected, inventory_effect, payment_effect, apply_inventory-effect, apply_payment-effect,
}

-- Every saga has its order, in the status that the saga's state stands for.
abbrev Agree : List Order → List OrderSaga → Type 0
Agree orders sagas =
    (t i : ℕ) (s : OrderSaga)
    → find (is_saga t i) sagas ≡ some s
    → (o : Order) × (find (is_order t i) orders ≡ some o) × (o.status ≡ expected s.state)

abbrev pub IsConsistent : OrderDb → Type 0
IsConsistent db = Agree db.orders db.sagas

-- What a lookup of a saga finds after a saga of some version has moved.
find-moved_sagas :
    (s : OrderSaga) (state : SagaState) (event now : ℕ) (db : OrderDb) (t i : ℕ)
    → find (is_saga t i) (moved_sagas s state event now db)
      ≡ touch
          (same_saga_version s)
          (set_state (record s { state = state; last_event_id = some event; updated_at = now }) now)
          (saga_at t i db)
find-moved_sagas s state event now db t i =
    find-update_where (is_saga t i) (same_saga_version s) _ (λ r. refl) db.sagas

module _ (db : OrderDb) (t i : ℕ) (o : Order) (s : OrderSaga) (status : OrderStatus)
    (state : SagaState) (event now : ℕ) (ho : order_at t i db ≡ some o)
    (hs : saga_at t i db ≡ some s) (agree : status ≡ expected state) where
  new_order : Order
  new_order = record o { status = status; updated_at = now }

  new_saga : OrderSaga
  new_saga = record s { state = state; last_event_id = some event; updated_at = now }

  -- The row of a key after the order has moved on.
  after : Order → Order
  after r = if same_order_version o r then set_status new_order now r else r

  agree_after :
      (t' i' : ℕ) (s1 s' : OrderSaga) (o1 : Order)
      → saga_at t' i' db ≡ some s1
      → order_at t' i' db ≡ some o1
      → o1.status ≡ expected s1.state
      → find (is_saga t' i') (moved_sagas s state event now db) ≡ some s'
      → (find (is_order t' i') (moved_orders o status now db) ≡ some (after o1))
        × ((after o1).status ≡ expected s'.state)
  unfolding after new_order new_saga
  agree_after t' i' s1 s' o1 h1 h2 e h = ground (
    arith,
    order_at_key t i db o ho,
    saga_at_key t i db s hs,
    order_at_key t' i' db o1 h2,
    saga_at_key t' i' db s1 h1,
    find-moved_sagas s state event now db t' i',
    find-update_where (is_order t' i') (same_order_version o) (set_status new_order now) (λ r. refl)
        db.orders,
  )

  -- Moving an order and its saga to a status and a state that agree keeps every pair in step.
  moved-Agree :
      IsConsistent db → Agree (moved_orders o status now db) (moved_sagas s state event now db)
  unfolding new_saga
  moved-Agree c t' i' s' h = elim (Option-cases (saga_at t' i' db)) [
    | inl missing ↦ ground (arith, find-moved_sagas s state event now db t' i')
    | inr (s1, h1) ↦
        let (o1, h2, e) = c t' i' s1 h1 in
        let (found, agreed) = agree_after t' i' s1 s' o1 h1 h2 e h in (after o1, found, agreed)
  ]

-- Moving only the saga keeps every pair in step where the new state stands for the same status.
compensated-Agree :
    (db : OrderDb) (t i : ℕ) (s : OrderSaga) (state : SagaState) (event now : ℕ)
    → saga_at t i db ≡ some s
    → expected s.state ≡ expected state
    → IsConsistent db
    → Agree db.orders (moved_sagas s state event now db)
compensated-Agree db t i s state event now hs e c t' i' s' h =
    elim (Option-cases (saga_at t' i' db)) [
      | inl missing ↦ ground (arith, find-moved_sagas s state event now db t' i')
      | inr (s1, h1) ↦
          let (o1, h2, e1) = c t' i' s1 h1 in
          (
            o1,
            h2,
            ground (
              arith,
              saga_at_key t i db s hs,
              saga_at_key t' i' db s1 h1,
              find-moved_sagas s state event now db t' i',
            ),
          )
    ]

module _ (i : ℕ) (o : Order) (s : OrderSaga) (now : ℕ) (db : OrderDb) (c : IsConsistent db) where
  inventory_effect-IsConsistent :
      (type : InventoryReply) (state : SagaState) (e : Envelope InventoryReply)
      → order_at e.tenant_id i db ≡ some o
      → saga_at e.tenant_id i db ≡ some s
      → IsConsistent (inventory_effect i o s now db type state e).1
  inventory_effect-IsConsistent InventoryReply.stock_reserved SagaState.started e ho hs =
      moved-Agree db e.tenant_id i o s _ _ e.event_id now ho hs refl c
  inventory_effect-IsConsistent InventoryReply.stock_reservation_failed SagaState.started e ho hs =
      moved-Agree db e.tenant_id i o s _ _ e.event_id now ho hs refl c
  inventory_effect-IsConsistent InventoryReply.stock_released SagaState.compensating e ho hs =
      moved-Agree db e.tenant_id i o s _ _ e.event_id now ho hs refl c
  inventory_effect-IsConsistent InventoryReply.stock_reserved _ e ho hs = c
  inventory_effect-IsConsistent InventoryReply.stock_reservation_failed _ e ho hs = c
  inventory_effect-IsConsistent InventoryReply.stock_released _ e ho hs = c
  inventory_effect-IsConsistent (InventoryReply.unknown x) _ e ho hs = c

  payment_effect-IsConsistent :
      (type : PaymentReply) (state : SagaState) (e : Envelope PaymentReply)
      → order_at e.tenant_id i db ≡ some o
      → saga_at e.tenant_id i db ≡ some s
      → s.state ≡ state
      → IsConsistent (payment_effect i o s now db type state e).1
  payment_effect-IsConsistent PaymentReply.payment_succeeded SagaState.stock_reserved e ho hs es =
      moved-Agree db e.tenant_id i o s _ _ e.event_id now ho hs refl c
  payment_effect-IsConsistent PaymentReply.payment_failed SagaState.stock_reserved e ho hs es =
      compensated-Agree db e.tenant_id i s _ e.event_id now hs (ap expected es) c
  payment_effect-IsConsistent PaymentReply.payment_succeeded _ e ho hs es = c
  payment_effect-IsConsistent PaymentReply.payment_failed _ e ho hs es = c
  payment_effect-IsConsistent (PaymentReply.unknown x) SagaState.started e ho hs es = c
  payment_effect-IsConsistent (PaymentReply.unknown x) _ e ho hs es = c

apply_inventory-missing :
    (e : Envelope InventoryReply) (i now : ℕ) (db : OrderDb)
    → saga_at e.tenant_id i db ≡ none
    → apply_inventory e i now db ≡ (err (saga_not_found i), db)
unfolding apply_inventory
apply_inventory-missing e i now db h = ground arith

apply_payment-missing :
    (e : Envelope PaymentReply) (i now : ℕ) (db : OrderDb)
    → saga_at e.tenant_id i db ≡ none
    → apply_payment e i now db ≡ (err (saga_not_found i), db)
unfolding apply_payment
apply_payment-missing e i now db h = ground arith

apply_inventory-IsConsistent :
    (e : Envelope InventoryReply) (i now : ℕ) (db : OrderDb)
    → IsConsistent db
    → IsConsistent (apply_inventory e i now db).1
apply_inventory-IsConsistent e i now db c = elim (Option-cases (saga_at e.tenant_id i db)) [
  | inl missing ↦ rw (apply_inventory-missing e i now db missing) c
  | inr (s, hs) ↦
      let (o, ho, agree) = c e.tenant_id i s hs in
      rw (apply_inventory-effect i o s now db e ho hs agree)
        (inventory_effect-IsConsistent i o s now db c e.event_type s.state e ho hs)
]

apply_payment-IsConsistent :
    (e : Envelope PaymentReply) (i now : ℕ) (db : OrderDb)
    → IsConsistent db
    → IsConsistent (apply_payment e i now db).1
apply_payment-IsConsistent e i now db c = elim (Option-cases (saga_at e.tenant_id i db)) [
  | inl missing ↦ rw (apply_payment-missing e i now db missing) c
  | inr (s, hs) ↦
      let (o, ho, agree) = c e.tenant_id i s hs in
      rw (apply_payment-effect i o s now db e ho hs agree)
        (payment_effect-IsConsistent i o s now db c e.event_type s.state e ho hs refl)
]

-- The store behind the mark of an event.
abbrev pub marked : ℕ → OrderDb → OrderDb
marked event db = record db { processed_events = db.processed_events ++ event ∷ [] }

-- After `execute` the store is the old one, or what `apply` made of it behind the mark.
execute-cases :
    (event : ℕ) (apply : OrderAction (Option SagaOutcome)) (db : OrderDb)
    → ((execute event apply db).1 ≡ db) ⊎ ((execute event apply db).1 ≡ (apply (marked event db)).1)
unfolding execute mark_processed
execute-cases event apply db = ground arith

-- An inventory reply, whether its handling returns or throws, keeps every saga in step with its order:
-- the order is there, in the status that the saga's state stands for.
pub handle_inventory_reply-IsConsistent :
    (e : Envelope InventoryReply) (i now : ℕ) (db : OrderDb)
    → IsConsistent db
    → IsConsistent (handle_inventory_reply e i now db).1
unfolding handle_inventory_reply
handle_inventory_reply-IsConsistent e i now db c =
    elim (execute-cases e.event_id (apply_inventory e i now) db) [
      | inl kept ↦ rw kept c
      | inr applied ↦ rw applied (apply_inventory-IsConsistent e i now (marked e.event_id db) c)
    ]

-- A payment reply, whether its handling returns or throws, keeps every saga in step with its order:
-- the order is there, in the status that the saga's state stands for.
pub handle_payment_reply-IsConsistent :
    (e : Envelope PaymentReply) (i now : ℕ) (db : OrderDb)
    → IsConsistent db
    → IsConsistent (handle_payment_reply e i now db).1
unfolding handle_payment_reply
handle_payment_reply-IsConsistent e i now db c =
    elim (execute-cases e.event_id (apply_payment e i now) db) [
      | inl kept ↦ rw kept c
      | inr applied ↦ rw applied (apply_payment-IsConsistent e i now (marked e.event_id db) c)
    ]
