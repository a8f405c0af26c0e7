-- ===== src/Order/Replies/Exactly.antt =====
-- A reply takes effect at most once, however often it is delivered.
use food_delivery_api.Common.{
  ℕ, ◌≡◌, refl, Option, none, ok, err, arith, true, inl, inr, Option-cases, any, any-append_self,
  Bool, ◌==◌, ==_refl,
}
use food_delivery_api.Order.Errors.{OrderError}
use food_delivery_api.Order.Aggregate.{Order}
use food_delivery_api.Order.Saga.{OrderSaga}
use food_delivery_api.Order.Store.{
  OrderDb, OrderAction, saga_at, mark_processed, update_status, save_transition,
}
use food_delivery_api.Order.Replies.{
  Envelope, InventoryReply, PaymentReply, SagaOutcome, execute, apply_inventory,
  apply_inventory_type, apply_payment, apply_payment_type, handle_inventory_reply,
  handle_payment_reply, reserve_order, abandon_order, confirm_order, compensate,
}
use food_delivery_api.Order.Replies.Consistency.{marked}

-- A call that leaves the marks of processed events alone.
abbrev Keeps : {A : Type 0} → OrderAction A → Type 0
Keeps m = (db : OrderDb) → (m db).1.processed_events ≡ db.processed_events

update_status-Keeps : (o : Order) (now : ℕ) → Keeps (update_status o now)
unfolding update_status
update_status-Keeps o now db = ground arith

save_transition-Keeps : (s : OrderSaga) (now : ℕ) → Keeps (save_transition s now)
unfolding save_transition
save_transition-Keeps s now db = ground arith

reserve_order-Keeps :
    (e : Envelope InventoryReply) (i now : ℕ) (s : OrderSaga) → Keeps (reserve_order e i s now)
unfolding reserve_order
reserve_order-Keeps e i now s db = grind (arith, update_status-Keeps, save_transition-Keeps)

abandon_order-Keeps :
    (e : Envelope InventoryReply) (i now : ℕ) (s : OrderSaga) → Keeps (abandon_order e i s now)
unfolding abandon_order
abandon_order-Keeps e i now s db = grind (arith, update_status-Keeps, save_transition-Keeps)

confirm_order-Keeps :
    (e : Envelope PaymentReply) (i now : ℕ) (s : OrderSaga) → Keeps (confirm_order e i s now)
unfolding confirm_order
confirm_order-Keeps e i now s db = grind (arith, update_status-Keeps, save_transition-Keeps)

compensate-Keeps :
    (e : Envelope PaymentReply) (i now : ℕ) (s : OrderSaga) → Keeps (compensate e i s now)
unfolding compensate
compensate-Keeps e i now s db = grind (arith, save_transition-Keeps)

apply_inventory_type-Keeps :
    (type : InventoryReply) (e : Envelope InventoryReply) (i now : ℕ) (s : OrderSaga)
    → Keeps (apply_inventory_type type e i s now)
unfolding apply_inventory_type
apply_inventory_type-Keeps InventoryReply.stock_reserved e i now s db =
    ground (arith, reserve_order-Keeps e i now s db)
apply_inventory_type-Keeps InventoryReply.stock_reservation_failed e i now s db =
    ground (arith, abandon_order-Keeps e i now s db)
apply_inventory_type-Keeps InventoryReply.stock_released e i now s db =
    ground (arith, abandon_order-Keeps e i now s db)
apply_inventory_type-Keeps (InventoryReply.unknown x) e i now s db = refl

apply_payment_type-Keeps :
    (type : PaymentReply) (e : Envelope PaymentReply) (i now : ℕ) (s : OrderSaga)
    → Keeps (apply_payment_type type e i s now)
unfolding apply_payment_type
apply_payment_type-Keeps PaymentReply.payment_succeeded e i now s db =
    confirm_order-Keeps e i now s db
apply_payment_type-Keeps PaymentReply.payment_failed e i now s db = compensate-Keeps e i now s db
apply_payment_type-Keeps (PaymentReply.unknown x) e i now s db = refl

apply_inventory-Keeps : (e : Envelope InventoryReply) (i now : ℕ) → Keeps (apply_inventory e i now)
unfolding apply_inventory
apply_inventory-Keeps e i now db = grind (arith, apply_inventory_type-Keeps)

apply_payment-Keeps : (e : Envelope PaymentReply) (i now : ℕ) → Keeps (apply_payment e i now)
unfolding apply_payment
apply_payment-Keeps e i now db = elim (Option-cases (saga_at e.tenant_id i db)) [
  | inl missing ↦ ground arith
  | inr (s, found) ↦ ground (arith, apply_payment_type-Keeps e.event_type e i now s db)
]

abbrev pub has : OrderDb → ℕ → Bool
has db event = any (λ e. e == event) db.processed_events

-- An event that was processed does nothing more.
execute-processed :
    (event : ℕ) (apply : OrderAction (Option SagaOutcome)) (db : OrderDb)
    → has db event ≡ true
    → execute event apply db ≡ (ok none, db)
unfolding execute mark_processed
execute-processed event apply db h = ground arith

-- What returns leaves its event among the processed.
execute-marks :
    (event : ℕ) (apply : OrderAction (Option SagaOutcome)) (db : OrderDb) (r : Option SagaOutcome)
    → Keeps apply
    → (execute event apply db).0 ≡ ok r
    → has (execute event apply db).1 event ≡ true
unfolding execute mark_processed
execute-marks event apply db r keeps h = ground (
  arith,
  keeps (marked event db),
  any-append_self (λ e. e == event) db.processed_events event (==_refl event),
)

-- Once an inventory reply was handled, a further delivery of it on the store that this left, whatever
-- the clock says, returns without an outcome and changes nothing.
pub handle_inventory_reply_twice :
    (e : Envelope InventoryReply) (i now later : ℕ) (db : OrderDb) (r : Option SagaOutcome)
    → (handle_inventory_reply e i now db).0 ≡ ok r
    → handle_inventory_reply e i later (handle_inventory_reply e i now db).1
      ≡ (ok none, (handle_inventory_reply e i now db).1)
unfolding handle_inventory_reply
handle_inventory_reply_twice e i now later db r h =
    execute-processed e.event_id (apply_inventory e i later) _
      (execute-marks e.event_id (apply_inventory e i now) db r (apply_inventory-Keeps e i now) h)

-- Once a payment reply was handled, every further delivery of it, at any time, returns without an
-- outcome and changes nothing.
pub handle_payment_reply_twice :
    (e : Envelope PaymentReply) (i now later : ℕ) (db : OrderDb) (r : Option SagaOutcome)
    → (handle_payment_reply e i now db).0 ≡ ok r
    → handle_payment_reply e i later (handle_payment_reply e i now db).1
      ≡ (ok none, (handle_payment_reply e i now db).1)
unfolding handle_payment_reply
handle_payment_reply_twice e i now later db r h =
    execute-processed e.event_id (apply_payment e i later) _
      (execute-marks e.event_id (apply_payment e i now) db r (apply_payment-Keeps e i now) h)

execute_atomic :
    (event : ℕ) (apply : OrderAction (Option SagaOutcome)) (db : OrderDb) (x : OrderError)
    → (execute event apply db).0 ≡ err x
    → (execute event apply db).1 ≡ db
unfolding execute mark_processed
execute_atomic event apply db x h = ground arith

-- An inventory reply whose handling throws leaves the store as it was, the mark of its event
-- included, so that the message can be delivered again.
pub handle_inventory_reply_atomic :
    (e : Envelope InventoryReply) (i now : ℕ) (db : OrderDb) (x : OrderError)
    → (handle_inventory_reply e i now db).0 ≡ err x
    → (handle_inventory_reply e i now db).1 ≡ db
unfolding handle_inventory_reply
handle_inventory_reply_atomic e i now db x =
    execute_atomic e.event_id (apply_inventory e i now) db x

-- A payment reply whose handling throws leaves the store as it was, the mark of its event
-- included, so that the message can be delivered again.
pub handle_payment_reply_atomic :
    (e : Envelope PaymentReply) (i now : ℕ) (db : OrderDb) (x : OrderError)
    → (handle_payment_reply e i now db).0 ≡ err x
    → (handle_payment_reply e i now db).1 ≡ db
unfolding handle_payment_reply
handle_payment_reply_atomic e i now db x = execute_atomic e.event_id (apply_payment e i now) db x
