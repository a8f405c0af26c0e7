-- ===== src/Order/Lifecycle/Stranding.antt =====
-- What a user's call on an order does, and what it means for the order's saga.
use food_delivery_api.Common.{
  ℕ, ◌≡◌, ◌⊎◌, some, ok, err, arith, true, false, inl, inr, any, Option-cases, Bool-cases, ◌==◌,
  refl,
}
use food_delivery_api.Common.Table.{find-update_where}
use food_delivery_api.Order.Status.{OrderStatus, allows}
use food_delivery_api.Order.SagaState.{SagaState}
use food_delivery_api.Order.Errors.{order_forbidden, illegal_order_transition}
use food_delivery_api.Order.Aggregate.{Order, is_owned_by, transition_to, cancel, reserve}
use food_delivery_api.Order.Saga.{OrderSaga}
use food_delivery_api.Order.Store.{
  OrderDb, mark_processed, find_by_order_id, order_at, saga_at, is_order, same_order_version,
  set_status,
}
use food_delivery_api.Order.Store.Laws.{order_at_key, update_status-found}
use food_delivery_api.Order.Lifecycle.{
  LifecycleCommand, Cancellation, is_admin, assert_order_ownership, cancel_by_user, confirm_by_user,
}
use food_delivery_api.Order.Replies.{
  Envelope, InventoryReply, execute, stock_reserved, load_order, load_saga, reserve_order,
  apply_inventory_type, apply_inventory, handle_inventory_reply,
}
use food_delivery_api.Order.Replies.Steps.{moved_orders}

-- A caller may act on an order as an admin or as its owner.
abbrev pub MayAct : LifecycleCommand → Order → Type 0
MayAct command o = (is_admin command.roles ≡ true) ⊎ (o.user_id ≡ command.user_id)

-- A call on another user's order, by a caller who is no admin, is refused and writes nothing.
pub cancel_by_user-forbidden :
    (command : LifecycleCommand) (now : ℕ) (db : OrderDb) (o : Order)
    → order_at command.tenant_id command.order_id db ≡ some o
    → ¬ MayAct command o
    → (cancel_by_user command now db ≡ (err (order_forbidden o.id), db))
      × (confirm_by_user command now db ≡ (err (order_forbidden o.id), db))
unfolding cancel_by_user confirm_by_user assert_order_ownership is_owned_by
cancel_by_user-forbidden command now db o found refused =
    elim (Bool-cases (is_admin command.roles)) [
      | inl admin ↦ absurd (refused (inl admin))
      | inr other ↦ (ground (arith, found, other), ground (arith, found, other))
    ]

-- A cancellation by a user who may act on a PENDING or RESERVED order goes through: it moves only
-- that order, to CANCELLED, and asks the inventory to release the order's stock.
pub cancel_by_user-moved :
    (command : LifecycleCommand) (now : ℕ) (db : OrderDb) (o : Order)
    → order_at command.tenant_id command.order_id db ≡ some o
    → MayAct command o
    → allows o.status OrderStatus.cancelled ≡ true
    → cancel_by_user command now db ≡ (
      ok (record {
        saved = set_status (record o { status = OrderStatus.cancelled; updated_at = now }) now o;
        release = record { tenant_id = command.tenant_id; order_id = command.order_id };
      }),
      record db { orders = moved_orders o OrderStatus.cancelled now db },
    )
unfolding cancel_by_user assert_order_ownership is_owned_by cancel transition_to
cancel_by_user-moved command now db o found may allowed =
    let (et, ei) = order_at_key command.tenant_id command.order_id db o found in
    ground (
      arith,
      update_status-found command.tenant_id command.order_id db o
          (record o { status = OrderStatus.cancelled; updated_at = now }) now found et ei refl,
    )

-- A cancellation that went through was of an order that may be cancelled, and moved only that
-- order.
cancel_by_user-ok :
    (command : LifecycleCommand) (now : ℕ) (db db' : OrderDb) (c : Cancellation)
    → cancel_by_user command now db ≡ (ok c, db')
    → (o : Order) × (order_at command.tenant_id command.order_id db ≡ some o)
      × (db' ≡ record db { orders = moved_orders o OrderStatus.cancelled now db })
unfolding cancel_by_user assert_order_ownership is_owned_by cancel transition_to
cancel_by_user-ok command now db db' c h =
    elim (Option-cases (order_at command.tenant_id command.order_id db)) [
      | inl missing ↦ ground (arith, missing)
      | inr (o, found) ↦
          let (et, ei) = order_at_key command.tenant_id command.order_id db o found in
          (
            o,
            found,
            ground (
              arith,
              found,
              update_status-found command.tenant_id command.order_id db o
                  (record o { status = OrderStatus.cancelled; updated_at = now }) now found et ei
                  refl,
            ),
          )
    ]

-- The reply that stock is reserved, for an order that is CANCELLED.
reserved_on_cancelled :
    (e : Envelope InventoryReply) (i now : ℕ) (db : OrderDb) (o : Order) (s : OrderSaga)
    → order_at e.tenant_id i db ≡ some o
    → o.status ≡ OrderStatus.cancelled
    → saga_at e.tenant_id i db ≡ some s
    → s.state ≡ SagaState.started
    → e.event_type ≡ stock_reserved
    → any (λ id. id == e.event_id) db.processed_events ≡ false
    → handle_inventory_reply e i now db
      ≡ (err (illegal_order_transition OrderStatus.cancelled OrderStatus.reserved), db)
unfolding handle_inventory_reply execute mark_processed apply_inventory load_saga find_by_order_id
    apply_inventory_type reserve_order load_order reserve transition_to allows
reserved_on_cancelled e i now db o s ho cancelled_ hs started reserved_ fresh = ground arith

-- Once a user has cancelled an order whose saga is STARTED, the reply that its stock is reserved
-- throws and writes nothing, so that the saga stays STARTED.
pub cancelled_order_strands :
    (command : LifecycleCommand) (now later : ℕ) (e : Envelope InventoryReply) (db db' : OrderDb)
    (c : Cancellation) (s : OrderSaga)
    → cancel_by_user command now db ≡ (ok c, db')
    → saga_at command.tenant_id command.order_id db ≡ some s
    → s.state ≡ SagaState.started
    → e.tenant_id ≡ command.tenant_id
    → e.event_type ≡ stock_reserved
    → any (λ id. id == e.event_id) db.processed_events ≡ false
    → handle_inventory_reply e command.order_id later db'
      ≡ (err (illegal_order_transition OrderStatus.cancelled OrderStatus.reserved), db')
cancelled_order_strands command now later e db db' c s h hs started same_tenant reserved_ fresh =
    let (o, found, written) = cancel_by_user-ok command now db db' c h in
    reserved_on_cancelled e command.order_id later db'
      (set_status (record o { status = OrderStatus.cancelled; updated_at = now }) now o) s
      (ground (
        arith,
        find-update_where (is_order command.tenant_id command.order_id) (same_order_version o)
            (set_status (record o { status = OrderStatus.cancelled; updated_at = now }) now)
            (λ r. refl) db.orders,
      ))
      refl (ground arith) started reserved_ (ground arith)
