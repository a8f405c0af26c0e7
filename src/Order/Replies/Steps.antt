-- ===== src/Order/Replies/Steps.antt =====
-- What each reply does to a saga and its order, branch by branch.
use food_delivery_api.Common.{ℕ, ◌+◌, ◌≡◌, refl, ◌++◌, [], ◌∷◌, List, some, none, ok, arith, true}
use food_delivery_api.Common.Table.{update_where}
use food_delivery_api.Order.Status.{OrderStatus, allows}
use food_delivery_api.Order.SagaState.{SagaState}
use food_delivery_api.Order.Aggregate.{Order}
use food_delivery_api.Order.Saga.{OrderSaga, can_transition_to, transition}
use food_delivery_api.Order.Commands.{
  OutboxCommandEntry, charge_payment_command, order_cancelled_event, order_confirmed_event,
  release_stock_command,
}
use food_delivery_api.Order.Store.{
  OrderDb, OutboxRow, order_at, saga_at, same_order_version, set_status, same_saga_version,
  set_state, update_status, save_transition,
}
use food_delivery_api.Order.Store.Laws.{
  order_at_key, saga_at_key, update_status-found, save_transition-found,
}
use food_delivery_api.Order.Replies.{
  Envelope, InventoryReply, PaymentReply, SagaOutcome, reserve_order, abandon_order, confirm_order,
  compensate,
}

-- The rows after an order of a version took a status, and a saga of a version a state.
abbrev pub moved_orders : Order → OrderStatus → ℕ → OrderDb → List Order
moved_orders o status now db =
    update_where (same_order_version o)
      (set_status (record o { status = status; updated_at = now }) now) db.orders

abbrev pub moved_sagas : OrderSaga → SagaState → ℕ → ℕ → OrderDb → List OrderSaga
moved_sagas s state event now db =
    update_where (same_saga_version s)
      (set_state (record s { state = state; last_event_id = some event; updated_at = now }) now)
      db.sagas

abbrev pub queued : ℕ → OutboxCommandEntry → OrderDb → List OutboxRow
queued tenant_id entry db = db.outbox ++ record { tenant_id = tenant_id; entry = entry } ∷ []

-- The store after an order and its saga have moved on together, with one more row in the outbox.
abbrev pub moved :
    Order → OrderStatus → OrderSaga → SagaState → ℕ → ℕ → ℕ → OutboxCommandEntry → OrderDb → OrderDb
moved o status s state event now tenant_id entry db = record db {
  orders = moved_orders o status now db;
  sagas = moved_sagas s state event now db;
  outbox = queued tenant_id entry db;
}

module _ (db : OrderDb) (i : ℕ) (o : Order) (s : OrderSaga) where
  update_status-here :
      (t : ℕ) (status : OrderStatus) (now : ℕ)
      → order_at t i db ≡ some o
      → update_status (record o { status = status; updated_at = now }) now db ≡ (
        ok (set_status (record o { status = status; updated_at = now }) now o),
        record db { orders = moved_orders o status now db },
      )
  update_status-here t status now order_found =
      let (et, ei) = order_at_key t i db o order_found in
      update_status-found t i db o (record o { status = status; updated_at = now }) now order_found
        et ei refl

  save_transition-here :
      (t : ℕ) (rows : List Order) (state : SagaState) (event now : ℕ)
      → saga_at t i db ≡ some s
      → let s' : OrderSaga = record s {
        state = state;
        last_event_id = some event;
        updated_at = now;
      } in
        save_transition s' now (record db { orders = rows }) ≡ (
          ok (record s' { version = s.version + 1; updated_at = now }),
          record db { orders = rows; sagas = moved_sagas s state event now db },
        )
  save_transition-here t rows state event now saga_found =
      let (et, ei) = saga_at_key t i db s saga_found in
      save_transition-found t i (record db { orders = rows }) s
        (record s { state = state; last_event_id = some event; updated_at = now }) now saga_found et
        ei refl

  -- The order is reserved, the saga records it, and the charge of the order's total is queued.
  pub reserve_order-moved :
      (e : Envelope InventoryReply) (now : ℕ)
      → order_at e.tenant_id i db ≡ some o
      → saga_at e.tenant_id i db ≡ some s
      → allows o.status OrderStatus.reserved ≡ true
      → can_transition_to s SagaState.stock_reserved ≡ true
      → reserve_order e i s now db ≡ (
        ok none,
        moved o OrderStatus.reserved s SagaState.stock_reserved e.event_id now e.tenant_id
            (charge_payment_command i o.total_cents e.correlation_id)
            db,
      )
  unfolding reserve_order transition
  reserve_order-moved e now order_found saga_found lo ls = ground (
    arith,
    update_status-here e.tenant_id OrderStatus.reserved now order_found,
    save_transition-here e.tenant_id (moved_orders o OrderStatus.reserved now db)
        SagaState.stock_reserved e.event_id now saga_found,
  )

  -- Order and saga are cancelled, and the event that tells so is queued.
  pub abandon_order-moved :
      (e : Envelope InventoryReply) (now : ℕ)
      → order_at e.tenant_id i db ≡ some o
      → saga_at e.tenant_id i db ≡ some s
      → allows o.status OrderStatus.cancelled ≡ true
      → can_transition_to s SagaState.cancelled ≡ true
      → abandon_order e i s now db ≡ (
        ok (some SagaOutcome.cancelled),
        moved o OrderStatus.cancelled s SagaState.cancelled e.event_id now e.tenant_id
            (order_cancelled_event i o.user_id o.total_cents e.correlation_id)
            db,
      )
  unfolding abandon_order transition
  abandon_order-moved e now order_found saga_found lo ls = ground (
    arith,
    order_at_key e.tenant_id i db o order_found,
    update_status-here e.tenant_id OrderStatus.cancelled now order_found,
    save_transition-here e.tenant_id (moved_orders o OrderStatus.cancelled now db)
        SagaState.cancelled e.event_id now saga_found,
  )

  -- The order is confirmed, the saga completed, and the event that tells so is queued.
  pub confirm_order-moved :
      (e : Envelope PaymentReply) (now : ℕ)
      → order_at e.tenant_id i db ≡ some o
      → saga_at e.tenant_id i db ≡ some s
      → allows o.status OrderStatus.confirmed ≡ true
      → can_transition_to s SagaState.completed ≡ true
      → confirm_order e i s now db ≡ (
        ok (some SagaOutcome.confirmed),
        moved o OrderStatus.confirmed s SagaState.completed e.event_id now e.tenant_id
            (order_confirmed_event i o.user_id o.restaurant_id o.total_cents e.correlation_id)
            db,
      )
  unfolding confirm_order transition
  confirm_order-moved e now order_found saga_found lo ls = ground (
    arith,
    update_status-here e.tenant_id OrderStatus.confirmed now order_found,
    save_transition-here e.tenant_id (moved_orders o OrderStatus.confirmed now db)
        SagaState.completed e.event_id now saga_found,
  )

  -- Only the saga moves, and the release of the stock is queued.
  pub compensate-moved :
      (e : Envelope PaymentReply) (now : ℕ)
      → saga_at e.tenant_id i db ≡ some s
      → can_transition_to s SagaState.compensating ≡ true
      → compensate e i s now db ≡ (
        ok none,
        record db {
          sagas = moved_sagas s SagaState.compensating e.event_id now db;
          outbox = queued e.tenant_id (release_stock_command i e.correlation_id) db;
        },
      )
  unfolding compensate transition
  compensate-moved e now saga_found ls = ground (
    arith,
    save_transition-here e.tenant_id db.orders SagaState.compensating e.event_id now saga_found,
  )
