-- ===== src/Order/Replies/Effects.antt =====
-- The saga's transition table as one function of the reply and the state, and the handlers' bodies
-- against it.
use food_delivery_api.Common.{ℕ, ◌≡◌, refl, Option, some, none, Result, ok, arith, false}
use food_delivery_api.Order.Status.{OrderStatus, allows}
use food_delivery_api.Order.SagaState.{SagaState, state_eq}
use food_delivery_api.Order.Errors.{OrderError}
use food_delivery_api.Order.Aggregate.{Order}
use food_delivery_api.Order.Saga.{OrderSaga, can_transition_to}
use food_delivery_api.Order.Commands.{
  charge_payment_command, order_cancelled_event, order_confirmed_event, release_stock_command,
}
use food_delivery_api.Order.Store.{OrderDb, order_at, saga_at}
use food_delivery_api.Order.Replies.{
  Envelope, InventoryReply, PaymentReply, SagaOutcome, apply_inventory, apply_inventory_type,
  apply_payment, apply_payment_type,
}
use food_delivery_api.Order.Replies.Steps.{
  moved, moved_sagas, queued, reserve_order-moved, abandon_order-moved, confirm_order-moved,
  compensate-moved,
}

-- The status of an order whose saga is in a state.
abbrev pub expected : SagaState → OrderStatus
expected SagaState.started = OrderStatus.pending
expected SagaState.stock_reserved = OrderStatus.reserved
expected SagaState.compensating = OrderStatus.reserved
expected SagaState.completed = OrderStatus.confirmed
expected SagaState.cancelled = OrderStatus.cancelled

module _ (i : ℕ) (o : Order) (s : OrderSaga) (now : ℕ) (db : OrderDb) where
  -- A reply that does not fit the saga's state changes nothing.
  abbrev pub inventory_effect :
      InventoryReply
      → SagaState
      → Envelope InventoryReply
      → Result OrderError (Option SagaOutcome) × OrderDb
  inventory_effect InventoryReply.stock_reserved SagaState.started e = (
    ok none,
    moved o OrderStatus.reserved s SagaState.stock_reserved e.event_id now e.tenant_id
        (charge_payment_command i o.total_cents e.correlation_id) db,
  )
  inventory_effect InventoryReply.stock_reservation_failed SagaState.started e = (
    ok (some SagaOutcome.cancelled),
    moved o OrderStatus.cancelled s SagaState.cancelled e.event_id now e.tenant_id
        (order_cancelled_event i o.user_id o.total_cents e.correlation_id) db,
  )
  inventory_effect InventoryReply.stock_released SagaState.compensating e = (
    ok (some SagaOutcome.cancelled),
    moved o OrderStatus.cancelled s SagaState.cancelled e.event_id now e.tenant_id
        (order_cancelled_event i o.user_id o.total_cents e.correlation_id) db,
  )
  inventory_effect _ _ e = (ok none, db)

  abbrev pub payment_effect :
      PaymentReply
      → SagaState
      → Envelope PaymentReply
      → Result OrderError (Option SagaOutcome) × OrderDb
  payment_effect PaymentReply.payment_succeeded SagaState.stock_reserved e = (
    ok (some SagaOutcome.confirmed),
    moved o OrderStatus.confirmed s SagaState.completed e.event_id now e.tenant_id
        (order_confirmed_event i o.user_id o.restaurant_id o.total_cents e.correlation_id) db,
  )
  payment_effect PaymentReply.payment_failed SagaState.stock_reserved e = (
    ok none,
    record db {
      sagas = moved_sagas s SagaState.compensating e.event_id now db;
      outbox = queued e.tenant_id (release_stock_command i e.correlation_id) db;
    },
  )
  payment_effect _ _ e = (ok none, db)

  apply_inventory_type-effect :
      (type : InventoryReply) (state : SagaState) (e : Envelope InventoryReply)
      → order_at e.tenant_id i db ≡ some o
      → saga_at e.tenant_id i db ≡ some s
      → s.state ≡ state
      → o.status ≡ expected state
      → apply_inventory_type type e i s now db ≡ inventory_effect type state e
  unfolding apply_inventory_type allows can_transition_to
  apply_inventory_type-effect InventoryReply.stock_reserved SagaState.started e ho hs es eo =
      ground (arith, reserve_order-moved db i o s e now ho hs)
  apply_inventory_type-effect InventoryReply.stock_reserved _ e ho hs es eo = ground arith
  apply_inventory_type-effect InventoryReply.stock_reservation_failed SagaState.started e ho hs es
        eo =
      ground (arith, abandon_order-moved db i o s e now ho hs)
  apply_inventory_type-effect InventoryReply.stock_reservation_failed _ e ho hs es eo = ground arith
  apply_inventory_type-effect InventoryReply.stock_released SagaState.compensating e ho hs es eo =
      ground (arith, abandon_order-moved db i o s e now ho hs)
  apply_inventory_type-effect InventoryReply.stock_released _ e ho hs es eo = ground arith
  apply_inventory_type-effect (InventoryReply.unknown x) SagaState.started e ho hs es eo = refl
  apply_inventory_type-effect (InventoryReply.unknown x) _ e ho hs es eo = refl

  apply_payment_type-effect :
      (type : PaymentReply) (e : Envelope PaymentReply)
      → order_at e.tenant_id i db ≡ some o
      → saga_at e.tenant_id i db ≡ some s
      → s.state ≡ SagaState.stock_reserved
      → o.status ≡ OrderStatus.reserved
      → apply_payment_type type e i s now db ≡ payment_effect type SagaState.stock_reserved e
  unfolding apply_payment_type allows can_transition_to
  apply_payment_type-effect PaymentReply.payment_succeeded e ho hs es eo =
      ground (arith, confirm_order-moved db i o s e now ho hs)
  apply_payment_type-effect PaymentReply.payment_failed e ho hs es eo =
      ground (arith, compensate-moved db i o s e now hs)
  apply_payment_type-effect (PaymentReply.unknown x) e ho hs es eo = refl

  payment_idle :
      (type : PaymentReply) (state : SagaState) (e : Envelope PaymentReply)
      → state_eq state SagaState.stock_reserved ≡ false
      → payment_effect type state e ≡ (ok none, db)
  payment_idle PaymentReply.payment_succeeded SagaState.stock_reserved e h = ground arith
  payment_idle PaymentReply.payment_succeeded _ e h = refl
  payment_idle PaymentReply.payment_failed SagaState.stock_reserved e h = ground arith
  payment_idle PaymentReply.payment_failed _ e h = refl
  payment_idle (PaymentReply.unknown x) SagaState.started e h = refl
  payment_idle (PaymentReply.unknown x) _ e h = refl

  -- Where saga and order agree, an inventory reply does what the table says, and never throws.
  pub apply_inventory-effect :
      (e : Envelope InventoryReply)
      → order_at e.tenant_id i db ≡ some o
      → saga_at e.tenant_id i db ≡ some s
      → o.status ≡ expected s.state
      → apply_inventory e i now db ≡ inventory_effect e.event_type s.state e
  unfolding apply_inventory
  apply_inventory-effect e ho hs eo =
      ground (arith, apply_inventory_type-effect e.event_type s.state e ho hs refl eo)

  -- Where saga and order agree, a payment reply does what the table says, and never throws.
  pub apply_payment-effect :
      (e : Envelope PaymentReply)
      → order_at e.tenant_id i db ≡ some o
      → saga_at e.tenant_id i db ≡ some s
      → o.status ≡ expected s.state
      → apply_payment e i now db ≡ payment_effect e.event_type s.state e
  unfolding apply_payment
  apply_payment-effect e ho hs eo =
      ground
        (arith, payment_idle e.event_type s.state e, apply_payment_type-effect e.event_type e ho hs)
