-- ===== src/Order/Place/New.antt =====
-- The transaction of a new order: what it writes, and that sagas and orders stay in step.
use food_delivery_api.Common.{
  ℕ, ◌≡◌, ◌++◌, [], ◌∷◌, some, none, ok, arith, inl, inr, find, Result-cases, Option-cases, sym,
  ◌∙◌, subst,
}
use food_delivery_api.Common.Table.{find-append, find-append_none}
use food_delivery_api.Order.Status.{OrderStatus}
use food_delivery_api.Order.SagaState.{SagaState}
use food_delivery_api.Order.Aggregate.{Order, CreateOrderProps}
use food_delivery_api.Order.Aggregate.Pricing.{create-IsPriced}
use food_delivery_api.Order.Saga.{OrderSaga, start}
use food_delivery_api.Order.Commands.{reserve_stock_command, reserve_items}
use food_delivery_api.Order.Store.{OrderDb, IdempotencyKey, OutboxRow, order_at, is_order, is_saga}
use food_delivery_api.Order.Menu.{PlaceOrderCommand, build_order_items, pending_order}
use food_delivery_api.Order.Place.{Outside}
use food_delivery_api.Order.Replies.Effects.{expected}
use food_delivery_api.Order.Replies.Consistency.{IsConsistent}

-- The rows that a new order adds.
abbrev pub order_row_of : Order → ℕ → Order
order_row_of pending now = record pending { version = 1; created_at = now; updated_at = now }

abbrev pub saga_row_of : Outside → PlaceOrderCommand → ℕ → OrderSaga
unfolding start
saga_row_of outside c now =
    record (start
      (record {
        order_id = outside.order_id;
        tenant_id = c.tenant_id;
        correlation_id = some outside.correlation_id;
      })
      now) { created_at = now; updated_at = now }

abbrev pub key_row_of : Outside → PlaceOrderCommand → IdempotencyKey
key_row_of outside c = record {
  tenant_id = c.tenant_id;
  user_id = c.user_id;
  key = c.idempotency_key;
  order_id = outside.order_id;
}

abbrev pub outbox_row_of : Outside → PlaceOrderCommand → Order → OutboxRow
unfolding reserve_stock_command
outbox_row_of outside c pending = record {
  tenant_id = c.tenant_id;
  entry =
      reserve_stock_command outside.order_id (reserve_items pending.items) outside.correlation_id;
}

abbrev pub with_new : Outside → PlaceOrderCommand → Order → ℕ → OrderDb → OrderDb
with_new outside c pending now db = record db {
  orders = db.orders ++ order_row_of pending now ∷ [];
  sagas = db.sagas ++ saga_row_of outside c now ∷ [];
  idempotency_keys = db.idempotency_keys ++ key_row_of outside c ∷ [];
  outbox = db.outbox ++ outbox_row_of outside c pending ∷ [];
}

-- The order that a command builds is PENDING, and has the command's tenant and the fresh id.
pub pending_order-key :
    (outside : Outside) (c : PlaceOrderCommand) (now : ℕ) (o : Order)
    → pending_order outside.gateways c outside.order_id now ≡ ok o
    → (o.id ≡ outside.order_id) × (o.tenant_id ≡ c.tenant_id) × (o.status ≡ OrderStatus.pending)
unfolding pending_order
pending_order-key outside c now o h = elim (Result-cases (build_order_items outside.gateways c)) [
  | inl (built, e) ↦
      let props : CreateOrderProps = record {
        id = outside.order_id;
        tenant_id = c.tenant_id;
        user_id = c.user_id;
        restaurant_id = built.restaurant_id;
        items = built.items;
        pricing = outside.gateways.resolve_pricing c.tenant_id;
      } in
      let (made, _) = create-IsPriced props now o (ground (arith, e)) in
      (made.same_id, made.same_tenant, made.is_pending)
  | inr (bad, e) ↦ ground (arith, e)
]

module _ (outside : Outside) (c : PlaceOrderCommand) (now : ℕ) (pending : Order) (db : OrderDb)
    (same_id : pending.id ≡ outside.order_id) (same_tenant : pending.tenant_id ≡ c.tenant_id)
    (fresh : order_at c.tenant_id outside.order_id db ≡ none) where
  -- The new order is found under its id.
  pub with_new-order :
      order_at c.tenant_id outside.order_id (with_new outside c pending now db)
      ≡ some (order_row_of pending now)
  with_new-order = ground (
    arith,
    find-append_none (is_order c.tenant_id outside.order_id) db.orders
        (order_row_of pending now ∷ []) fresh,
  )

  new_saga-is :
      (t i : ℕ) (s : OrderSaga)
      → find (is_saga t i) (saga_row_of outside c now ∷ []) ≡ some s
      → (c.tenant_id ≡ t) × (outside.order_id ≡ i) × (s.state ≡ SagaState.started)
  unfolding start
  new_saga-is t i s h = ground arith

  -- A saga that is not an old one is the new one, and has the new order.
  new_saga-order :
      (t i : ℕ) (s : OrderSaga)
      → pending.status ≡ OrderStatus.pending
      → find (is_saga t i) (saga_row_of outside c now ∷ []) ≡ some s
      → (o : Order) × (order_at t i (with_new outside c pending now db) ≡ some o)
        × (o.status ≡ expected s.state)
  new_saga-order t i s is_pending h =
      let (et, ei, started) = new_saga-is t i s h in
      (
        order_row_of pending now,
        subst
            (λ x.
              order_at x i (with_new outside c pending now db) ≡ some (order_row_of pending now))
            et
            (subst
              (λ x.
                order_at c.tenant_id x (with_new outside c pending now db)
                ≡ some (order_row_of pending now))
              ei with_new-order),
        ground arith,
      )

  pub with_new-IsConsistent :
      pending.status ≡ OrderStatus.pending
      → IsConsistent db
      → IsConsistent (with_new outside c pending now db)
  with_new-IsConsistent is_pending old t i s h = elim (Option-cases (find (is_saga t i) db.sagas)) [
    | inl e ↦
        new_saga-order t i s is_pending
          (sym (find-append_none (is_saga t i) db.sagas (saga_row_of outside c now ∷ []) e) ∙ h)
    | inr (s1, e) ↦
        let (o, found, agreed) = old t i s1 e in
        (
          o,
          find-append (is_order t i) db.orders (order_row_of pending now ∷ []) o found,
          ground (arith, find-append (is_saga t i) db.sagas (saga_row_of outside c now ∷ []) s1 e),
        )
  ]
