-- ===== src/Order/Place/Failure.antt =====
-- An order that is not placed leaves no trace.
use food_delivery_api.Common.{
  ℕ, ◌≡◌, ◌⊎◌, err, arith, inl, inr, any, ◌==◌, Option-cases, Result-cases, Bool-cases,
}
use food_delivery_api.Order.Errors.{OrderError}
use food_delivery_api.Order.Aggregate.{Order}
use food_delivery_api.Order.Store.{OrderDb, claim_at, is_key, order_at}
use food_delivery_api.Order.Menu.{PlaceOrderCommand, assert_valid_command, pending_order}
use food_delivery_api.Order.Place.{
  Outside, place_order, place_new, store_order, resolve_concurrent_claim,
}

resolve_concurrent_claim-reads :
    (c : PlaceOrderCommand) (db : OrderDb) → (resolve_concurrent_claim c db).1 ≡ db
unfolding resolve_concurrent_claim
resolve_concurrent_claim-reads c db =
    elim (Option-cases (claim_at c.tenant_id c.user_id c.idempotency_key db)) [
      | inl e ↦ ground (arith, e)
      | inr (id, e) ↦ ground (arith, e)
    ]

store_order-err :
    (outside : Outside) (c : PlaceOrderCommand) (pending : Order) (now : ℕ) (e : OrderError)
    (db db' : OrderDb)
    → store_order outside c pending now db ≡ (err e, db')
    → db' ≡ db
unfolding store_order
store_order-err outside c pending now e db db' h =
    elim (Bool-cases (any (is_key c.tenant_id c.user_id c.idempotency_key) db.idempotency_keys)) [
      | inl taken ↦ ground (arith, taken, resolve_concurrent_claim-reads c db)
      | inr free ↦ elim (Bool-cases (any (λ row. row.order_id == outside.order_id) db.sagas)) [
        | inl taken ↦ ground (arith, free, taken, resolve_concurrent_claim-reads c db)
        | inr fresh ↦ ground (arith, free, fresh)
      ]
    ]

place_new-err :
    (outside : Outside) (c : PlaceOrderCommand) (now : ℕ) (e : OrderError) (db db' : OrderDb)
    → place_new outside c now db ≡ (err e, db')
    → (db' ≡ db) ⊎ (db' ≡ outside.meanwhile db)
unfolding place_new
place_new-err outside c now e db db' h =
    elim (Result-cases (pending_order outside.gateways c outside.order_id now)) [
      | inl (pending, built) ↦ inr (
          store_order-err outside c pending now e (outside.meanwhile db) db'
            (ground (arith, built)))
      | inr (bad, built) ↦ inl (ground (arith, built))
    ]

-- A call that throws has written nothing: the store is the one that it started from, or what the
-- other requests made of it.
pub place_order-err :
    (outside : Outside) (c : PlaceOrderCommand) (now : ℕ) (e : OrderError) (db db' : OrderDb)
    → place_order outside c now db ≡ (err e, db')
    → (db' ≡ db) ⊎ (db' ≡ outside.meanwhile db)
unfolding place_order
place_order-err outside c now e db db' h = elim (Result-cases (assert_valid_command c)) [
  | inl (tt, valid) ↦ elim (Option-cases (claim_at c.tenant_id c.user_id c.idempotency_key db)) [
    | inl free ↦ place_new-err outside c now e db db' (ground (arith, valid, free))
    | inr (id, claimed) ↦ inl (elim (Option-cases (order_at c.tenant_id id db)) [
      | inl gone ↦ ground (arith, valid, claimed, gone)
      | inr (o, found) ↦ ground (arith, valid, claimed, found)
    ])
  ]
  | inr (bad, invalid) ↦ inl (ground (arith, invalid))
]
