-- ===== src/Order/Place/Claim.antt =====
-- An idempotency key stands for one order, whoever claims it first.
use food_delivery_api.Common.{
  ℕ, ◌≡◌, ◌⊎◌, some, none, ok, arith, true, false, inl, inr, any, find, ◌==◌, Bool-cases,
  Option-cases,
}
use food_delivery_api.Common.Table.{any_of_find, find_passes}
use food_delivery_api.Order.Aggregate.{Order}
use food_delivery_api.Order.Store.{OrderDb, order_at, claim_at, is_key}
use food_delivery_api.Order.Menu.{PlaceOrderCommand, assert_valid_command, pending_order}
use food_delivery_api.Order.Saga.{start}
use food_delivery_api.Order.Commands.{reserve_stock_command}
use food_delivery_api.Order.Place.New.{order_row_of, with_new}
use food_delivery_api.Order.Place.{
  Outside, place_order, store_order, load_existing, resolve_concurrent_claim,
}

-- The key of a command is claimed for an order that is stored.
pub record IsClaimed (c : PlaceOrderCommand) (o : Order) (db : OrderDb) : Type 0 where
  pub order_id : ℕ
  pub claimed : claim_at c.tenant_id c.user_id c.idempotency_key db ≡ some order_id
  pub stored : order_at c.tenant_id order_id db ≡ some o

-- A valid command whose key is claimed returns the order of the claim, and writes nothing.
pub place_order_replay :
    (outside : Outside) (c : PlaceOrderCommand) (now : ℕ) (db : OrderDb) (o : Order)
    → assert_valid_command c ≡ ok tt
    → IsClaimed c o db
    → place_order outside c now db ≡ (ok o, db)
unfolding place_order
place_order_replay outside c now db o valid k = ground (arith, k.claimed, k.stored)

-- A claimed key makes the insert of another claim violate the primary key.
claim_is_taken :
    (t u k id : ℕ) (db : OrderDb)
    → claim_at t u k db ≡ some id
    → any (is_key t u k) db.idempotency_keys ≡ true
claim_is_taken t u k id db h = elim (Option-cases (find (is_key t u k) db.idempotency_keys)) [
  | inl e ↦ ground (arith, e)
  | inr (row, e) ↦
      any_of_find (is_key t u k) (is_key t u k) db.idempotency_keys row e
        (find_passes (is_key t u k) db.idempotency_keys row e)
]

claim_is_free :
    (t u k : ℕ) (db : OrderDb)
    → any (is_key t u k) db.idempotency_keys ≡ false
    → claim_at t u k db ≡ none
claim_is_free t u k db h = elim (Option-cases (claim_at t u k db)) [
  | inl e ↦ e
  | inr (id, e) ↦ ground (arith, claim_is_taken t u k id db e)
]

-- A command that finds its key free, and loses it to another request before its transaction,
-- returns that request's order and writes nothing of its own.
pub place_order_lost_race :
    (outside : Outside) (c : PlaceOrderCommand) (now : ℕ) (db : OrderDb) (pending o : Order)
    → assert_valid_command c ≡ ok tt
    → claim_at c.tenant_id c.user_id c.idempotency_key db ≡ none
    → pending_order outside.gateways c outside.order_id now ≡ ok pending
    → IsClaimed c o (outside.meanwhile db)
    → place_order outside c now db ≡ (ok o, outside.meanwhile db)
unfolding place_order
place_order_lost_race outside c now db pending o valid free made k = ground (
  arith,
  k.claimed,
  k.stored,
  claim_is_taken c.tenant_id c.user_id c.idempotency_key k.order_id (outside.meanwhile db)
      k.claimed,
)

-- The order that a claimed key stands for is loaded without a write.
pub load_existing-ok :
    (c : PlaceOrderCommand) (id : ℕ) (o : Order) (db db' : OrderDb)
    → claim_at c.tenant_id c.user_id c.idempotency_key db ≡ some id
    → load_existing c.tenant_id id db ≡ (ok o, db')
    → IsClaimed c o db × (db' ≡ db)
unfolding load_existing
load_existing-ok c id o db db' claimed h =
    (record { order_id = id; claimed = claimed; stored = ground arith }, ground arith)

resolve_concurrent_claim-ok :
    (c : PlaceOrderCommand) (o : Order) (db db' : OrderDb)
    → resolve_concurrent_claim c db ≡ (ok o, db')
    → IsClaimed c o db × (db' ≡ db)
unfolding resolve_concurrent_claim
resolve_concurrent_claim-ok c o db db' h =
    elim (Option-cases (claim_at c.tenant_id c.user_id c.idempotency_key db)) [
      | inl e ↦ ground (arith, e)
      | inr (id, e) ↦ load_existing-ok c id o db db' e (ground (arith, e))
    ]

-- A call stores its order under a free key, or returns the order that the key is claimed for.
pub store_order-ok :
    (outside : Outside) (c : PlaceOrderCommand) (pending o : Order) (now : ℕ) (db db' : OrderDb)
    → store_order outside c pending now db ≡ (ok o, db')
    → (IsClaimed c o db × (db' ≡ db))
      ⊎ ((claim_at c.tenant_id c.user_id c.idempotency_key db ≡ none)
          × (o ≡ order_row_of pending now)
          × (db' ≡ with_new outside c pending now db))
unfolding store_order reserve_stock_command start
store_order-ok outside c pending o now db db' h =
    elim (Bool-cases (any (is_key c.tenant_id c.user_id c.idempotency_key) db.idempotency_keys)) [
      | inl e ↦ inl (resolve_concurrent_claim-ok c o db db' (ground (arith, e)))
      | inr e ↦ elim (Bool-cases (any (λ row. row.order_id == outside.order_id) db.sagas)) [
        | inl e' ↦ inl (resolve_concurrent_claim-ok c o db db' (ground (arith, e, e')))
        | inr e' ↦ inr (
          claim_is_free c.tenant_id c.user_id c.idempotency_key db e,
          ground (arith, e, e'),
          ground (arith, e, e'),
        )
      ]
    ]
