-- ===== src/Order/Place/Again.antt =====
-- Placing an order twice under one key, and what a placed order leaves behind.
use food_delivery_api.Common.{
  ℕ, ◌≡◌, ap, ◌∙◌, [], ◌∷◌, none, some, ok, arith, inl, inr, Option-cases, Result-cases, sym, subst,
}
use food_delivery_api.Common.Table.{find-append_none, find_passes}
use food_delivery_api.Order.Aggregate.{Order}
use food_delivery_api.Order.Store.{OrderDb, order_at, claim_at, is_key, is_order}
use food_delivery_api.Order.Menu.{PlaceOrderCommand, assert_valid_command, pending_order}
use food_delivery_api.Order.Place.{Outside, place_order, place_new}
use food_delivery_api.Order.Place.New.{
  order_row_of, key_row_of, with_new, pending_order-key, with_new-order, with_new-IsConsistent,
}
use food_delivery_api.Order.Place.Claim.{
  IsClaimed, load_existing-ok, store_order-ok, place_order_replay,
}
use food_delivery_api.Order.Replies.Consistency.{IsConsistent}

-- What a call that returned has done: it returned the order of a claim, which it found before or
-- after the menu was read, or it stored a new order under a free key.
pub data Placed (outside : Outside) (c : PlaceOrderCommand) (now : ℕ) (db db' : OrderDb) (o : Order)
    : Type 0 where
  found_claim : IsClaimed c o db' → db' ≡ db → Placed outside c now db db' o
  lost_race : IsClaimed c o db' → db' ≡ outside.meanwhile db → Placed outside c now db db' o
  is_new :
      (pending : Order)
      → pending_order outside.gateways c outside.order_id now ≡ ok pending
      → claim_at c.tenant_id c.user_id c.idempotency_key (outside.meanwhile db) ≡ none
      → o ≡ order_row_of pending now
      → db' ≡ with_new outside c pending now (outside.meanwhile db)
      → Placed outside c now db db' o

place_order-valid :
    (outside : Outside) (c : PlaceOrderCommand) (now : ℕ) (db db' : OrderDb) (o : Order)
    → place_order outside c now db ≡ (ok o, db')
    → assert_valid_command c ≡ ok tt
unfolding place_order
place_order-valid outside c now db db' o h = elim (Result-cases (assert_valid_command c)) [
  | inl (tt, e) ↦ e
  | inr (bad, e) ↦ ground (arith, e)
]

place_new-Placed :
    (outside : Outside) (c : PlaceOrderCommand) (now : ℕ) (db db' : OrderDb) (o : Order)
    → place_new outside c now db ≡ (ok o, db')
    → Placed outside c now db db' o
unfolding place_new
place_new-Placed outside c now db db' o h =
    elim (Result-cases (pending_order outside.gateways c outside.order_id now)) [
      | inl (pending, e) ↦
          elim (store_order-ok outside c pending o now (outside.meanwhile db) db'
            (ground (arith, e))) [
              | inl (claimed, same) ↦
                  lost_race (subst (λ x. IsClaimed c o x) (sym same) claimed) same
              | inr (free, made, written) ↦ is_new pending e free made written
            ]
      | inr (bad, e) ↦ ground (arith, e)
    ]

pub place_order-Placed :
    (outside : Outside) (c : PlaceOrderCommand) (now : ℕ) (db db' : OrderDb) (o : Order)
    → place_order outside c now db ≡ (ok o, db')
    → Placed outside c now db db' o
unfolding place_order
place_order-Placed outside c now db db' o h =
    let valid = place_order-valid outside c now db db' o h in
    elim (Option-cases (claim_at c.tenant_id c.user_id c.idempotency_key db)) [
      | inl e ↦ place_new-Placed outside c now db db' o (ground (arith, e, valid))
      | inr (id, e) ↦
          let (claimed, same) = load_existing-ok c id o db db' e (ground (arith, e, valid)) in
          found_claim (subst (λ x. IsClaimed c o x) (sym same) claimed) same
    ]

-- A new order under a free key and a fresh id is the order that the key is claimed for.
with_new-IsClaimed :
    (outside : Outside) (c : PlaceOrderCommand) (now : ℕ) (db : OrderDb) (pending : Order)
    → order_at c.tenant_id outside.order_id db ≡ none
    → pending_order outside.gateways c outside.order_id now ≡ ok pending
    → claim_at c.tenant_id c.user_id c.idempotency_key db ≡ none
    → IsClaimed c (order_row_of pending now) (with_new outside c pending now db)
with_new-IsClaimed outside c now db pending fresh built free =
    let (same_id, same_tenant, _) = pending_order-key outside c now pending built in
    record {
      order_id = outside.order_id;
      claimed = ground (
        arith,
        find-append_none (is_key c.tenant_id c.user_id c.idempotency_key) db.idempotency_keys
            (key_row_of outside c ∷ []),
      );
      stored = with_new-order outside c now pending db same_id same_tenant fresh;
    }

-- Where the id of a call is fresh, a call that returned leaves its key claimed for its order.
Placed-IsClaimed :
    (outside : Outside) (c : PlaceOrderCommand) (now : ℕ) (db db' : OrderDb) (o : Order)
    → order_at c.tenant_id outside.order_id (outside.meanwhile db) ≡ none
    → Placed outside c now db db' o
    → IsClaimed c o db'
Placed-IsClaimed outside c now db db' o fresh (found_claim claimed _) = claimed
Placed-IsClaimed outside c now db db' o fresh (lost_race claimed _) = claimed
Placed-IsClaimed outside c now db db' o fresh (is_new pending built free made written) =
    subst (λ x. IsClaimed c x db') (sym made)
      (subst (λ x. IsClaimed c (order_row_of pending now) x) (sym written)
        (with_new-IsClaimed outside c now (outside.meanwhile db) pending fresh built free))

-- The order of a claim has the claimed id.
IsClaimed-id :
    (c : PlaceOrderCommand) (o : Order) (db : OrderDb) (k : IsClaimed c o db) → o.id ≡ k.order_id
IsClaimed-id c o db k =
    let mine = find_passes (is_order c.tenant_id k.order_id) db.orders o k.stored in
    ground (arith, mine)

-- Where the id of a call is fresh, once the call has returned an order, a call with the same command,
-- whatever its menu, ids and clock are, returns that order and writes nothing; and so does such a call
-- on any later store in which the claim of the key is still the same and a row has the id of the
-- order, where it returns the order of that id as it stands by then.
pub place_order_again :
    (outside later : Outside) (c : PlaceOrderCommand) (now then : ℕ) (db db' after : OrderDb)
    (o current : Order)
    → order_at c.tenant_id outside.order_id (outside.meanwhile db) ≡ none
    → place_order outside c now db ≡ (ok o, db')
    → claim_at c.tenant_id c.user_id c.idempotency_key after
      ≡ claim_at c.tenant_id c.user_id c.idempotency_key db'
    → order_at c.tenant_id o.id after ≡ some current
    → (place_order later c then db' ≡ (ok o, db'))
      × (place_order later c then after ≡ (ok current, after))
      × (current.id ≡ o.id)
place_order_again outside later c now then db db' after o current fresh h kept there =
    let valid = place_order-valid outside c now db db' o h in
    let k =
      Placed-IsClaimed outside c now db db' o fresh (place_order-Placed outside c now db db' o h) in
    let same = IsClaimed-id c o db' k in
    let k' : IsClaimed c current after = record {
      order_id = o.id;
      claimed = kept ∙ k.claimed ∙ ap (λ id. some id) (sym same);
      stored = there;
    } in
    (
      place_order_replay later c then db' o valid k,
      place_order_replay later c then after current valid k',
      IsClaimed-id c current after k',
    )

-- Where the id of a call is fresh and the other requests leave every saga in step with its order,
-- so does the call.
pub place_order-IsConsistent :
    (outside : Outside) (c : PlaceOrderCommand) (now : ℕ) (db db' : OrderDb) (o : Order)
    → order_at c.tenant_id outside.order_id (outside.meanwhile db) ≡ none
    → IsConsistent db
    → IsConsistent (outside.meanwhile db)
    → place_order outside c now db ≡ (ok o, db')
    → IsConsistent db'
place_order-IsConsistent outside c now db db' o fresh before during h =
    elim (place_order-Placed outside c now db db' o h) [
      | found_claim _ same ↦ subst IsConsistent (sym same) before
      | lost_race _ same ↦ subst IsConsistent (sym same) during
      | is_new pending built _ _ written ↦
          let (same_id, same_tenant, is_pending) = pending_order-key outside c now pending built in
          subst IsConsistent (sym written) (
            with_new-IsConsistent outside c now pending (outside.meanwhile db) same_id same_tenant
              fresh is_pending during)
    ]
