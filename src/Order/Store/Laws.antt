-- ===== src/Order/Store/Laws.antt =====
-- The repositories' updates, seen by a lookup.
use food_delivery_api.Common.{ℕ, ◌+◌, ◌≡◌, refl, some, ok, err, arith, true, false}
use food_delivery_api.Common.Table.{
  update_where, find-update_where, find_passes, any_of_find, any-update_where_self,
}
use food_delivery_api.Order.Errors.{
  order_concurrency_conflict, order_row, saga_concurrency_conflict,
}
use food_delivery_api.Order.Aggregate.{Order}
use food_delivery_api.Order.Saga.{OrderSaga}
use food_delivery_api.Order.Store.{
  OrderDb, order_at, saga_at, is_order, is_saga, same_order_version, set_status, update_status,
  same_saga_version, set_state, save_transition,
}

-- The row that a lookup finds has the key that was asked for.
pub order_at_key :
    (t i : ℕ) (db : OrderDb) (o : Order) → order_at t i db ≡ some o → (o.tenant_id ≡ t) × (o.id ≡ i)
order_at_key t i db o h = ground (arith, find_passes (is_order t i) db.orders o h)

pub saga_at_key :
    (t i : ℕ) (db : OrderDb) (s : OrderSaga)
    → saga_at t i db ≡ some s
    → (s.tenant_id ≡ t) × (s.order_id ≡ i)
saga_at_key t i db s h = ground (arith, find_passes (is_saga t i) db.sagas s h)

-- A status update of the version that is stored goes through, and returns the new row.
pub update_status-found :
    (t i : ℕ) (db : OrderDb) (r o : Order) (now : ℕ)
    → order_at t i db ≡ some r
    → o.tenant_id ≡ t
    → o.id ≡ i
    → o.version ≡ r.version
    → update_status o now db ≡ (
      ok (set_status o now r),
      record db { orders = update_where (same_order_version o) (set_status o now) db.orders },
    )
unfolding update_status
update_status-found t i db r o now h et ei ev = ground (
  arith,
  order_at_key t i db r h,
  any_of_find (is_order t i) (same_order_version o) db.orders r h,
  find-update_where (is_order t i) (same_order_version o) (set_status o now) (λ x. refl) db.orders,
)

pub save_transition-found :
    (t i : ℕ) (db : OrderDb) (r s : OrderSaga) (now : ℕ)
    → saga_at t i db ≡ some r
    → s.tenant_id ≡ t
    → s.order_id ≡ i
    → s.version ≡ r.version
    → save_transition s now db ≡ (
      ok (record s { version = s.version + 1; updated_at = now }),
      record db { sagas = update_where (same_saga_version s) (set_state s now) db.sagas },
    )
unfolding save_transition
save_transition-found t i db r s now h et ei ev =
    ground
      (arith, saga_at_key t i db r h, any_of_find (is_saga t i) (same_saga_version s) db.sagas r h)

stale-order :
    (o : Order) (now : ℕ) (r : Order)
    → same_order_version o r ≡ true
    → same_order_version o (set_status o now r) ≡ false
stale-order o now r h = ground arith

stale-saga :
    (s : OrderSaga) (now : ℕ) (r : OrderSaga)
    → same_saga_version s r ≡ true
    → same_saga_version s (set_state s now r) ≡ false
stale-saga s now r h = ground arith

-- Optimistic locking of orders: of two updates that were computed from one version of an order,
-- the second throws the conflict and writes nothing once the first went through.
pub update_status_twice :
    (o p saved : Order) (now later : ℕ) (db db' : OrderDb)
    → update_status o now db ≡ (ok saved, db')
    → p.id ≡ o.id
    → p.tenant_id ≡ o.tenant_id
    → p.version ≡ o.version
    → update_status p later db' ≡ (err (order_concurrency_conflict (order_row p.id)), db')
unfolding update_status
update_status_twice o p saved now later db db' h ei et ev = ground (
  arith,
  any-update_where_self (same_order_version o) (set_status o now) (λ r. stale-order o now r)
      db.orders,
)

-- Optimistic locking of sagas: of two transitions that were computed from one version of a saga,
-- the second throws the conflict and writes nothing once the first went through.
pub save_transition_twice :
    (s p saved : OrderSaga) (now later : ℕ) (db db' : OrderDb)
    → save_transition s now db ≡ (ok saved, db')
    → p.order_id ≡ s.order_id
    → p.tenant_id ≡ s.tenant_id
    → p.version ≡ s.version
    → save_transition p later db' ≡ (err (saga_concurrency_conflict p.order_id), db')
unfolding save_transition
save_transition_twice s p saved now later db db' h ei et ev = ground (
  arith,
  any-update_where_self (same_saga_version s) (set_state s now) (λ r. stale-saga s now r) db.sagas,
)
