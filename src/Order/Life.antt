-- ===== src/Order/Life.antt =====
-- The life of an order, from its placement to the end of its saga.
use food_delivery_api.Common.{
  ℕ, ◌≡◌, [], ◌∷◌, refl, some, none, ok, Bool, ◌&&◌, arith, sym, subst, if◌then◌else◌,
}
use food_delivery_api.Common.Table.{find-append_none}
use food_delivery_api.Order.SagaState.{SagaState}
use food_delivery_api.Order.Aggregate.{Order}
use food_delivery_api.Order.Saga.{start}
use food_delivery_api.Order.Store.{OrderDb, order_at, saga_at, claim_at, is_saga}
use food_delivery_api.Order.Menu.{PlaceOrderCommand, pending_order}
use food_delivery_api.Order.Place.{Outside, place_order}
use food_delivery_api.Order.Place.New.{
  order_row_of, saga_row_of, with_new, pending_order-key, with_new-order,
}
use food_delivery_api.Order.Place.Again.{found_claim, lost_race, is_new, place_order-Placed}
use food_delivery_api.Order.Replies.Runs.{Stands}
use food_delivery_api.Order.Replies.Ends.{Events, AreNew, replied, replied-Stands}

-- Neither the key nor the id of a call is in use.
pub record IsFresh (outside : Outside) (c : PlaceOrderCommand) (db : OrderDb) : Type 0 where
  pub no_claim : claim_at c.tenant_id c.user_id c.idempotency_key db ≡ none
  pub no_order : order_at c.tenant_id outside.order_id db ≡ none
  pub no_saga : saga_at c.tenant_id outside.order_id db ≡ none

new_order-Stands :
    (outside : Outside) (c : PlaceOrderCommand) (now : ℕ) (pending : Order) (db : OrderDb)
    → pending_order outside.gateways c outside.order_id now ≡ ok pending
    → IsFresh outside c db
    → Stands c.tenant_id outside.order_id (with_new outside c pending now db) SagaState.started
unfolding start
new_order-Stands outside c now pending db built fresh =
    let (same_id, same_tenant, is_pending) = pending_order-key outside c now pending built in
    record {
      order = order_row_of pending now;
      saga = saga_row_of outside c now;
      has_order = with_new-order outside c now pending db same_id same_tenant fresh.no_order;
      has_saga = ground (
        arith,
        find-append_none (is_saga c.tenant_id outside.order_id) db.sagas
            (saga_row_of outside c now ∷ []) fresh.no_saga,
      );
      status = is_pending;
      state_is = refl;
    }

place_order-Stands :
    (outside : Outside) (c : PlaceOrderCommand) (now : ℕ) (db db' : OrderDb) (o : Order)
    → IsFresh outside c db
    → IsFresh outside c (outside.meanwhile db)
    → place_order outside c now db ≡ (ok o, db')
    → Stands c.tenant_id outside.order_id db' SagaState.started
place_order-Stands outside c now db db' o before during h =
    elim (place_order-Placed outside c now db db' o h) [
      | found_claim k same ↦ ground (
        arith,
        before.no_claim,
        subst (λ x. claim_at c.tenant_id c.user_id c.idempotency_key x ≡ some k.order_id) same
            k.claimed,
      )
      | lost_race k same ↦ ground (
        arith,
        during.no_claim,
        subst (λ x. claim_at c.tenant_id c.user_id c.idempotency_key x ≡ some k.order_id) same
            k.claimed,
      )
      | is_new pending built free made written ↦
          subst (λ x. Stands c.tenant_id outside.order_id x SagaState.started) (sym written)
            (new_order-Stands outside c now pending (outside.meanwhile db) built during)
    ]

-- An order that is placed under a fresh key and a fresh id comes to its end whatever the two services
-- answer: CONFIRMED with its saga COMPLETED if the stock is reserved and the charge succeeds, and
-- otherwise CANCELLED with its saga, where the events of the replies are new and different.
pub placed_order-Stands :
    (outside : Outside) (c : PlaceOrderCommand) (now later : ℕ) (db db' : OrderDb) (o : Order)
    (reserved charged : Bool) (events : Events)
    → IsFresh outside c db
    → IsFresh outside c (outside.meanwhile db)
    → place_order outside c now db ≡ (ok o, db')
    → AreNew events db'
    → Stands c.tenant_id outside.order_id
        (replied c.tenant_id outside.order_id outside.correlation_id later reserved charged events
          db')
        (if reserved && charged then SagaState.completed else SagaState.cancelled)
placed_order-Stands outside c now later db db' o reserved charged events before during placed new =
    replied-Stands c.tenant_id outside.order_id outside.correlation_id later reserved charged events
      db' new (place_order-Stands outside c now db db' o before during placed)
