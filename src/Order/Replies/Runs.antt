-- ===== src/Order/Replies/Runs.antt =====
-- Whole runs of a saga: the replies of the inventory and the payment service one after the other.
use food_delivery_api.Common.{
  ℕ, ◌≡◌, ◌++◌, [], ◌∷◌, refl, Option, some, ok, arith, List, find, any, Bool, false, ◌==◌,
}
use food_delivery_api.Common.Table.{find-update_where}
use food_delivery_api.Order.Status.{OrderStatus}
use food_delivery_api.Order.SagaState.{SagaState}
use food_delivery_api.Order.Aggregate.{Order}
use food_delivery_api.Order.Saga.{OrderSaga}
use food_delivery_api.Order.Store.{
  OrderDb, OrderAction, mark_processed, order_at, saga_at, is_order, is_saga, same_order_version,
  set_status, same_saga_version, set_state,
}
use food_delivery_api.Order.Store.Laws.{order_at_key, saga_at_key}
use food_delivery_api.Order.Replies.{
  Envelope, InventoryReply, PaymentReply, SagaOutcome, execute, handle_inventory_reply,
  handle_payment_reply,
}
use food_delivery_api.Order.Replies.Steps.{moved_orders, moved_sagas}
use food_delivery_api.Order.Replies.Effects.{expected}
use food_delivery_api.Order.Replies.Consistency.{marked}

-- The saga of an order is in a state, and the order in the status that goes with it.
pub record Stands (t i : ℕ) (db : OrderDb) (state : SagaState) : Type 0 where
  pub order : Order
  pub saga : OrderSaga
  pub has_order : order_at t i db ≡ some order
  pub has_saga : saga_at t i db ≡ some saga
  pub status : order.status ≡ expected state
  pub state_is : saga.state ≡ state

abbrev pub is_marked : ℕ → OrderDb → Bool
is_marked event db = any (λ e. e == event) db.processed_events

pub any-append_one :
    (event other : ℕ) (events : List ℕ)
    → (other == event) ≡ false
    → any (λ e. e == event) events ≡ false
    → any (λ e. e == event) (events ++ other ∷ []) ≡ false
any-append_one event other [] d h = ground arith
any-append_one event other (e ∷ events) d h = ground (arith, any-append_one event other events)

pub order_moved :
    (t i : ℕ) (db : OrderDb) (o : Order) (status : OrderStatus) (now : ℕ)
    → order_at t i db ≡ some o
    → find (is_order t i) (moved_orders o status now db)
      ≡ some (set_status (record o { status = status; updated_at = now }) now o)
order_moved t i db o status now h = ground (
  arith,
  order_at_key t i db o h,
  find-update_where (is_order t i) (same_order_version o)
      (set_status (record o { status = status; updated_at = now }) now) (λ r. refl) db.orders,
)

pub saga_moved :
    (t i : ℕ) (db : OrderDb) (s : OrderSaga) (state : SagaState) (event now : ℕ)
    → saga_at t i db ≡ some s
    → find (is_saga t i) (moved_sagas s state event now db)
      ≡ some (
          set_state
            (record s { state = state; last_event_id = some event; updated_at = now })
            now
            s)
saga_moved t i db s state event now h = ground (
  arith,
  saga_at_key t i db s h,
  find-update_where (is_saga t i) (same_saga_version s)
      (set_state (record s { state = state; last_event_id = some event; updated_at = now }) now)
      (λ r. refl) db.sagas,
)

-- What a new event's handling leaves is what `apply` makes of the store behind the mark.
pub execute-fresh :
    (event : ℕ) (apply : OrderAction (Option SagaOutcome)) (db after : OrderDb)
    (outcome : Option SagaOutcome)
    → is_marked event db ≡ false
    → apply (marked event db) ≡ (ok outcome, after)
    → (execute event apply db).1 ≡ after
unfolding execute mark_processed
execute-fresh event apply db after outcome fresh applied = ground arith

module _ (t i correlation_id now : ℕ) where
  abbrev pub inventory_reply : InventoryReply → ℕ → Envelope InventoryReply
  inventory_reply type event = record {
    event_id = event;
    event_type = type;
    tenant_id = t;
    correlation_id = correlation_id;
  }

  abbrev pub payment_reply : PaymentReply → ℕ → Envelope PaymentReply
  payment_reply type event = record {
    event_id = event;
    event_type = type;
    tenant_id = t;
    correlation_id = correlation_id;
  }

  abbrev pub after_inventory : InventoryReply → ℕ → OrderDb → OrderDb
  after_inventory type event db = (handle_inventory_reply (inventory_reply type event) i now db).1

  abbrev pub after_payment : PaymentReply → ℕ → OrderDb → OrderDb
  after_payment type event db = (handle_payment_reply (payment_reply type event) i now db).1

  -- The store after a step: the saga stands in a state, and one more event is marked.
  pub record Stepped (before after : OrderDb) (event : ℕ) (state : SagaState) : Type 0 where
    pub stands : Stands t i after state
    pub marks : after.processed_events ≡ before.processed_events ++ event ∷ []
