-- ===== src/Order/Replies/Advance.antt =====
-- The steps of a saga: each reply in the state that waits for it.
use food_delivery_api.Common.{ℕ, ◌≡◌, refl, ap, sym, ◌∙◌, subst, Option, some, ok, false}
use food_delivery_api.Order.SagaState.{SagaState}
use food_delivery_api.Order.Aggregate.{Order}
use food_delivery_api.Order.Saga.{OrderSaga}
use food_delivery_api.Order.Commands.{OutboxCommandEntry}
use food_delivery_api.Order.Store.{OrderDb, order_at, saga_at, set_status, set_state}
use food_delivery_api.Order.Replies.{
  InventoryReply, PaymentReply, SagaOutcome, apply_inventory, apply_payment, handle_inventory_reply,
  handle_payment_reply,
}
use food_delivery_api.Order.Replies.Steps.{moved}
use food_delivery_api.Order.Replies.Effects.{
  expected, inventory_effect, payment_effect, apply_inventory-effect, apply_payment-effect,
}
use food_delivery_api.Order.Replies.Consistency.{marked}
use food_delivery_api.Order.Replies.Runs.{
  Stands, Stepped, is_marked, order_moved, saga_moved, execute-fresh, inventory_reply,
  payment_reply, after_inventory, after_payment,
}

module _ (t i correlation_id now : ℕ) where
  -- Where a reply's row of the saga table is some store, its handling leaves that store.
  inventory_applied :
      (type : InventoryReply) (event : ℕ) (state : SagaState) (db after : OrderDb)
      (outcome : Option SagaOutcome) (s : Stands t i db state)
      → is_marked event db ≡ false
      → inventory_effect i s.order s.saga now
          (marked event db)
          type
          state
          (inventory_reply t i correlation_id now type event)
        ≡ (ok outcome, after)
      → after_inventory t i correlation_id now type event db ≡ after
  unfolding handle_inventory_reply
  inventory_applied type event state db after outcome s fresh effect =
      execute-fresh event
        (apply_inventory (inventory_reply t i correlation_id now type event) i now) db after outcome
        fresh
        (apply_inventory-effect i s.order s.saga now (marked event db)
            (inventory_reply t i correlation_id now type event) s.has_order s.has_saga
            (s.status ∙ ap expected (sym s.state_is))
          ∙ ap
              (λ st.
                inventory_effect i s.order s.saga now (marked event db) type st
                  (inventory_reply t i correlation_id now type event))
              s.state_is
          ∙ effect)

  payment_applied :
      (type : PaymentReply) (event : ℕ) (state : SagaState) (db after : OrderDb)
      (outcome : Option SagaOutcome) (s : Stands t i db state)
      → is_marked event db ≡ false
      → payment_effect i s.order s.saga now
          (marked event db)
          type
          state
          (payment_reply t i correlation_id now type event)
        ≡ (ok outcome, after)
      → after_payment t i correlation_id now type event db ≡ after
  unfolding handle_payment_reply
  payment_applied type event state db after outcome s fresh effect =
      execute-fresh event (apply_payment (payment_reply t i correlation_id now type event) i now) db
        after outcome fresh
        (apply_payment-effect i s.order s.saga now (marked event db)
            (payment_reply t i correlation_id now type event) s.has_order s.has_saga
            (s.status ∙ ap expected (sym s.state_is))
          ∙ ap
              (λ st.
                payment_effect i s.order s.saga now (marked event db) type st
                  (payment_reply t i correlation_id now type event))
              s.state_is
          ∙ effect)

  moved-Stands :
      (db : OrderDb) (o : Order) (s : OrderSaga) (state : SagaState) (event : ℕ)
      (entry : OutboxCommandEntry)
      → order_at t i db ≡ some o
      → saga_at t i db ≡ some s
      → Stands t i (moved o (expected state) s state event now t entry (marked event db)) state
  moved-Stands db o s state event entry ho hs = record {
    order = set_status (record o { status = expected state; updated_at = now }) now o;
    saga =
        set_state (record s { state = state; last_event_id = some event; updated_at = now }) now s;
    has_order = order_moved t i db o (expected state) now ho;
    has_saga = saga_moved t i db s state event now hs;
    status = refl;
    state_is = refl;
  }

  inventory-Stepped :
      (type : InventoryReply) (event : ℕ) (state next : SagaState) (db : OrderDb)
      (outcome : Option SagaOutcome) (entry : OutboxCommandEntry) (s : Stands t i db state)
      → is_marked event db ≡ false
      → inventory_effect i s.order s.saga now
          (marked event db)
          type
          state
          (inventory_reply t i correlation_id now type event)
        ≡ (
          ok outcome,
          moved s.order (expected next) s.saga next event now t entry (marked event db),
        )
      → Stepped t i correlation_id now db
          (after_inventory t i correlation_id now type event db)
          event
          next
  inventory-Stepped type event state next db outcome entry s fresh effect =
      subst (λ after. Stepped t i correlation_id now db after event next)
        (sym (inventory_applied type event state db _ outcome s fresh effect))
        (record {
          stands = moved-Stands db s.order s.saga next event entry s.has_order s.has_saga;
          marks = refl;
        })

  pub reserved-Stepped :
      (event : ℕ) (db : OrderDb)
      → Stands t i db SagaState.started
      → is_marked event db ≡ false
      → Stepped t i correlation_id now db
          (after_inventory t i correlation_id now InventoryReply.stock_reserved event db)
          event
          SagaState.stock_reserved
  reserved-Stepped event db s fresh =
      inventory-Stepped InventoryReply.stock_reserved event SagaState.started _ db _ _ s fresh refl

  pub refused-Stepped :
      (event : ℕ) (db : OrderDb)
      → Stands t i db SagaState.started
      → is_marked event db ≡ false
      → Stepped t i correlation_id now db
          (after_inventory t i correlation_id now InventoryReply.stock_reservation_failed event db)
          event
          SagaState.cancelled
  refused-Stepped event db s fresh =
      inventory-Stepped InventoryReply.stock_reservation_failed event SagaState.started _ db _ _ s
        fresh refl

  pub released-Stepped :
      (event : ℕ) (db : OrderDb)
      → Stands t i db SagaState.compensating
      → is_marked event db ≡ false
      → Stepped t i correlation_id now db
          (after_inventory t i correlation_id now InventoryReply.stock_released event db)
          event
          SagaState.cancelled
  released-Stepped event db s fresh =
      inventory-Stepped InventoryReply.stock_released event SagaState.compensating _ db _ _ s fresh
        refl

  pub paid-Stepped :
      (event : ℕ) (db : OrderDb)
      → Stands t i db SagaState.stock_reserved
      → is_marked event db ≡ false
      → Stepped t i correlation_id now db
          (after_payment t i correlation_id now PaymentReply.payment_succeeded event db)
          event
          SagaState.completed
  paid-Stepped event db s fresh =
      subst (λ after. Stepped t i correlation_id now db after event SagaState.completed)
        (sym (
          payment_applied PaymentReply.payment_succeeded event SagaState.stock_reserved db _ _ s
            fresh refl))
        (record {
          stands =
              moved-Stands db s.order s.saga SagaState.completed event _ s.has_order s.has_saga;
          marks = refl;
        })

  pub declined-Stepped :
      (event : ℕ) (db : OrderDb)
      → Stands t i db SagaState.stock_reserved
      → is_marked event db ≡ false
      → Stepped t i correlation_id now db
          (after_payment t i correlation_id now PaymentReply.payment_failed event db)
          event
          SagaState.compensating
  declined-Stepped event db s fresh =
      subst (λ after. Stepped t i correlation_id now db after event SagaState.compensating)
        (sym (
          payment_applied PaymentReply.payment_failed event SagaState.stock_reserved db _ _ s fresh
            refl))
        (record {
          stands = record {
            order = s.order;
            saga =
                set_state
                  (record s.saga {
                    state = SagaState.compensating;
                    last_event_id = some event;
                    updated_at = now;
                  })
                  now s.saga;
            has_order = s.has_order;
            has_saga = saga_moved t i db s.saga SagaState.compensating event now s.has_saga;
            status = s.status;
            state_is = refl;
          };
          marks = refl;
        })
