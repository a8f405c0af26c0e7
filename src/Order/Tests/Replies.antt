-- ===== src/Order/Tests/Replies.antt =====
-- Replies, sweeps and cancellations on the order that was placed.
use food_delivery_api.Common.{◌≡◌, ◌⊎◌, refl, [], some, none, ok, err, inr}
use food_delivery_api.Order.Status.{OrderStatus, allows}
use food_delivery_api.Order.SagaState.{SagaState}
use food_delivery_api.Order.Errors.{illegal_order_transition}
use food_delivery_api.Order.Aggregate.{Order, transition_to}
use food_delivery_api.Order.Saga.{
  OrderSaga, StrandedSagaCandidate, start, transition, can_transition_to,
}
use food_delivery_api.Order.Store.{
  OrderDb, order_at, claim_at, mark_processed, find_by_id, set_status, update_status,
  save_transition,
}
use food_delivery_api.Order.Place.{place_order}
use food_delivery_api.Order.Place.Again.{place_order_again}
use food_delivery_api.Order.Place.New.{saga_row_of}
use food_delivery_api.Order.Replies.{
  Envelope, InventoryReply, PaymentReply, stock_reserved, payment_succeeded, apply_inventory,
  apply_payment, apply_inventory_type, handle_inventory_reply, handle_payment_reply,
}
use food_delivery_api.Order.Replies.Effects.{
  inventory_effect, payment_effect, apply_inventory-effect, apply_payment-effect,
}
use food_delivery_api.Order.Replies.Steps.{moved_orders}
use food_delivery_api.Order.Replies.Consistency.{
  IsConsistent, handle_inventory_reply-IsConsistent, handle_payment_reply-IsConsistent,
}
use food_delivery_api.Order.Replies.Exactly.{handle_inventory_reply_twice}
use food_delivery_api.Order.Reaper.{ReaperSettings, redriven, recover_one}
use food_delivery_api.Order.Reaper.Redrive.{IsRedriven, recover_one-redrives}
use food_delivery_api.Order.Lifecycle.{LifecycleCommand, Cancellation, cancel_by_user}
use food_delivery_api.Order.Lifecycle.Stranding.{cancel_by_user-moved, cancelled_order_strands}
use food_delivery_api.Order.Tests.{
  empty_db, placed_db, placed_order, placed, outside, later, command, placed_db-IsConsistent,
}

abbrev reserved_reply : Envelope InventoryReply
reserved_reply = record {
  event_id = 70;
  event_type = stock_reserved;
  tenant_id = 1;
  correlation_id = 21;
}

abbrev paid_reply : Envelope PaymentReply
paid_reply = record {
  event_id = 71;
  event_type = payment_succeeded;
  tenant_id = 1;
  correlation_id = 21;
}

abbrev started_saga : OrderSaga
started_saga = saga_row_of outside command 40

-- The store after the stock was reserved.
abbrev reserved_db : OrderDb
reserved_db = (handle_inventory_reply reserved_reply 11 50 placed_db).1

abbrev reserved_order : Order
reserved_order = record placed_order { status = OrderStatus.reserved; version = 2; updated_at = 50 }

abbrev reserved_saga : OrderSaga
reserved_saga = record started_saga {
  state = SagaState.stock_reserved;
  last_event_id = some 70;
  version = 1;
  updated_at = 50;
}

reserved_there :
    (claim_at 1 2 command.idempotency_key reserved_db
      ≡ claim_at 1 2 command.idempotency_key placed_db)
    × (order_at 1 11 reserved_db ≡ some reserved_order)
unfolding start mark_processed find_by_id handle_inventory_reply apply_inventory_type update_status
    set_status save_transition transition can_transition_to transition_to allows
reserved_there = (refl, refl)

-- The request comes once more when the stock is reserved.
place_order_again_example :
    (place_order later command 55 placed_db ≡ (ok placed_order, placed_db))
    × (place_order later command 55 reserved_db ≡ (ok reserved_order, reserved_db))
    × (reserved_order.id ≡ placed_order.id)
place_order_again_example =
    place_order_again outside later command 40 55 empty_db placed_db reserved_db placed_order
      reserved_order refl placed reserved_there.0 reserved_there.1

apply_inventory-effect_example :
    apply_inventory reserved_reply 11 50 placed_db
    ≡ inventory_effect 11 placed_order started_saga 50 placed_db stock_reserved SagaState.started
        reserved_reply
unfolding start
apply_inventory-effect_example =
    apply_inventory-effect 11 placed_order started_saga 50 placed_db reserved_reply refl refl refl

apply_payment-effect_example :
    apply_payment paid_reply 11 60 reserved_db
    ≡ payment_effect 11 reserved_order reserved_saga 60 reserved_db payment_succeeded
        SagaState.stock_reserved paid_reply
unfolding start mark_processed find_by_id handle_inventory_reply apply_inventory_type update_status
    save_transition transition can_transition_to transition_to allows
apply_payment-effect_example =
    apply_payment-effect 11 reserved_order reserved_saga 60 reserved_db paid_reply refl refl refl

handle_inventory_reply-IsConsistent_example : IsConsistent reserved_db
handle_inventory_reply-IsConsistent_example =
    handle_inventory_reply-IsConsistent reserved_reply 11 50 placed_db placed_db-IsConsistent

handle_payment_reply-IsConsistent_example :
    IsConsistent (handle_payment_reply paid_reply 11 60 placed_db).1
handle_payment_reply-IsConsistent_example =
    handle_payment_reply-IsConsistent paid_reply 11 60 placed_db placed_db-IsConsistent

handle_inventory_reply_twice_example :
    handle_inventory_reply reserved_reply 11 55 reserved_db ≡ (ok none, reserved_db)
unfolding start mark_processed find_by_id handle_inventory_reply apply_inventory_type update_status
    save_transition transition can_transition_to transition_to allows
handle_inventory_reply_twice_example =
    handle_inventory_reply_twice reserved_reply 11 50 55 placed_db none refl

abbrev settings : ReaperSettings
settings = record { timeout_ms = 5; max_attempts = 3 }

abbrev candidate : StrandedSagaCandidate
candidate = record { order_id = 11; tenant_id = 1; state = SagaState.started; updated_at = 40 }

abbrev redriven_db : OrderDb
redriven_db = (recover_one settings 99 candidate 60 placed_db).1

recover_one-redrives_example :
    (redriven_db ≡ placed_db)
    ⊎ ((redriven ≡ redriven) × IsRedriven settings 99 candidate 60 placed_db redriven_db)
unfolding start recover_one
recover_one-redrives_example =
    recover_one-redrives settings 99 candidate 60 placed_db redriven_db redriven refl

abbrev by_stranger : LifecycleCommand
by_stranger = record { tenant_id = 1; user_id = 5; roles = []; order_id = 11 }

abbrev by_owner : LifecycleCommand
by_owner = record { tenant_id = 1; user_id = 2; roles = []; order_id = 11 }

abbrev cancelled_db : OrderDb
cancelled_db = record placed_db {
  orders = moved_orders placed_order OrderStatus.cancelled 60 placed_db;
}

abbrev cancellation : Cancellation
cancellation = record {
  saved =
      set_status (record placed_order { status = OrderStatus.cancelled; updated_at = 60 }) 60
        placed_order;
  release = record { tenant_id = 1; order_id = 11 };
}

cancelled : cancel_by_user by_owner 60 placed_db ≡ (ok cancellation, cancelled_db)
unfolding allows
cancelled = cancel_by_user-moved by_owner 60 placed_db placed_order refl (inr refl) refl

cancelled_order_strands_example :
    handle_inventory_reply reserved_reply 11 65 cancelled_db
    ≡ (err (illegal_order_transition OrderStatus.cancelled OrderStatus.reserved), cancelled_db)
unfolding start
cancelled_order_strands_example =
    cancelled_order_strands by_owner 60 65 reserved_reply placed_db cancelled_db cancellation
      started_saga cancelled refl refl refl refl refl
