-- ===== src/Order/Errors.antt =====
-- apps/order/src/domain/shared/errors.ts. A message built from a template is a constructor with
-- the values it shows. The last constructors are errors that are no `DomainException`: a unique
-- violation of Postgres (code 23505), `DuplicateEventError`, and whatever else a call throws.
use food_delivery_api.Common.{ℕ, String, Option, none, some}
use food_delivery_api.Order.Status.{OrderStatus}
use food_delivery_api.Order.SagaState.{SagaState}

-- What a message about an amount names.
pub data Label : Type 0 where
  quantity unit_price delivery_fee vat_rate discount order_subtotal order_vat order_total : Label

pub data Reason : Type 0 where
  no_items no_restaurant several_restaurants : Reason
  not_positive_integer not_non_negative_integer exceeds_maximum : Label → Reason
  item_quantity line_total_exceeds menu_item_not_found menu_item_not_available : ℕ → Reason
  being_created mismatched_replay : Reason
  contention_exhausted : Reason
  order_row : ℕ → Reason

pub data OrderError : Type 0 where
  invalid_order_request : Reason → OrderError
  order_not_found : ℕ → OrderError
  illegal_order_transition : OrderStatus → OrderStatus → OrderError
  menu_validation : Reason → OrderError
  idempotency_conflict : Reason → OrderError
  order_concurrency_conflict : Reason → OrderError
  order_forbidden : ℕ → OrderError
  illegal_saga_transition : SagaState → SagaState → OrderError
  saga_concurrency_conflict : ℕ → OrderError
  saga_not_found : ℕ → OrderError
  saga_state_changed : ℕ → SagaState → OrderError
  unique_violation : OrderError
  duplicate_event : ℕ → OrderError
  terminal_saga : SagaState → OrderError
  thrown : ℕ → OrderError

-- The `code` of each class; the others have none.
unfoldable pub code : OrderError → Option String
code (invalid_order_request _) = some "ORDER_INVALID_REQUEST"
code (order_not_found _) = some "ORDER_NOT_FOUND"
code (illegal_order_transition _ _) = some "ORDER_ILLEGAL_TRANSITION"
code (menu_validation _) = some "ORDER_MENU_VALIDATION_FAILED"
code (idempotency_conflict _) = some "ORDER_IDEMPOTENCY_CONFLICT"
code (order_concurrency_conflict _) = some "ORDER_CONCURRENCY_CONFLICT"
code (order_forbidden _) = some "ORDER_FORBIDDEN"
code (illegal_saga_transition _ _) = some "ORDER_SAGA_ILLEGAL_TRANSITION"
code (saga_concurrency_conflict _) = some "ORDER_SAGA_CONCURRENCY_CONFLICT"
code (saga_not_found _) = some "ORDER_SAGA_NOT_FOUND"
code (saga_state_changed _ _) = some "ORDER_SAGA_STATE_CHANGED"
code _ = none

-- The `httpStatus` of each class.
unfoldable pub http_status : OrderError → Option ℕ
http_status (invalid_order_request _) = some 400
http_status (order_not_found _) = some 404
http_status (illegal_order_transition _ _) = some 409
http_status (menu_validation _) = some 422
http_status (idempotency_conflict _) = some 409
http_status (order_concurrency_conflict _) = some 409
http_status (order_forbidden _) = some 403
http_status (illegal_saga_transition _ _) = some 409
http_status (saga_concurrency_conflict _) = some 409
http_status (saga_not_found _) = some 404
http_status (saga_state_changed _ _) = some 409
http_status _ = none
