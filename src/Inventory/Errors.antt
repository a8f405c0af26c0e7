-- ===== src/Inventory/Errors.antt =====
-- apps/inventory/src/domain/shared/errors.ts, and the other errors that a command may throw: a
-- reservation that `Reservation.create` refuses, a unique violation of Postgres (code 23505),
-- `DuplicateEventError`, an unknown type of command, and whatever `withLocks` throws where it does not
-- get its locks: a contention, or the error of a Redis command.
use food_delivery_api.Common.{ℕ, String, Option, none, some}

pub data Reason : Type 0 where
  no_items : Reason
  not_positive : ℕ → Reason

pub data InventoryError : Type 0 where
  insufficient_stock : ℕ → ℕ → ℕ → InventoryError
  stock_not_found : ℕ → InventoryError
  invalid_reserve_request : Reason → InventoryError
  idempotency_conflict : ℕ → InventoryError
  invalid_reservation : InventoryError
  unique_violation : InventoryError
  duplicate_event : ℕ → InventoryError
  unknown_command : ℕ → InventoryError
  not_locked : InventoryError

-- The `code` of each class; the others have none.
unfoldable pub code : InventoryError → Option String
code (insufficient_stock _ _ _) = some "INVENTORY_INSUFFICIENT_STOCK"
code (stock_not_found _) = some "INVENTORY_STOCK_NOT_FOUND"
code (invalid_reserve_request _) = some "INVENTORY_INVALID_RESERVE_REQUEST"
code (idempotency_conflict _) = some "INVENTORY_IDEMPOTENCY_CONFLICT"
code _ = none

-- The `httpStatus` of each class.
unfoldable pub http_status : InventoryError → Option ℕ
http_status (insufficient_stock _ _ _) = some 409
http_status (stock_not_found _) = some 404
http_status (invalid_reserve_request _) = some 400
http_status (idempotency_conflict _) = some 409
http_status _ = none
