-- ===== src/Inventory/Reserve/Outcome.antt =====
-- How a reservation request that got its locks ends.
use food_delivery_api.Common.{ℕ, ◌≡◌, Result, ok, err, true, false, arith, List, [], refl, subst}
use food_delivery_api.Inventory.Errors.{
  InventoryError, insufficient_stock, stock_not_found, unique_violation, idempotency_conflict,
}
use food_delivery_api.Inventory.Items.{ItemQty}
use food_delivery_api.Inventory.Store.{InventoryDb}
use food_delivery_api.Inventory.Reserve.{
  Outside, ReserveStockResult, reserve_within_transaction, on_reserve_error, reserve_items,
}

-- What the handler makes of the transaction's end.
pub data Ended (order_id : ℕ) (before after : InventoryDb) (ended : Result InventoryError (List ℕ))
    : Result InventoryError ReserveStockResult × InventoryDb → Type 0 where
  reserved :
      (ids : List ℕ)
      → ended ≡ ok ids
      → Ended order_id before after ended
          (ok (record { is_ok = true; reservation_ids = ids }), after)
  refused :
      Ended order_id before after ended
        (ok (record { is_ok = false; reservation_ids = [] }), before)
  threw : (e : InventoryError) → Ended order_id before after ended (err e, before)

on_reserve_error-Ended :
    (order_id : ℕ) (before after : InventoryDb) (e : InventoryError)
    → Ended order_id before after (err e) (on_reserve_error order_id e before)
unfolding on_reserve_error
on_reserve_error-Ended order_id before after (insufficient_stock _ _ _) = refused
on_reserve_error-Ended order_id before after (stock_not_found _) = refused
on_reserve_error-Ended order_id before after unique_violation =
    threw (idempotency_conflict order_id)
on_reserve_error-Ended order_id before after (InventoryError.invalid_reserve_request r) =
    threw (InventoryError.invalid_reserve_request r)
on_reserve_error-Ended order_id before after (idempotency_conflict i) =
    threw (idempotency_conflict i)
on_reserve_error-Ended order_id before after InventoryError.invalid_reservation =
    threw InventoryError.invalid_reservation
on_reserve_error-Ended order_id before after (InventoryError.duplicate_event i) =
    threw (InventoryError.duplicate_event i)
on_reserve_error-Ended order_id before after (InventoryError.unknown_command i) =
    threw (InventoryError.unknown_command i)
on_reserve_error-Ended order_id before after InventoryError.not_locked =
    threw InventoryError.not_locked

pub reserve_items-Ended :
    (outside : Outside) (t i : ℕ) (items : List ItemQty) (db after : InventoryDb)
    (ended : Result InventoryError (List ℕ))
    → reserve_within_transaction outside t i items db ≡ (ended, after)
    → Ended i db after ended (reserve_items outside t i items db)
unfolding reserve_items
reserve_items-Ended outside t i items db after (ok ids) h =
    subst (Ended i db after (ok ids)) (ground (arith, h)) (reserved ids refl)
reserve_items-Ended outside t i items db after (err e) h =
    subst (Ended i db after (err e)) (ground (arith, h)) (on_reserve_error-Ended i db after e)
