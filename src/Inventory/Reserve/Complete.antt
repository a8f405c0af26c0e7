-- ===== src/Inventory/Reserve/Complete.antt =====
-- What a reservation request reserves.
use food_delivery_api.Common.{
  ℕ, ◌==◌, ◌&&◌, ◌≡◌, Result, ok, err, Bool, true, false, List, any, every, length,
}
use food_delivery_api.Inventory.Errors.{InventoryError}
use food_delivery_api.Inventory.Items.{ItemQty}
use food_delivery_api.Inventory.Store.{InventoryDb, Reservation, is_active_of}
use food_delivery_api.Inventory.Reserve.{ReserveStockResult}

-- A reservation of the units of a line.
abbrev pub is_for : ItemQty → Reservation → Bool
is_for item r = r.item_id == item.item_id && r.qty == item.qty

-- The order has an active reservation of the units of a line.
abbrev pub is_reserved : ℕ → ℕ → InventoryDb → ItemQty → Bool
is_reserved t o db item = any (λ r. is_active_of t o r && is_for item r) db.reservations

-- The answer says that the stock was reserved.
abbrev pub is_success : Result InventoryError ReserveStockResult → Bool
is_success (ok result) = result.is_ok
is_success (err e) = false

-- The replies and the marks of events are as they were.
abbrev pub Silent : InventoryDb → InventoryDb → Type 0
Silent db db' = (db'.outbox ≡ db.outbox) × (db'.processed_events ≡ db.processed_events)

-- Reservations are added and none is taken away.
abbrev Grows : InventoryDb → InventoryDb → Type 0
Grows db db' =
    (test : Reservation → Bool) → any test db.reservations ≡ true → any test db'.reservations ≡ true

-- What a transaction that returned has done for the lines.
abbrev Reserves : ℕ → ℕ → List ItemQty → List ℕ → InventoryDb → InventoryDb → Type 0
Reserves t o items ids db db' =
    Silent db db' × (length ids ≡ length items) × (every (is_reserved t o db') items ≡ true)
