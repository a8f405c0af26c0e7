-- ===== src/Inventory/Tests.antt =====
-- Runs of the inventory service on a small store, and the theorems at these runs.
use food_delivery_api.Common.{◌≡◌, ◌⊎◌, refl, [], ◌∷◌, ok, err, true, false, ltb, ◌+◌, keep}
use food_delivery_api.Common.Int.{pos}
use food_delivery_api.Common.Number.{int}
use food_delivery_api.Inventory.Items.{normalize_items}
use food_delivery_api.Inventory.Errors.{not_locked}
use food_delivery_api.Inventory.Store.{create, InventoryDb, is_active_of, mark_processed}
use food_delivery_api.Inventory.Reserve.{Outside, ReserveStockCommand, reserve_stock}
use food_delivery_api.Inventory.Commands.{
  Envelope, reserve, release, run_effect, handle_command, stock_reservation_failed_reply,
  stock_reserved_reply,
}
use food_delivery_api.Inventory.Release.{release_stock}
use food_delivery_api.Inventory.Release.Twice.{release_stock_twice}
use food_delivery_api.Inventory.Units.{units, held, IsKeyed}
use food_delivery_api.Inventory.Reserve.Conservation.{reserve_stock_conserves}

abbrev shelf : InventoryDb
shelf = record {
  stock =
      record { tenant_id = 1; item_id = 7; available = 5 }
      ∷ record { tenant_id = 1; item_id = 8; available = 1 }
      ∷ [];
  reservations = [];
  outbox = [];
  processed_events = [];
}

abbrev outside : Outside
outside = record { precedes = ltb; mint = λ n. 100 + n; is_contended = false }

abbrev too_many : ReserveStockCommand
too_many = record {
  tenant_id = 1;
  order_id = 11;
  items =
      record { item_id = 8; qty = int (pos 2) } ∷ record { item_id = 7; qty = int (pos 2) } ∷ [];
}

-- The first line fits, the second does not, and nothing stays reserved.
refused :
    reserve_stock outside too_many shelf
    ≡ (ok (record { is_ok = false; reservation_ids = [] }), shelf)
unfolding reserve_stock normalize_items
refused = refl

abbrev two_of_seven : ReserveStockCommand
two_of_seven = record {
  tenant_id = 1;
  order_id = 11;
  items = record { item_id = 7; qty = int (pos 2) } ∷ [];
}

-- Two of the five units on the shelf move to a reservation.
reserved :
    (reserve_stock outside two_of_seven shelf).0
    ≡ ok (record { is_ok = true; reservation_ids = 100 ∷ [] })
unfolding reserve_stock normalize_items create
reserved = refl

reserve_stock_conserves_example :
    IsKeyed (reserve_stock outside two_of_seven shelf).1.stock
    × (units 1 7 (reserve_stock outside two_of_seven shelf).1 ≡ units 1 7 shelf)
reserve_stock_conserves_example =
    reserve_stock_conserves outside two_of_seven shelf 1 7 (refl, (refl, tt))

abbrev held_db : InventoryDb
held_db = (reserve_stock outside two_of_seven shelf).1

release_stock_twice_example :
    let (result, db') = release_stock false 1 11 held_db in
    ((false ≡ true) × (result ≡ err not_locked) × (db' ≡ held_db))
    ⊎ ((result ≡ ok true)
        × (keep (is_active_of 1 11) db'.reservations ≡ [])
        × (release_stock true 1 11 db' ≡ (ok true, db')))
release_stock_twice_example = release_stock_twice false true 1 11 held_db

-- Without its locks a release gives nothing back.
contended : release_stock true 1 11 held_db ≡ (err not_locked, held_db)
unfolding release_stock reserve_stock normalize_items create
contended = refl

abbrev reserve_command : Envelope
reserve_command = record {
  event_id = 1;
  tenant_id = 1;
  correlation_id = 21;
  payload = reserve 11 (record { item_id = 7; qty = int (pos 2) } ∷ []);
}

abbrev release_command : Envelope
release_command = record { event_id = 2; tenant_id = 1; correlation_id = 21; payload = release 11 }

-- The store after the stock was reserved and released again.
abbrev released_db : InventoryDb
released_db =
    (handle_command outside release_command (handle_command outside reserve_command shelf).1).1

-- The first command, delivered once more behind the release: the units are held again, and the
-- saga hears nothing of it.
abbrev later : Outside
later = record { precedes = ltb; mint = λ n. 200 + n; is_contended = false }

abbrev redelivered_db : InventoryDb
redelivered_db = (run_effect later reserve_command released_db).1

held_again : (held 1 7 released_db.reservations ≡ 0) × (held 1 7 redelivered_db.reservations ≡ 2)
unfolding handle_command run_effect normalize_items create mark_processed stock_reserved_reply
    stock_reservation_failed_reply
held_again = (refl, refl)
