-- ===== src/Inventory/Release.antt =====
-- `ReleaseStockHandler` of
-- apps/inventory/src/application/reservation/commands/release-stock.handler.ts. Whether
-- `withLocks` gets its locks is an argument; where it does not, it throws and does not run the
-- transaction. A call runs here as one step.
pub mod Twice
use food_delivery_api.Common.{
  ℕ, Bool, true, false, List, [], ◌∷◌, ◌>>=◌, ◌>>◌, pure, run_in_transaction,
}
use food_delivery_api.Inventory.Reserve.{with_locks}
use food_delivery_api.Inventory.Store.{
  Reservation, InventoryAction, find_active_by_order, release_if_active, increase_available,
}

abbrev give_back : ℕ → Reservation → Bool → InventoryAction (Unit {0})
unfolding increase_available
give_back tenant_id r true = increase_available tenant_id r.item_id r.qty
give_back tenant_id r false = pure tt

-- One round of the loop.
unfoldable pub release_reservation : ℕ → Reservation → InventoryAction (Unit {0})
unfolding release_if_active increase_available
release_reservation tenant_id r = do released ← release_if_active r; give_back tenant_id r released

unfoldable pub release_all : ℕ → List Reservation → InventoryAction (Unit {0})
unfolding release_reservation
release_all tenant_id [] = pure tt
release_all tenant_id (r ∷ current) = do
  release_reservation tenant_id r
  release_all tenant_id current

-- An order with no active reservation ends the call at once; the loop over no rows is the same.
unfoldable pub release_within_transaction : ℕ → ℕ → InventoryAction (Unit {0})
unfolding find_active_by_order release_all
release_within_transaction tenant_id order_id = do
  current ← find_active_by_order tenant_id order_id
  release_all tenant_id current

abbrev release_if_any : Bool → ℕ → ℕ → List Reservation → InventoryAction Bool
unfolding release_within_transaction
release_if_any contended tenant_id order_id [] = pure true
release_if_any contended tenant_id order_id (r ∷ active) = do
  with_locks contended (run_in_transaction (release_within_transaction tenant_id order_id))
  pure true

-- The result is `ok`.
unfoldable pub release_stock : Bool → ℕ → ℕ → InventoryAction Bool
unfolding find_active_by_order release_within_transaction
release_stock contended tenant_id order_id = do
  active ← find_active_by_order tenant_id order_id
  release_if_any contended tenant_id order_id active
