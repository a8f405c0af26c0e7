-- ===== src/Inventory/Reserve.antt =====
-- `ReserveStockHandler` of
-- apps/inventory/src/application/reservation/commands/reserve-stock.handler.ts. The fresh UUIDs are
-- `mint n` for the n-th line. Whether `withLocks` gets its locks is an argument; where it does not, it
-- throws and does not run the transaction. A call runs here as one step.
pub mod Complete
pub mod Conservation
pub mod Outcome
use food_delivery_api.Common.{
  ℕ, suc, ◌+◌, ◌&&◌, not, Bool, true, false, List, [], ◌∷◌, Option, none, some, map, every, find,
  length, Result, ok, err, Action, ◌>>=◌, ◌>>◌, pure, throw, throw_if, lift, catch,
  run_in_transaction, or_throw, ◌==◌, if◌then◌else◌,
}
use food_delivery_api.Inventory.Errors.{
  InventoryError, insufficient_stock, stock_not_found, idempotency_conflict, unique_violation,
  not_locked,
}
use food_delivery_api.Inventory.Items.{ReserveItem, ItemQty, normalize_items}
use food_delivery_api.Inventory.Store.{
  Stock, Reservation, InventoryDb, InventoryAction, create, find_active_by_order, find_by_item_ids,
  decrement_if_available, save,
}

pub record ReserveStockCommand : Type 0 where
  pub tenant_id : ℕ
  pub order_id : ℕ
  pub items : List ReserveItem

pub record ReserveStockResult : Type 0 where
  pub is_ok : Bool
  pub reservation_ids : List ℕ

-- `localeCompare`, the fresh ids, and whether the locks are not got.
pub record Outside : Type 0 where
  pub precedes : ℕ → ℕ → Bool
  pub mint : ℕ → ℕ
  pub is_contended : Bool

-- `existingByItem.get(id) === qty`: of several entries with one id a `Map` keeps the last.
unfoldable pub holds_qty : List Reservation → ItemQty → Option Bool
holds_qty [] item = none
holds_qty (r ∷ rs) item = elim (holds_qty rs item) [
  | some later ↦ some later
  | none ↦ if r.item_id == item.item_id then some (r.qty == item.qty) else none
]

abbrev pub is_held : List Reservation → ItemQty → Bool
unfolding holds_qty
is_held existing item = elim (holds_qty existing item) [ none ↦ false | some same ↦ same ]

unfoldable pub same_items : List Reservation → List ItemQty → Bool
unfolding holds_qty
same_items existing requested =
    length existing == length requested && every (is_held existing) requested

unfoldable pub assert_replay_matches :
    List Reservation → List ItemQty → ℕ → InventoryAction (Unit {0})
unfolding same_items
assert_replay_matches existing requested order_id =
    throw_if (not (same_items existing requested)) (idempotency_conflict order_id)

-- `if (!stock) throw …`
abbrev stock_of : List Stock → ItemQty → InventoryAction Stock
stock_of stocks item =
    or_throw (find (λ s. s.item_id == item.item_id) stocks) (stock_not_found item.item_id)

-- One round of the loop.
unfoldable pub reserve_line : ℕ → ℕ → List Stock → ℕ → ItemQty → InventoryAction ℕ
unfolding decrement_if_available create save
reserve_line tenant_id order_id stocks id item = do
  stock ← stock_of stocks item
  reserved ← decrement_if_available tenant_id item.item_id item.qty
  throw_if (not reserved) (insufficient_stock item.item_id item.qty stock.available)
  saved ← save (← lift (create id tenant_id order_id item.item_id item.qty))
  pure saved.id

unfoldable pub reserve_lines :
    ℕ → ℕ → List Stock → (ℕ → ℕ) → ℕ → List ItemQty → InventoryAction (List ℕ)
unfolding reserve_line
reserve_lines tenant_id order_id stocks mint n [] = pure []
reserve_lines tenant_id order_id stocks mint n (item ∷ items) = do
  id ← reserve_line tenant_id order_id stocks (mint n) item
  ids ← reserve_lines tenant_id order_id stocks mint (suc n) items
  pure (id ∷ ids)

unfoldable pub reserve_new : Outside → ℕ → ℕ → List ItemQty → InventoryAction (List ℕ)
unfolding find_by_item_ids reserve_lines
reserve_new outside tenant_id order_id items = do
  stocks ← find_by_item_ids tenant_id (map (λ i. i.item_id) items)
  reserve_lines tenant_id order_id stocks outside.mint 0 items

unfoldable pub replay_or_reserve :
    Outside → ℕ → ℕ → List ItemQty → List Reservation → InventoryAction (List ℕ)
unfolding reserve_new assert_replay_matches
replay_or_reserve outside tenant_id order_id items [] = reserve_new outside tenant_id order_id items
replay_or_reserve outside tenant_id order_id items (r ∷ existing) =
    assert_replay_matches (r ∷ existing) items order_id >> pure (map (λ e. e.id) (r ∷ existing))

unfoldable pub reserve_within_transaction :
    Outside → ℕ → ℕ → List ItemQty → InventoryAction (List ℕ)
unfolding find_active_by_order replay_or_reserve
reserve_within_transaction outside tenant_id order_id items = do
  existing ← find_active_by_order tenant_id order_id
  replay_or_reserve outside tenant_id order_id items existing

-- The `catch` clause.
unfoldable pub on_reserve_error : ℕ → InventoryError → InventoryAction ReserveStockResult
on_reserve_error order_id (insufficient_stock _ _ _) =
    pure (record { is_ok = false; reservation_ids = [] })
on_reserve_error order_id (stock_not_found _) =
    pure (record { is_ok = false; reservation_ids = [] })
on_reserve_error order_id unique_violation = throw (idempotency_conflict order_id)
on_reserve_error order_id error = throw error

unfoldable pub reserve_items : Outside → ℕ → ℕ → List ItemQty → InventoryAction ReserveStockResult
unfolding reserve_within_transaction on_reserve_error
reserve_items outside tenant_id order_id items =
    catch
      (do
        ids ← run_in_transaction (reserve_within_transaction outside tenant_id order_id items)
        pure (record { is_ok = true; reservation_ids = ids }))
      (on_reserve_error order_id)

-- `this.lock.withLocks(keys, ttl, fn)`
abbrev pub with_locks : {A : Type 0} → Bool → InventoryAction A → InventoryAction A
with_locks true fn = throw not_locked
with_locks false fn = fn

unfoldable pub reserve_stock : Outside → ReserveStockCommand → InventoryAction ReserveStockResult
unfolding reserve_items
reserve_stock outside command = do
  items ← lift (normalize_items outside.precedes command.items)
  with_locks outside.is_contended (reserve_items outside command.tenant_id command.order_id items)
