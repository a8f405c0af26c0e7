-- ===== src/Inventory/Items.antt =====
-- The lines of a reservation request: `normalizeItems` and `assertReplayMatches` of
-- apps/inventory/src/application/reservation/commands/reserve-stock.handler.ts. The order of ids
-- that `localeCompare` stands for is an argument, `precedes a b` for `a.localeCompare(b) < 0`; the
-- sort is stable, as the language asks.
use food_delivery_api.Common.{
  ℕ, ◌+◌, Bool, not, ◌||◌, List, [], ◌∷◌, Result, ok, length, ◌==◌, if◌then◌else◌,
}
use food_delivery_api.Common.Int.{pos}
use food_delivery_api.Common.Number.{Number, is_integer, at_most, to_nat}
use food_delivery_api.Common.Throws.{◌>>=◌, ◌>>◌, throw_if}
use food_delivery_api.Inventory.Errors.{
  InventoryError, no_items, not_positive, invalid_reserve_request,
}

pub record ReserveItem : Type 0 where
  pub item_id : ℕ
  pub qty : Number

-- A line whose quantity passed its check.
pub record ItemQty : Type 0 where
  pub item_id : ℕ
  pub qty : ℕ

-- `byItem.set(id, (byItem.get(id) ?? 0) + qty)`: a `Map` keeps the place of a key it has.
unfoldable pub add_qty : List ItemQty → ℕ → ℕ → List ItemQty
add_qty [] id qty = record { item_id = id; qty = qty } ∷ []
add_qty (x ∷ xs) id qty =
    if x.item_id == id then record x { qty = x.qty + qty } ∷ xs else x ∷ add_qty xs id qty

-- The loop over the request, from the entries so far.
unfoldable pub collect_items :
    List ItemQty → List ReserveItem → Result InventoryError (List ItemQty)
unfolding add_qty
collect_items by_item [] = ok by_item
collect_items by_item (item ∷ items) = do
  throw_if (not (is_integer item.qty) || at_most item.qty (pos 0))
      (invalid_reserve_request (not_positive item.item_id))
  collect_items (add_qty by_item item.item_id (to_nat item.qty)) items

unfoldable pub insert_item : (ℕ → ℕ → Bool) → ItemQty → List ItemQty → List ItemQty
insert_item precedes item [] = item ∷ []
insert_item precedes item (x ∷ xs) =
    if precedes x.item_id item.item_id then x ∷ insert_item precedes item xs else item ∷ x ∷ xs

unfoldable pub sort_items : (ℕ → ℕ → Bool) → List ItemQty → List ItemQty
unfolding insert_item
sort_items precedes [] = []
sort_items precedes (x ∷ xs) = insert_item precedes x (sort_items precedes xs)

unfoldable pub normalize_items :
    (ℕ → ℕ → Bool) → List ReserveItem → Result InventoryError (List ItemQty)
unfolding collect_items sort_items
normalize_items precedes items = do
  throw_if (length items == 0) (invalid_reserve_request no_items)
  by_item ← collect_items [] items
  ok (sort_items precedes by_item)
