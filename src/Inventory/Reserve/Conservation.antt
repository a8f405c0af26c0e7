-- ===== src/Inventory/Reserve/Conservation.antt =====
-- Reserving moves stock from the shelf to reservations, and neither makes nor loses any.
use food_delivery_api.Common.{
  ℕ, ◌≡◌, ◌++◌, List, [], ◌∷◌, true, Result, ok, arith, any, refl, inl, inr, Result-cases,
  Bool-cases, subst, suc, ap, ◌∙◌,
}
use food_delivery_api.Inventory.Store.{InventoryDb, Stock, Reservation, has_available, active}
use food_delivery_api.Inventory.Errors.{InventoryError}
use food_delivery_api.Inventory.Reserve.Outcome.{
  Ended, reserved, refused, threw, reserve_items-Ended,
}
use food_delivery_api.Inventory.Items.{ItemQty, normalize_items}
use food_delivery_api.Inventory.Reserve.{
  Outside, ReserveStockCommand, reserve_line, reserve_lines, reserve_new, replay_or_reserve,
  reserve_within_transaction, reserve_stock, ReserveStockResult,
}
use food_delivery_api.Inventory.Units.{
  units, IsKeyed, Conserved, decremented, decremented-IsKeyed, on_shelf-decremented, held-append,
  Conserved-refl, Conserved-trans,
}

-- The store after one line was reserved.
abbrev pub reserved_line : ℕ → ℕ → ℕ → ItemQty → InventoryDb → InventoryDb
reserved_line t o id item db = record db {
  stock = decremented t item.item_id item.qty db.stock;
  reservations =
      db.reservations
      ++ record {
        id = id;
        tenant_id = t;
        order_id = o;
        item_id = item.item_id;
        qty = item.qty;
        status = active;
      }
        ∷ [];
}

pub reserve_line-ok :
    (t o : ℕ) (stocks : List Stock) (id id' : ℕ) (item : ItemQty) (db db' : InventoryDb)
    → reserve_line t o stocks id item db ≡ (ok id', db')
    → (any (has_available t item.item_id item.qty) db.stock ≡ true)
      × (db' ≡ reserved_line t o id item db)
      × (id' ≡ id)
unfolding reserve_line
reserve_line-ok t o stocks id id' item db db' h = ground arith

reserved_line-units :
    (t o id : ℕ) (item : ItemQty) (db : InventoryDb) (t' i' : ℕ)
    → IsKeyed db.stock
    → any (has_available t item.item_id item.qty) db.stock ≡ true
    → units t' i' (reserved_line t o id item db) ≡ units t' i' db
reserved_line-units t o id item db t' i' keyed enough = ground (
  arith,
  on_shelf-decremented t item.item_id item.qty t' i' db.stock keyed enough,
  held-append t' i' db.reservations (record {
    id = id;
    tenant_id = t;
    order_id = o;
    item_id = item.item_id;
    qty = item.qty;
    status = active;
  }),
)

reserve_line-Conserved :
    (t o : ℕ) (stocks : List Stock) (id id' : ℕ) (item : ItemQty) (db db' : InventoryDb)
    → reserve_line t o stocks id item db ≡ (ok id', db')
    → Conserved db db'
reserve_line-Conserved t o stocks id id' item db db' h keyed =
    let (enough, written, _) = reserve_line-ok t o stocks id id' item db db' h in
    rw written (
      decremented-IsKeyed t item.item_id item.qty db.stock keyed,
      λ t' i'. reserved_line-units t o id item db t' i' keyed enough,
    )

reserve_lines-Conserved :
    (t o : ℕ) (stocks : List Stock) (mint : ℕ → ℕ) (n : ℕ) (items : List ItemQty) (ids : List ℕ)
    (db db' : InventoryDb)
    → reserve_lines t o stocks mint n items db ≡ (ok ids, db')
    → Conserved db db'
unfolding reserve_lines
reserve_lines-Conserved t o stocks mint n [] ids db db' h =
    let same : db ≡ db' = ground arith in subst (Conserved db) same (Conserved-refl db)
reserve_lines-Conserved t o stocks mint n (item ∷ items) ids db db' h =
    let db1 = (reserve_line t o stocks (mint n) item db).1 in
    elim (Result-cases (reserve_line t o stocks (mint n) item db).0) [
      | inl (id, e) ↦ elim (Result-cases (reserve_lines t o stocks mint (suc n) items db1).0) [
        | inl (rest, e1) ↦
            Conserved-trans db db1 db'
              (reserve_line-Conserved t o stocks (mint n) id item db db1 (ap (λ r. (r, db1)) e))
              (reserve_lines-Conserved t o stocks mint (suc n) items rest db1 db'
                (ground (arith, e, e1)))
        | inr (bad, e1) ↦ ground (arith, e, e1)
      ]
      | inr (bad, e) ↦ ground (arith, e)
    ]

replay_or_reserve-Conserved :
    (outside : Outside) (t o : ℕ) (items : List ItemQty) (existing : List Reservation)
    (ids : List ℕ) (db db' : InventoryDb)
    → replay_or_reserve outside t o items existing db ≡ (ok ids, db')
    → Conserved db db'
unfolding replay_or_reserve reserve_new
replay_or_reserve-Conserved outside t o items [] ids db db' h =
    reserve_lines-Conserved t o _ outside.mint 0 items ids db db' h
replay_or_reserve-Conserved outside t o items (r ∷ existing) ids db db' h =
    let same : db ≡ db' = ground arith in subst (Conserved db) same (Conserved-refl db)

reserve_items-Conserved :
    (outside : Outside) (t o : ℕ) (items : List ItemQty) (db : InventoryDb)
    (run : Result InventoryError ReserveStockResult × InventoryDb)
    (ended : Result InventoryError (List ℕ)) (after : InventoryDb)
    → reserve_within_transaction outside t o items db ≡ (ended, after)
    → Ended o db after ended run
    → Conserved db run.1
unfolding reserve_within_transaction
reserve_items-Conserved outside t o items db _ ended after h (reserved ids e) =
    replay_or_reserve-Conserved outside t o items _ ids db after (h ∙ ap (λ r. (r, after)) e)
reserve_items-Conserved outside t o items db _ ended after h refused = Conserved-refl db
reserve_items-Conserved outside t o items db _ ended after h (threw e) = Conserved-refl db

reserve_stock-Conserved :
    (outside : Outside) (c : ReserveStockCommand) (db : InventoryDb)
    → Conserved db (reserve_stock outside c db).1
unfolding reserve_stock
reserve_stock-Conserved outside c db =
    elim (Result-cases (normalize_items outside.precedes c.items)) [
      | inr (bad, e) ↦ rw e (Conserved-refl db)
      | inl (items, e) ↦ elim (Bool-cases outside.is_contended) [
        | inl n ↦ rw (e, n) (Conserved-refl db)
        | inr n ↦
            rw (e, n)
              (reserve_items-Conserved outside c.tenant_id c.order_id items db _ _ _ refl
                (reserve_items-Ended outside c.tenant_id c.order_id items db _ _ refl))
      ]
    ]

-- Where no two rows of the stock have one tenant and item, a reservation request, whatever it ends
-- with, keeps for every tenant and item the sum of the units on the shelf and of those that active
-- reservations hold, and leaves the stock without such rows.
pub reserve_stock_conserves :
    (outside : Outside) (c : ReserveStockCommand) (db : InventoryDb) (t i : ℕ)
    → IsKeyed db.stock
    → IsKeyed (reserve_stock outside c db).1.stock
      × (units t i (reserve_stock outside c db).1 ≡ units t i db)
reserve_stock_conserves outside c db t i keyed =
    let (kept, same) = reserve_stock-Conserved outside c db keyed in (kept, same t i)
