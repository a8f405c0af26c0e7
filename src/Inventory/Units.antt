-- ===== src/Inventory/Units.antt =====
-- The units of an item, on the shelf and in reservations, and stores that have as many of each.
use food_delivery_api.Common.{
  ℕ, ◌+◌, ◌-◌, ◌≡◌, ◌&&◌, ◌++◌, List, [], ◌∷◌, Bool, true, false, arith, any, sum_of, if◌then◌else◌,
  ◌==◌, refl, inl, inr, Bool-cases, ◌∙◌,
}
use food_delivery_api.Common.Table.{update_where}
use food_delivery_api.Inventory.Store.{
  InventoryDb, Stock, Reservation, is_stock, has_available, is_active,
}

-- The units of an item that are for sale.
abbrev pub on_shelf : ℕ → ℕ → List Stock → ℕ
on_shelf t i rows = sum_of (λ s. if is_stock t i s then s.available else 0) rows

abbrev pub holds : ℕ → ℕ → Reservation → Bool
holds t i r = is_active r.status && r.tenant_id == t && r.item_id == i

-- The units of an item that active reservations hold.
abbrev pub held : ℕ → ℕ → List Reservation → ℕ
held t i rows = sum_of (λ r. if holds t i r then r.qty else 0) rows

abbrev pub units : ℕ → ℕ → InventoryDb → ℕ
units t i db = on_shelf t i db.stock + held t i db.reservations

-- The primary key of `stock`: no two rows are of one tenant and item.
abbrev pub IsKeyed : List Stock → Type 0
IsKeyed [] = Unit
IsKeyed (s ∷ rows) = (any (is_stock s.tenant_id s.item_id) rows ≡ false) × IsKeyed rows

abbrev pub decremented : ℕ → ℕ → ℕ → List Stock → List Stock
decremented t i q rows =
    update_where (has_available t i q) (λ row. record row { available = row.available - q }) rows

any-decremented :
    (t i q t' i' : ℕ) (rows : List Stock)
    → any (is_stock t' i') (decremented t i q rows) ≡ any (is_stock t' i') rows
any-decremented t i q t' i' [] = refl
any-decremented t i q t' i' (s ∷ rows) = ground (arith, any-decremented t i q t' i' rows)

pub decremented-IsKeyed :
    (t i q : ℕ) (rows : List Stock) → IsKeyed rows → IsKeyed (decremented t i q rows)
decremented-IsKeyed t i q [] k = tt
decremented-IsKeyed t i q (s ∷ rows) (alone, k) = (
  ground (arith, any-decremented t i q s.tenant_id s.item_id rows),
  decremented-IsKeyed t i q rows k,
)

-- Where no row has the key, nothing is decremented.
decremented_none :
    (t i q : ℕ) (rows : List Stock)
    → any (is_stock t i) rows ≡ false
    → decremented t i q rows ≡ rows
decremented_none t i q [] h = refl
decremented_none t i q (s ∷ rows) h = ground (arith, decremented_none t i q rows)

pub on_shelf-decremented :
    (t i q t' i' : ℕ) (rows : List Stock)
    → IsKeyed rows
    → any (has_available t i q) rows ≡ true
    → on_shelf t' i' (decremented t i q rows) + (if t == t' && i == i' then q else 0)
      ≡ on_shelf t' i' rows
on_shelf-decremented t i q t' i' [] k h = ground arith
on_shelf-decremented t i q t' i' (s ∷ rows) (alone, k) h =
    elim (Bool-cases (has_available t i q s)) [
      | inl here ↦ ground (arith, here, decremented_none t i q rows)
      | inr there ↦ ground (arith, there, on_shelf-decremented t i q t' i' rows k)
    ]

pub held-append :
    (t i : ℕ) (rows : List Reservation) (r : Reservation)
    → held t i (rows ++ r ∷ []) ≡ held t i rows + (if holds t i r then r.qty else 0)
held-append t i [] r = omega arith
held-append t i (x ∷ rows) r = omega (arith, held-append t i rows r)

-- A store with keyed stock became one with keyed stock and as many units of each item.
abbrev pub Conserved : InventoryDb → InventoryDb → Type 0
Conserved db db' = IsKeyed db.stock → IsKeyed db'.stock × ((t i : ℕ) → units t i db' ≡ units t i db)

pub Conserved-refl : (db : InventoryDb) → Conserved db db
Conserved-refl db keyed = (keyed, λ t i. refl)

pub Conserved-trans :
    (db db1 db2 : InventoryDb) → Conserved db db1 → Conserved db1 db2 → Conserved db db2
Conserved-trans db db1 db2 first second keyed =
    let (keyed1, same1) = first keyed in
    let (keyed2, same2) = second keyed1 in (keyed2, λ t i. same2 t i ∙ same1 t i)
