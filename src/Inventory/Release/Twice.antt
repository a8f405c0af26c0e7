-- ===== src/Inventory/Release/Twice.antt =====
-- A release leaves no active reservation of its order.
use food_delivery_api.Common.{
  ℕ, ◌≡◌, ◌||◌, not, List, [], ◌∷◌, Bool, true, any, every, keep, arith, ok, err, refl, ap, ◌⊎◌,
  ◌==◌, inl, inr, List-cases, Bool-cases,
}
use food_delivery_api.Common.Table.{update_where}
use food_delivery_api.Inventory.Errors.{not_locked}
use food_delivery_api.Inventory.Store.{
  InventoryDb, Reservation, is_active_of, is_active_id, released, find_active_by_order,
}
use food_delivery_api.Inventory.Release.{
  release_reservation, release_all, release_within_transaction, release_stock,
}

module _ (t o : ℕ) where
  -- An active reservation of the order is one of a list.
  abbrev is_within : List Reservation → Reservation → Bool
  is_within current row = not (is_active_of t o row) || any (λ r. r.id == row.id) current

  within_weaken :
      (x : Reservation) (current rows : List Reservation)
      → every (is_within current) rows ≡ true
      → every (is_within (x ∷ current)) rows ≡ true
  within_weaken x current [] h = refl
  within_weaken x current (row ∷ rows) h = ground (arith, within_weaken x current rows)

  within_all :
      (rows : List Reservation) → every (is_within (keep (is_active_of t o) rows)) rows ≡ true
  within_all [] = refl
  within_all (row ∷ rows) =
      ground (arith, within_all rows, within_weaken row (keep (is_active_of t o) rows) rows)

  within_released :
      (r : Reservation) (current rows : List Reservation)
      → every (is_within (r ∷ current)) rows ≡ true
      → every
          (is_within current)
          (update_where (is_active_id r.id) (λ row. record row { status = released }) rows)
        ≡ true
  within_released r current [] h = refl
  within_released r current (row ∷ rows) h = ground (arith, within_released r current rows)

  within_none :
      (rows : List Reservation)
      → every (is_within []) rows ≡ true
      → keep (is_active_of t o) rows ≡ []
  within_none [] h = refl
  within_none (row ∷ rows) h = ground (arith, within_none rows)

  release_reservation-reservations :
      (r : Reservation) (db : InventoryDb)
      → ((release_reservation t r db).0 ≡ ok tt)
        × ((release_reservation t r db).1.reservations
            ≡ update_where
                (is_active_id r.id)
                (λ row. record row { status = released })
                db.reservations)
  unfolding release_reservation
  release_reservation-reservations r db =
      elim (Bool-cases (any (is_active_id r.id) db.reservations)) [
        | inl e ↦ (ground (arith, e), ground (arith, e))
        | inr e ↦ (ground (arith, e), ground (arith, e))
      ]

  release_all-releases :
      (current : List Reservation) (db : InventoryDb)
      → every (is_within current) db.reservations ≡ true
      → ((release_all t current db).0 ≡ ok tt)
        × (keep (is_active_of t o) (release_all t current db).1.reservations ≡ [])
  unfolding release_all
  release_all-releases [] db h = (refl, within_none db.reservations h)
  release_all-releases (r ∷ current) db h =
      let (returned, rows) = release_reservation-reservations r db in
      let rest =
        release_all-releases current (release_reservation t r db).1
          (ground (arith, rows, within_released r current db.reservations h)) in
      (ground (arith, returned, rest), ground (arith, returned, rest))

  release_stock-releases :
      (contended : Bool) (db : InventoryDb)
      → ((contended ≡ true) × (release_stock contended t o db ≡ (err not_locked, db)))
        ⊎ (((release_stock contended t o db).0 ≡ ok true)
            × (keep (is_active_of t o) (release_stock contended t o db).1.reservations ≡ []))
  unfolding release_stock release_within_transaction find_active_by_order
  release_stock-releases contended db =
      let all =
        release_all-releases (keep (is_active_of t o) db.reservations) db
          (within_all db.reservations) in
      elim (List-cases (keep (is_active_of t o) db.reservations)) [
        | inl e ↦ inr (ground (arith, e), ground (arith, e))
        | inr (r, rest, e) ↦ elim (Bool-cases contended) [
          | inl c ↦ inl (c, ground (arith, e, c))
          | inr c ↦ inr (ground (arith, e, c, all), ground (arith, e, c, all))
        ]
      ]

-- A release that does not get its locks throws and changes nothing. Any other release returns and
-- leaves no active reservation of its order, so that a second release, whether locks can be got or
-- not, returns as well and changes nothing.
pub release_stock_twice :
    (contended again : Bool) (t o : ℕ) (db : InventoryDb)
    → let (result, db') = release_stock contended t o db in
      ((contended ≡ true) × (result ≡ err not_locked) × (db' ≡ db))
      ⊎ ((result ≡ ok true)
          × (keep (is_active_of t o) db'.reservations ≡ [])
          × (release_stock again t o db' ≡ (ok true, db')))
unfolding release_stock find_active_by_order
release_stock_twice contended again t o db = elim (release_stock-releases t o contended db) [
  | inl (c, h) ↦ inl (c, ap (λ r. r.0) h, ap (λ r. r.1) h)
  | inr (returned, none_left) ↦ inr (returned, none_left, ground (arith, none_left))
]
