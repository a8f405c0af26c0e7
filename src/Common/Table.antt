-- ===== src/Common/Table.antt =====
-- Rows of a database table in insertion order: `findOne` is the first row that a condition
-- selects, `UPDATE … SET … WHERE` rewrites every selected row and reports whether any was.
use mathlib.Core.Bool.{Bool, true, false}
use mathlib.Core.List.{List, [], ◌∷◌, ◌++◌}
use mathlib.Core.Option.{Option, none, some}
use mathlib.Core.Path.{◌≡◌, refl}
use native.Mathlib.Omega.{arith}
use food_delivery_api.Common.Tests.{if◌then◌else◌}
use food_delivery_api.Common.Lists.{find, any}

module _ {ℓ} {R : Type ℓ} where
  abbrev pub update_where : (R → Bool) → (R → R) → List R → List R
  update_where selects set [] = []
  update_where selects set (r ∷ rows) =
      (if selects r then set r else r) ∷ update_where selects set rows

  abbrev pub touch : (R → Bool) → (R → R) → Option R → Option R
  touch selects set none = none
  touch selects set (some r) = some (if selects r then set r else r)

  -- An update that keeps the columns of a lookup is seen by that lookup on the row it finds.
  pub find-update_where :
      (wanted selects : R → Bool) (set : R → R)
      → ((r : R) → wanted (set r) ≡ wanted r)
      → (rows : List R)
      → find wanted (update_where selects set rows) ≡ touch selects set (find wanted rows)
  find-update_where wanted selects set keeps [] = refl
  find-update_where wanted selects set keeps (r ∷ rows) =
      ground (arith, keeps r, find-update_where wanted selects set keeps rows)

  -- An update that selects no row changes none.
  pub update_where-none :
      (selects : R → Bool) (set : R → R) (rows : List R)
      → any selects rows ≡ false
      → update_where selects set rows ≡ rows
  update_where-none selects set [] n = refl
  update_where-none selects set (r ∷ rows) n = ground (arith, update_where-none selects set rows)

  -- The row that a lookup finds passes its test.
  pub find_passes :
      (wanted : R → Bool) (rows : List R) (r : R) → find wanted rows ≡ some r → wanted r ≡ true
  find_passes wanted [] r h = ground arith
  find_passes wanted (x ∷ rows) r h = ground (arith, find_passes wanted rows r)

  -- A selected row that a lookup finds makes the update affect some row.
  pub any_of_find :
      (wanted selects : R → Bool) (rows : List R) (r : R)
      → find wanted rows ≡ some r
      → selects r ≡ true
      → any selects rows ≡ true
  any_of_find wanted selects [] r h s = ground arith
  any_of_find wanted selects (x ∷ rows) r h s = ground (arith, any_of_find wanted selects rows r)

  -- Where no row passes, a lookup finds none.
  pub find_of_any-none :
      (wanted : R → Bool) (rows : List R) → any wanted rows ≡ false → find wanted rows ≡ none
  find_of_any-none wanted [] n = refl
  find_of_any-none wanted (r ∷ rows) n = ground (arith, find_of_any-none wanted rows)

  -- Appended rows are found behind the others.
  pub find-append :
      (wanted : R → Bool) (rows more : List R) (r : R)
      → find wanted rows ≡ some r
      → find wanted (rows ++ more) ≡ some r
  find-append wanted [] more r h = ground arith
  find-append wanted (x ∷ rows) more r h = ground (arith, find-append wanted rows more r)

  pub find-append_none :
      (wanted : R → Bool) (rows more : List R)
      → find wanted rows ≡ none
      → find wanted (rows ++ more) ≡ find wanted more
  find-append_none wanted [] more h = refl
  find-append_none wanted (x ∷ rows) more h = ground (arith, find-append_none wanted rows more)

  -- Where the update leaves no row that it would select, a second such update affects none.
  pub any-update_where_self :
      (selects : R → Bool) (set : R → R)
      → ((r : R) → selects r ≡ true → selects (set r) ≡ false)
      → (rows : List R) → any selects (update_where selects set rows) ≡ false
  any-update_where_self selects set leaves [] = refl
  any-update_where_self selects set leaves (r ∷ rows) =
      ground (arith, leaves r, any-update_where_self selects set leaves rows)
