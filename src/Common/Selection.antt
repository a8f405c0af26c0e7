-- ===== src/Common/Selection.antt =====
-- `SELECT … WHERE … ORDER BY … LIMIT`, on lists of rows: sorting by a number, taking a prefix and
-- counting.
use mathlib.Core.Bool.{Bool, true, false, ◌&&◌, ◌||◌}
use mathlib.Core.List.{List, [], ◌∷◌}
use mathlib.Core.Path.{◌≡◌, refl}
use native.Mathlib.Omega.{arith}
use Prim.Native.Nat.{ℕ, zero, suc, ◌≤◌, ◌<◌}
use food_delivery_api.Common.Tests.{if◌then◌else◌, leb}
use food_delivery_api.Common.Lists.{length, keep, any, every}
use food_delivery_api.Common.Table.{update_where}

module _ {ℓ} {R : Type ℓ} where
  -- `LIMIT n`
  abbrev pub take : ℕ → List R → List R
  take zero rows = []
  take (suc n) [] = []
  take (suc n) (r ∷ rows) = r ∷ take n rows

  abbrev pub count : (R → Bool) → List R → ℕ
  count test [] = 0
  count test (r ∷ rows) = if test r then suc (count test rows) else count test rows

  abbrev pub insert_by : (R → ℕ) → R → List R → List R
  insert_by key r [] = r ∷ []
  insert_by key r (x ∷ rows) =
      if leb (key r) (key x) then r ∷ x ∷ rows else x ∷ insert_by key r rows

  -- `ORDER BY key ASC`; rows with the same key keep their order.
  abbrev pub sort_by : (R → ℕ) → List R → List R
  sort_by key [] = []
  sort_by key (r ∷ rows) = insert_by key r (sort_by key rows)

  -- No row stands before one with a smaller key.
  abbrev pub is_sorted_by : (R → ℕ) → List R → Bool
  is_sorted_by key [] = true
  is_sorted_by key (r ∷ rows) = every (λ x. leb (key r) (key x)) rows && is_sorted_by key rows

  any-insert_by :
      (test : R → Bool) (key : R → ℕ) (r : R) (rows : List R)
      → any test (insert_by key r rows) ≡ (test r || any test rows)
  any-insert_by test key r [] = refl
  any-insert_by test key r (x ∷ rows) = ground (arith, any-insert_by test key r rows)

  pub any-sort_by :
      (test : R → Bool) (key : R → ℕ) (rows : List R) → any test (sort_by key rows) ≡ any test rows
  any-sort_by test key [] = refl
  any-sort_by test key (r ∷ rows) =
      ground (arith, any-insert_by test key r (sort_by key rows), any-sort_by test key rows)

  every-insert_by :
      (test : R → Bool) (key : R → ℕ) (r : R) (rows : List R)
      → every test (insert_by key r rows) ≡ (test r && every test rows)
  every-insert_by test key r [] = refl
  every-insert_by test key r (x ∷ rows) = ground (arith, every-insert_by test key r rows)

  -- A key below the first key is below all keys of a sorted list.
  every-leb_trans :
      (key : R → ℕ) (a b : ℕ) (rows : List R)
      → leb a b ≡ true
      → every (λ x. leb b (key x)) rows ≡ true
      → every (λ x. leb a (key x)) rows ≡ true
  every-leb_trans key a b [] le h = refl
  every-leb_trans key a b (x ∷ rows) le h = ground (arith, every-leb_trans key a b rows)

  insert_by-sorted :
      (key : R → ℕ) (r : R) (rows : List R)
      → is_sorted_by key rows ≡ true
      → is_sorted_by key (insert_by key r rows) ≡ true
  insert_by-sorted key r [] h = refl
  insert_by-sorted key r (x ∷ rows) h = ground (
    arith,
    insert_by-sorted key r rows,
    every-insert_by (λ y. leb (key x) (key y)) key r rows,
    every-leb_trans key (key r) (key x) rows,
  )

  pub sort_by-sorted : (key : R → ℕ) (rows : List R) → is_sorted_by key (sort_by key rows) ≡ true
  sort_by-sorted key [] = refl
  sort_by-sorted key (r ∷ rows) =
      insert_by-sorted key r (sort_by key rows) (sort_by-sorted key rows)

  every-take :
      (test : R → Bool) (n : ℕ) (rows : List R)
      → every test rows ≡ true
      → every test (take n rows) ≡ true
  every-take test zero rows h = refl
  every-take test (suc n) [] h = refl
  every-take test (suc n) (r ∷ rows) h = ground (arith, every-take test n rows)

  pub take-sorted :
      (key : R → ℕ) (n : ℕ) (rows : List R)
      → is_sorted_by key rows ≡ true
      → is_sorted_by key (take n rows) ≡ true
  take-sorted key zero rows h = refl
  take-sorted key (suc n) [] h = refl
  take-sorted key (suc n) (r ∷ rows) h =
      ground (arith, take-sorted key n rows, every-take (λ x. leb (key r) (key x)) n rows)

  pub length-take-le : (n : ℕ) (rows : List R) → length (take n rows) ≤ n
  length-take-le zero rows = omega arith
  length-take-le (suc n) [] = omega arith
  length-take-le (suc n) (r ∷ rows) = omega (arith, length-take-le n rows)

  -- A test that some row of a prefix passes is passed by some row of the whole.
  pub any-take :
      (test : R → Bool) (n : ℕ) (rows : List R)
      → any test (take n rows) ≡ true
      → any test rows ≡ true
  any-take test zero rows h = ground arith
  any-take test (suc n) [] h = ground arith
  any-take test (suc n) (r ∷ rows) h = ground (arith, any-take test n rows)

  pub any-keep :
      (test chosen : R → Bool) (rows : List R)
      → any test (keep chosen rows) ≡ any (λ r. chosen r && test r) rows
  any-keep test chosen [] = refl
  any-keep test chosen (r ∷ rows) = ground (arith, any-keep test chosen rows)

  pub any-weaken :
      (test weaker : R → Bool)
      → ((r : R) → test r ≡ true → weaker r ≡ true)
      → (rows : List R) → any test rows ≡ true
      → any weaker rows ≡ true
  any-weaken test weaker h [] p = p
  any-weaken test weaker h (r ∷ rows) p = ground (arith, h r, any-weaken test weaker h rows)

  pub count-zero : (test : R → Bool) (rows : List R) → any test rows ≡ false → count test rows ≡ 0
  count-zero test [] h = refl
  count-zero test (r ∷ rows) h = ground (arith, count-zero test rows)

  pub any_of_count_zero :
      (test : R → Bool) (rows : List R) → count test rows ≤ 0 → any test rows ≡ false
  any_of_count_zero test [] h = refl
  any_of_count_zero test (r ∷ rows) h = ground (arith, any_of_count_zero test rows)

  pub count-update_where-le :
      (test selects : R → Bool) (set : R → R)
      → ((r : R) → selects r ≡ true → test (set r) ≡ false)
      → (rows : List R) → count test (update_where selects set rows) ≤ count test rows
  count-update_where-le test selects set leaves [] = omega arith
  count-update_where-le test selects set leaves (r ∷ rows) =
      ground (arith, leaves r, count-update_where-le test selects set leaves rows)

  -- An update that takes every row it selects out of the count makes the count smaller, if it
  -- selects any.
  pub count-update_where-lt :
      (test selects : R → Bool) (set : R → R)
      → ((r : R) → selects r ≡ true → test r ≡ true)
      → ((r : R) → selects r ≡ true → test (set r) ≡ false)
      → (rows : List R) → any selects rows ≡ true
      → count test (update_where selects set rows) < count test rows
  count-update_where-lt test selects set counted leaves [] h = ground arith
  count-update_where-lt test selects set counted leaves (r ∷ rows) h = ground (
    arith,
    counted r,
    leaves r,
    count-update_where-lt test selects set counted leaves rows,
    count-update_where-le test selects set leaves rows,
  )
