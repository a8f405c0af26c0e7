-- ===== src/Common/Keys.antt =====
-- Tables whose rows have different keys, and what is left of them in a view: the rows that pass a
-- test, each under a projection.
use Prim.Native.Nat.{ℕ}
use mathlib.Core.Bool.{Bool, true, false, not, ◌&&◌, ◌||◌}
use mathlib.Core.List.{List, [], ◌∷◌, ◌++◌, map}
use mathlib.Core.Option.{some}
use mathlib.Core.Logic.{inl, inr}
use mathlib.Core.Path.{◌≡◌, refl, ap}
use native.Mathlib.Omega.{arith}
use food_delivery_api.Common.Lists.{All, any, keep, find}
use food_delivery_api.Common.Table.{update_where, any_of_find}
use food_delivery_api.Common.Tests.{◌==◌, ==_iff, Bool-cases}

module _ {ℓ} {R : Type ℓ} (key : R → ℕ) where
  -- No two rows have the same key.
  abbrev pub distinct_by : List R → Bool
  distinct_by [] = true
  distinct_by (r ∷ rows) = not (any (λ x. key x == key r) rows) && distinct_by rows

  any_key-append :
      (k : ℕ) (rows : List R) (r : R)
      → any (λ x. key x == k) (rows ++ r ∷ []) ≡ (any (λ x. key x == k) rows || (key r == k))
  any_key-append k [] r = ground arith
  any_key-append k (x ∷ rows) r = ground (arith, any_key-append k rows r)

  pub distinct_by-append :
      (rows : List R) (r : R)
      → distinct_by rows ≡ true
      → any (λ x. key x == key r) rows ≡ false
      → distinct_by (rows ++ r ∷ []) ≡ true
  distinct_by-append [] r d n = refl
  distinct_by-append (x ∷ rows) r d n =
      ground (arith, any_key-append (key x) rows r, distinct_by-append rows r)

  any_key-update_where :
      (k : ℕ) (selects : R → Bool) (set : R → R)
      → ((r : R) → key (set r) ≡ key r)
      → (rows : List R)
      → any (λ x. key x == k) (update_where selects set rows) ≡ any (λ x. key x == k) rows
  any_key-update_where k selects set keeps [] = refl
  any_key-update_where k selects set keeps (r ∷ rows) =
      ground (arith, keeps r, any_key-update_where k selects set keeps rows)

  pub distinct_by-update_where :
      (selects : R → Bool) (set : R → R)
      → ((r : R) → key (set r) ≡ key r)
      → (rows : List R) → distinct_by (update_where selects set rows) ≡ distinct_by rows
  distinct_by-update_where selects set keeps [] = refl
  distinct_by-update_where selects set keeps (r ∷ rows) = ground (
    arith,
    keeps r,
    any_key-update_where (key r) selects set keeps rows,
    distinct_by-update_where selects set keeps rows,
  )

  -- A row that has the key of `x` is `x`.
  abbrev pub Only : R → List R → Type ℓ
  Only x rows = All (λ y. key y ≡ key x → y ≡ x) rows

  absent-Only : (x : R) (rows : List R) → any (λ y. key y == key x) rows ≡ false → Only x rows
  absent-Only x [] n = tt
  absent-Only x (y ∷ rows) n =
      ((λ e. ground (arith, ==_iff (key y) (key x))), absent-Only x rows (ground arith))

  -- Where keys differ, the row that a lookup finds is the only one of its key.
  pub find-Only :
      (wanted : R → Bool) (rows : List R) (x : R)
      → distinct_by rows ≡ true
      → find wanted rows ≡ some x
      → Only x rows
  find-Only wanted [] x d h = tt
  find-Only wanted (r ∷ rows) x d h = elim (Bool-cases (wanted r)) [
    | inl y ↦
        let same : r ≡ x = ground arith in
        ((λ e. same), absent-Only x rows (ground (arith, ap key same)))
    | inr n ↦ (
      (λ e. ground (arith, any_of_find wanted (λ z. key z == key x) rows x)),
      find-Only wanted rows x (ground arith) (ground arith),
    )
  ]

  -- The same, for each row of a table.
  Only-older :
      (r : R) (rows xs : List R)
      → any (λ x. key x == key r) xs ≡ false
      → All (λ x. Only x rows) xs
      → All (λ x. Only x (r ∷ rows)) xs
  Only-older r rows [] n h = tt
  Only-older r rows (x ∷ xs) n h = (
    ((λ e. ground (arith, ==_iff (key x) (key r))), h.0),
    Only-older r rows xs (ground arith) h.1,
  )

  pub each-Only : (rows : List R) → distinct_by rows ≡ true → All (λ x. Only x rows) rows
  each-Only [] d = tt
  each-Only (r ∷ rows) d = (
    ((λ e. refl), absent-Only r rows (ground arith)),
    Only-older r rows rows (ground arith) (each-Only rows (ground arith)),
  )

-- What a view shows: the rows that are live, each as `show` gives it.
module _ {ℓ κ} {R : Type ℓ} {V : Type κ} (live : R → Bool) (show : R → V) where
  abbrev pub view : List R → List V
  view rows = map show (keep live rows)

  pub view-append :
      (rows : List R) (r : R) → live r ≡ true → view (rows ++ r ∷ []) ≡ view rows ++ show r ∷ []
  view-append [] r l = ground arith
  view-append (x ∷ rows) r l = ground (arith, view-append rows r l)

  -- A row that no row has in the table is not in the view.
  pub any-view :
      (test : R → Bool) (shown : V → Bool)
      → ((r : R) → shown (show r) ≡ test r)
      → (rows : List R) → any test rows ≡ false
      → any shown (view rows) ≡ false
  any-view test shown same [] n = refl
  any-view test shown same (r ∷ rows) n = ground (arith, same r, any-view test shown same rows)

  -- A live row that a lookup finds is in the view.
  pub any_of_find-view :
      (wanted : R → Bool) (shown : V → Bool) (rows : List R) (r : R)
      → find wanted rows ≡ some r
      → live r ≡ true
      → shown (show r) ≡ true
      → any shown (view rows) ≡ true
  any_of_find-view wanted shown [] r h l s = ground arith
  any_of_find-view wanted shown (x ∷ rows) r h l s =
      ground (arith, any_of_find-view wanted shown rows r)

  -- A deletion of rows removes them from the view.
  pub view-delete :
      (selects : R → Bool) (delete : R → R) (shown : V → Bool)
      → ((r : R) → live (delete r) ≡ false)
      → ((r : R) → shown (show r) ≡ selects r)
      → (rows : List R)
      → view (update_where selects delete rows) ≡ keep (λ v. not (shown v)) (view rows)
  view-delete selects delete shown dead same [] = refl
  view-delete selects delete shown dead same (r ∷ rows) =
      ground (arith, dead r, same r, view-delete selects delete shown dead same rows)

  -- An update of the one row of a key changes the view at that key.
  pub view-update :
      (key : R → ℕ) (shown_key : V → ℕ) (selects : R → Bool) (set : R → R) (shown_set : V → V)
      (r : R)
      → ((x : R) → shown_key (show x) ≡ key x)
      → ((x : R) → live (set x) ≡ live x)
      → ((x : R) → selects x ≡ true → key x ≡ key r)
      → selects r ≡ true
      → shown_set (show r) ≡ show (set r)
      → (rows : List R) → Only key r rows
      → view (update_where selects set rows)
        ≡ update_where (λ v. shown_key v == key r) shown_set (view rows)
  view-update key shown_key selects set shown_set r keys lives by_key chosen shows [] only = refl
  view-update key shown_key selects set shown_set r keys lives by_key chosen shows (x ∷ rows) only =
      let rest =
        view-update key shown_key selects set shown_set r keys lives by_key chosen shows rows
          only.1 in
      let same = only.0 in
      ground (arith, keys x, lives x, by_key x, same, ==_iff (key x) (key r), rest)

  -- A deleted row that is the only one of its key leaves none of that key in the view.
  pub view-deleted :
      (key : R → ℕ) (shown_key : V → ℕ) (selects : R → Bool) (delete : R → R) (r : R)
      → ((x : R) → shown_key (show x) ≡ key x)
      → ((x : R) → live (delete x) ≡ false)
      → selects r ≡ true
      → (rows : List R) → Only key r rows
      → any (λ v. shown_key v == key r) (view (update_where selects delete rows)) ≡ false
  view-deleted key shown_key selects delete r keys dead chosen [] only = refl
  view-deleted key shown_key selects delete r keys dead chosen (x ∷ rows) only =
      let rest = view-deleted key shown_key selects delete r keys dead chosen rows only.1 in
      let same = only.0 in ground (arith, keys x, dead x, same, ==_iff (key x) (key r), rest)

pub keep-none {ℓ} :
    {A : Type ℓ} (test : A → Bool) (xs : List A)
    → any test xs ≡ false
    → keep (λ x. not (test x)) xs ≡ xs
keep-none test [] n = refl
keep-none test (x ∷ xs) n = ground (arith, keep-none test xs)
