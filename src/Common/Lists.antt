-- ===== src/Common/Lists.antt =====
-- Lists measured by native numbers, and the array methods that the source uses.
use Prim.Native.Nat.{ℕ, suc, ◌+◌, ◌≤◌}
use mathlib.Core.Path.{◌≡◌, refl}
use mathlib.Core.Logic.{◌⊎◌, inl, inr}
use mathlib.Core.Bool.{Bool, true, false, ◌&&◌, ◌||◌}
use mathlib.Core.Option.{Option, none, some}
use mathlib.Core.List.{List, [], ◌∷◌, ◌++◌}
use native.Mathlib.Omega.{arith}
use food_delivery_api.Common.Tests.{if◌then◌else◌}

module _ {ℓ} {A : Type ℓ} where
  abbrev pub length : List A → ℕ
  length [] = 0
  length (x ∷ xs) = suc (length xs)

  -- `array.filter(test)`
  abbrev pub keep : (A → Bool) → List A → List A
  keep test [] = []
  keep test (x ∷ xs) = if test x then x ∷ keep test xs else keep test xs

  -- `array.some(test)`
  abbrev pub any : (A → Bool) → List A → Bool
  any test [] = false
  any test (x ∷ xs) = test x || any test xs

  -- `array.every(test)`
  abbrev pub every : (A → Bool) → List A → Bool
  every test [] = true
  every test (x ∷ xs) = test x && every test xs

  -- The first entry that passes a test.
  abbrev pub find : (A → Bool) → List A → Option A
  find test [] = none
  find test (x ∷ xs) = if test x then some x else find test xs

  pub length-append : (xs ys : List A) → length (xs ++ ys) ≡ length xs + length ys
  length-append [] ys = omega arith
  length-append (x ∷ xs) ys = omega (arith, length-append xs ys)

  pub length-keep-le : (test : A → Bool) (xs : List A) → length (keep test xs) ≤ length xs
  length-keep-le test [] = omega arith
  length-keep-le test (x ∷ xs) = ground (arith, length-keep-le test xs)

-- A predicate on every entry of a list; it computes to a tuple.
abbrev pub All {ℓ κ} : {A : Type ℓ} → (A → Type κ) → List A → Type κ
All P [] = Unit
All P (x ∷ xs) = P x × All P xs

-- `array.reduce((sum, x) => sum + f(x), 0)`, from a starting value.
abbrev pub sum_from {ℓ} : {A : Type ℓ} → (A → ℕ) → ℕ → List A → ℕ
sum_from f acc [] = acc
sum_from f acc (x ∷ xs) = sum_from f (acc + f x) xs

abbrev pub sum_of {ℓ} : {A : Type ℓ} → (A → ℕ) → List A → ℕ
sum_of f [] = 0
sum_of f (x ∷ xs) = f x + sum_of f xs

pub sum_from-eq-sum_of {ℓ} :
    {A : Type ℓ} (f : A → ℕ) (acc : ℕ) (xs : List A) → sum_from f acc xs ≡ acc + sum_of f xs
sum_from-eq-sum_of f acc [] = omega arith
sum_from-eq-sum_of f acc (x ∷ xs) = omega (arith, sum_from-eq-sum_of f (acc + f x) xs)

pub any-append_self {ℓ} :
    {A : Type ℓ} (test : A → Bool) (xs : List A) (x : A)
    → test x ≡ true
    → any test (xs ++ x ∷ []) ≡ true
any-append_self test [] x h = ground arith
any-append_self test (y ∷ xs) x h = ground (arith, any-append_self test xs x h)

pub any-append {ℓ} :
    {A : Type ℓ} (test : A → Bool) (xs : List A) (x : A)
    → any test (xs ++ x ∷ []) ≡ (any test xs || test x)
any-append test [] x = ground arith
any-append test (y ∷ xs) x = ground (arith, any-append test xs x)

pub every-append {ℓ} :
    {A : Type ℓ} (test : A → Bool) (xs : List A) (x : A)
    → every test (xs ++ x ∷ []) ≡ (every test xs && test x)
every-append test [] x = ground arith
every-append test (y ∷ xs) x = ground (arith, every-append test xs x)

pub List-cases {ℓ} :
    {A : Type ℓ} (xs : List A) → (xs ≡ []) ⊎ ((x : A) × (rest : List A) × (xs ≡ x ∷ rest))
List-cases [] = inl refl
List-cases (x ∷ xs) = inr (x, xs, refl)
