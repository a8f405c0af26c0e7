-- ===== src/Common/Calls.antt =====
-- Thrown errors as values, and calls that read and write a store.
use mathlib.Core.Bool.{Bool, true, false}
use mathlib.Core.List.{List, [], ◌∷◌, ◌++◌}
use mathlib.Core.Option.{Option, none, some}
use mathlib.Core.Path.{◌≡◌, refl}
use mathlib.Core.Logic.{◌⊎◌, inl, inr}
use native.Mathlib.Omega.{arith}

-- What a call ends with: it returns, or it throws.
pub data Result {ℓ κ} (E : Type ℓ) (A : Type κ) : Type (ℓ ⊔ κ) where
  ok : A → Result E A
  err : E → Result E A

-- A call on a store `S`. What was written before a throw stays written, unless a transaction
-- takes it back.
abbrev pub Action {ℓ κ μ} : Type ℓ → Type κ → Type μ → Type (ℓ ⊔ κ ⊔ μ)
Action S E A = S → Result E A × S

infixl 5 ◌>>=◌ ◌>>◌
abbrev pub ◌>>=◌ {ℓ κ μ ν} :
    {S : Type ℓ} {E : Type κ} {A : Type μ} {B : Type ν}
    → Action S E A
    → (A → Action S E B)
    → Action S E B
◌>>=◌ m f s = let (r, s') = m s in elim r [ ok a ↦ f a s' | err e ↦ (err e, s') ]

abbrev pub ◌>>◌ {ℓ κ μ ν} :
    {S : Type ℓ} {E : Type κ} {A : Type μ} {B : Type ν} → Action S E A → Action S E B → Action S E B
m >> k = m >>= λ _. k

module _ {ℓ κ μ} {S : Type ℓ} {E : Type κ} {A : Type μ} where
  abbrev pub pure : A → Action S E A
  pure a s = (ok a, s)

  abbrev pub throw : E → Action S E A
  throw e s = (err e, s)

  abbrev pub gets : (S → A) → Action S E A
  gets f s = (ok (f s), s)

  abbrev pub lift : Result E A → Action S E A
  lift r s = (r, s)

  -- `if (!value) throw e`
  abbrev pub or_throw : Option A → E → Action S E A
  or_throw o e s = elim o [ none ↦ (err e, s) | some a ↦ (ok a, s) ]

  -- `transaction.runInTransaction(work)`: a throw rolls the writes back and is thrown on.
  abbrev pub run_in_transaction : Action S E A → Action S E A
  run_in_transaction m s = let (r, s') = m s in elim r [ ok a ↦ (ok a, s') | err e ↦ (err e, s) ]

  -- `try { m } catch (e) { handler(e) }`
  abbrev pub catch : Action S E A → (E → Action S E A) → Action S E A
  catch m handler s = let (r, s') = m s in elim r [ ok a ↦ (ok a, s') | err e ↦ handler e s' ]

  -- A transaction that throws leaves the store as it was.
  pub run_in_transaction-err :
      (m : Action S E A) (s : S) {e : E}
      → (run_in_transaction m s).0 ≡ err e
      → (run_in_transaction m s).1 ≡ s
  run_in_transaction-err m s h = ground arith

abbrev pub modify {ℓ κ} : {S : Type ℓ} {E : Type κ} → (S → S) → Action S E (Unit {0})
modify f s = (ok tt, f s)

-- `if (test) throw e`
abbrev pub throw_if {ℓ κ} : {S : Type ℓ} {E : Type κ} → Bool → E → Action S E (Unit {0})
throw_if test e s = elim test [ true ↦ (err e, s) | false ↦ (ok tt, s) ]

-- What is computed from an answer does not write.
pub pure_after {ℓ κ μ ν} :
    {S : Type ℓ} {E : Type κ} {A : Type μ} {B : Type ν} (m : Action S E A) (f : A → B) (s : S)
    → ((m >>= λ a. pure (f a)) s).1 ≡ (m s).1
pure_after m f s = ground arith

-- `for (const x of xs) { await f(x) }`
module _ {ℓ κ μ} {S : Type ℓ} {E : Type κ} {A : Type μ} (f : A → Action S E (Unit {0})) where
  abbrev pub for_each : List A → Action S E (Unit {0})
  for_each [] = pure tt
  for_each (x ∷ xs) = f x >> for_each xs

  pub for_each-append :
      (xs : List A) (x : A) (s s' s'' : S)
      → for_each xs s ≡ (ok tt, s')
      → f x s' ≡ (ok tt, s'')
      → for_each (xs ++ x ∷ []) s ≡ (ok tt, s'')
  for_each-append [] x s s' s'' h e = ground arith
  for_each-append (y ∷ xs) x s s' s'' h e =
      let rest = for_each-append xs x (f y s).1 s' s'' in ground (arith, rest (ground arith) e)

pub Result-cases {ℓ κ} :
    {E : Type ℓ} {A : Type κ} (r : Result E A) → ((a : A) × (r ≡ ok a)) ⊎ ((e : E) × (r ≡ err e))
Result-cases (ok a) = inl (a, refl)
Result-cases (err e) = inr (e, refl)
