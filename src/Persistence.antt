-- ===== src/Persistence.antt =====
-- `withAdvisoryLock` (libs/shared/persistence/src/advisory-lock.ts). The lock functions of the
-- database are an argument; its connections are left out.
use food_delivery_api.Common.{
  ℕ, Bool, true, false, Option, none, some, Result, ok, err, Action, ◌≡◌, ap,
}

-- `pg_try_advisory_lock` and `pg_advisory_unlock` on the state `L` of the locks.
pub record AdvisoryLocks {ℓ} (L : Type ℓ) : Type ℓ where
  pub try_lock : ℕ → L → Bool × L
  pub unlock : ℕ → L → L

-- A store that holds the locks.
pub record HasLocks {ℓ κ} (S : Type ℓ) (L : Type κ) : Type (ℓ ⊔ κ) where
  pub locks : S → L
  pub set_locks : L → S → S

module _ {ℓ κ μ ν} {S : Type ℓ} {L : Type κ} {E : Type μ} {A : Type ν} (pg : AdvisoryLocks L)
    (held : HasLocks S L) where
  abbrev ran : Result E A → Result E (Option A)
  ran (ok a) = ok (some a)
  ran (err e) = err e

  abbrev pub unlock_after : ℕ → Result E A × S → Result E (Option A) × S
  unlock_after key (r, s) = (ran r, held.set_locks (pg.unlock key (held.locks s)) s)

  abbrev with_acquired : ℕ → Action S E A → S → Bool × L → Result E (Option A) × S
  with_acquired key work s (false, l) = (ok none, held.set_locks l s)
  with_acquired key work s (true, l) = unlock_after key (work (held.set_locks l s))

  -- `none` is `{ ran: false }`; a throw of the work is thrown on after the unlock.
  unfoldable pub with_advisory_lock : ℕ → Action S E A → Action S E (Option A)
  with_advisory_lock key work s = with_acquired key work s (pg.try_lock key (held.locks s))

  pub with_advisory_lock-acquired :
      (key : ℕ) (work : Action S E A) (s : S) (l : L)
      → pg.try_lock key (held.locks s) ≡ (true, l)
      → with_advisory_lock key work s ≡ unlock_after key (work (held.set_locks l s))
  unfolding with_advisory_lock
  with_advisory_lock-acquired key work s l h = ap (with_acquired key work s) h
