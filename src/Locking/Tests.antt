-- ===== src/Locking/Tests.antt =====
-- A server that keeps its keys in a function, and calls that lock two keys of it.
use food_delivery_api.Common.{
  ℕ, ◌≡◌, refl, Option, none, some, Bool, true, false, ◌||◌, List, [], ◌∷◌, String, ok, err, Action,
  arith, suc, ◌⊎◌, inl, inr, Bool-cases, if◌then◌else◌,
}
use food_delivery_api.Common.Text.{text_eq, text_eq_iff}
use food_delivery_api.Locking.{
  redis_thrown, Redis, HeldLock, fence_counter_key, release_all, with_locks,
}
use food_delivery_api.Locking.Exclusion.{IsServer, ReadsAlike, after_release}
use food_delivery_api.Locking.Rounds.{is_contention, with_locks-excluded, with_locks-restores}

abbrev Keys : Type 0
Keys = String → Option ℕ

abbrev write : String → Option ℕ → Keys → Keys
write j v keys k = if text_eq j k then v else keys k

abbrev next_of : Option ℕ → ℕ
next_of none = 1
next_of (some n) = suc n

abbrev set_if : String → ℕ → Keys → Option ℕ → Bool × Keys
set_if k token keys none = (true, write k (some token) keys)
set_if k token keys (some t) = (false, keys)

abbrev redis : Redis Keys
redis = record {
  incr = λ k keys. (next_of (keys k), write k (some (next_of (keys k))) keys);
  pexpire = λ k ms keys. keys;
  set_px_nx = λ k token ms keys. set_if k token keys (keys k);
  get = λ k keys. keys k;
  del = λ k keys. write k none keys;
  throws = λ k keys. false;
}

abbrev is_lock : String → Bool
is_lock k = text_eq k "a" || text_eq k "b"

text_eq_self : (s : String) → text_eq s s ≡ true
text_eq_self s = (text_eq_iff s s).1 refl

is_lock-cases : (k : String) → is_lock k ≡ true → (k ≡ "a") ⊎ (k ≡ "b")
is_lock-cases k h = elim (Bool-cases (text_eq k "a")) [
  | inl is_a ↦ inl ((text_eq_iff k "a").0 is_a)
  | inr not_a ↦ inr ((text_eq_iff k "b").0 (ground arith))
]

apart :
    (j k : String) → is_lock j ≡ true → is_lock k ≡ true → text_eq (fence_counter_key j) k ≡ false
apart j k lj lk = elim (is_lock-cases j lj) [
  | inl ja ↦ elim (is_lock-cases k lk) [ inl ka ↦ rw (ja, ka) refl | inr kb ↦ rw (ja, kb) refl ]
  | inr jb ↦ elim (is_lock-cases k lk) [ inl ka ↦ rw (jb, ka) refl | inr kb ↦ rw (jb, kb) refl ]
]

server : IsServer redis is_lock
server = record {
  up = λ k r. refl;
  fences_apart = apart;
  get_incr = λ j k r d. ground arith;
  get_pexpire = λ j k ms r d. refl;
  set_free = λ k token ms r h. ground arith;
  set_taken = λ k token ms t r h. rw h refl;
  get_set = λ k token ms r h. ground (arith, text_eq_self k);
  get_set_other = λ j k token ms r d. ground arith;
  get_del = λ k r. ground (arith, text_eq_self k);
  get_del_other = λ j k r d. ground arith;
}

abbrev b_is_held : Keys
b_is_held = write "b" (some 5) (λ k. none)

abbrev work : Action Keys ℕ ℕ
work keys = (ok 1, keys)

abbrev before : String → String → Bool
before j k = text_eq j "a"

-- Another function, which would free the lock that is held.
abbrev intrude : Action Keys ℕ ℕ
intrude keys = (ok 2, write "b" none keys)

with_locks-excluded_example :
    (is_contention
        (with_locks redis 100 work before ("b" ∷ "a" ∷ "b" ∷ []) ((λ r. r) ∷ []) b_is_held).0
      ≡ true)
    × (with_locks redis 100 work before ("b" ∷ "a" ∷ "b" ∷ []) ((λ r. r) ∷ []) b_is_held
        ≡ with_locks redis 100 intrude before ("b" ∷ "a" ∷ "b" ∷ []) ((λ r. r) ∷ []) b_is_held)
with_locks-excluded_example =
    with_locks-excluded redis is_lock server 100 work before ("b" ∷ "a" ∷ "b" ∷ []) ((λ r. r) ∷ [])
      "b" 5 b_is_held intrude refl refl refl refl ((λ s h. h), tt)

with_locks-restores_example :
    ReadsAlike redis is_lock server 100
      (with_locks redis 100 work before ("b" ∷ "a" ∷ []) [] (λ k. none)).1
      (λ k. none)
    × ((held : List HeldLock) (s : Keys) (k : String)
        → redis.get k (release_all redis held s) ≡ after_release held k (redis.get k s))
with_locks-restores_example =
    with_locks-restores redis is_lock server 100 work before ("b" ∷ "a" ∷ []) [] (λ k. none) refl
      (λ s k h. refl) tt

-- A server whose commands on the lock b throw: the call throws, and the lock a stays behind.
abbrev failing : Redis Keys
failing = record redis { throws = λ k keys. text_eq k "b" }

left_behind :
    ((with_locks failing 100 work before ("b" ∷ "a" ∷ []) [] (λ k. none)).0 ≡ err redis_thrown)
    × ((with_locks failing 100 work before ("b" ∷ "a" ∷ []) [] (λ k. none)).1 "a" ≡ some 1)
unfolding with_locks
left_behind = (refl, refl)
