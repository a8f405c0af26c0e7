-- ===== src/Locking/Exclusion.antt =====
-- That no two callers hold one key, and that a call gives back exactly what it took.
use food_delivery_api.Common.{
  ℕ, ◌≡◌, refl, ap, sym, ◌∙◌, subst, Option, none, some, Bool, true, false, List, [], ◌∷◌, String,
  any, every, arith, ==_refl, ◌==◌, ◌&&◌, if◌then◌else◌, inl, inr, ◌⊎◌, Option-cases, Bool-cases,
  Result, ok,
}
use food_delivery_api.Common.Text.{text_eq, text_eq_iff}
use food_delivery_api.Locking.{
  Redis, RedisError, HeldLock, Contention, uncontended, contended_by, interrupted,
  fence_counter_key, fence_counter_ttl_ms, Attempt, acquire, release, try_acquire_all, release_all,
  token_if, after_acquire,
}

-- The documented behaviour of the commands of a server that is up, for the keys that are locks; the
-- counters of the fences are other keys.
pub record IsServer {ℓ} {R : Type ℓ} (redis : Redis R) (is_lock : String → Bool) : Type ℓ where
  pub up : (k : String) (r : R) → redis.throws k r ≡ false
  pub fences_apart :
      (j k : String) → is_lock j ≡ true → is_lock k ≡ true → text_eq (fence_counter_key j) k ≡ false
  pub get_incr :
      (j k : String) (r : R) → text_eq j k ≡ false → redis.get k (redis.incr j r).1 ≡ redis.get k r
  pub get_pexpire :
      (j k : String) (ms : ℕ) (r : R)
      → text_eq j k ≡ false
      → redis.get k (redis.pexpire j ms r) ≡ redis.get k r
  pub set_free :
      (k : String) (token ms : ℕ) (r : R)
      → redis.get k r ≡ none
      → (redis.set_px_nx k token ms r).0 ≡ true
  pub set_taken :
      (k : String) (token ms t : ℕ) (r : R)
      → redis.get k r ≡ some t
      → redis.set_px_nx k token ms r ≡ (false, r)
  pub get_set :
      (k : String) (token ms : ℕ) (r : R)
      → redis.get k r ≡ none
      → redis.get k (redis.set_px_nx k token ms r).1 ≡ some token
  pub get_set_other :
      (j k : String) (token ms : ℕ) (r : R)
      → text_eq j k ≡ false
      → redis.get k (redis.set_px_nx j token ms r).1 ≡ redis.get k r
  pub get_del : (k : String) (r : R) → redis.get k (redis.del k r) ≡ none
  pub get_del_other :
      (j k : String) (r : R) → text_eq j k ≡ false → redis.get k (redis.del j r) ≡ redis.get k r

abbrev is_token : ℕ → Option ℕ → Bool
is_token token none = false
is_token token (some t) = t == token

-- What a key reads once locks are released: nothing if it still has the token of one of them, and
-- else what it read before.
abbrev pub after_release : List HeldLock → String → Option ℕ → Option ℕ
after_release held k o = if any (λ h. text_eq h.key k && is_token h.token o) held then none else o

module _ {ℓ} {R : Type ℓ} (redis : Redis R) (is_lock : String → Bool)
    (server : IsServer redis is_lock) (ttl_ms : ℕ) where
  -- Two states read alike at every lock.
  abbrev pub ReadsAlike : R → R → Type 0
  ReadsAlike r s = (k : String) → is_lock k ≡ true → redis.get k r ≡ redis.get k s

  -- A key that is taken is not got, and one that is free is; the other locks stay as they are.
  data Acquired (key : String) (r : R) : Result RedisError (Option ℕ) × R → Type ℓ where
    taken :
        (t : ℕ) (r' : R) → redis.get key r ≡ some t → ReadsAlike r' r → Acquired key r (ok none, r')
    got :
        (token : ℕ) (r' : R)
        → redis.get key r ≡ none
        → redis.get key r' ≡ some token
        → ((k : String) → is_lock k ≡ true → text_eq key k ≡ false → redis.get k r' ≡ redis.get k r)
        → Acquired key r (ok (some token), r')

  token_if-true :
      (token : ℕ) (p : Bool × R) → p.0 ≡ true → token_if redis token p ≡ (ok (some token), p.1)
  token_if-true token (true, r) h = refl
  token_if-true token (false, r) h = ground arith

  -- The state in which `acquire` sets the key.
  abbrev fenced : String → R → R
  fenced key r =
      redis.pexpire (fence_counter_key key) fence_counter_ttl_ms
        (redis.incr (fence_counter_key key) r).1

  fenced-ReadsAlike : (key : String) (r : R) → is_lock key ≡ true → ReadsAlike (fenced key r) r
  fenced-ReadsAlike key r lk k h =
      server.get_pexpire (fence_counter_key key) k _ _ (server.fences_apart key k lk h)
      ∙ server.get_incr (fence_counter_key key) k r (server.fences_apart key k lk h)

  -- While the server is up, `acquire` ends with its last command.
  acquire-set :
      (key : String) (r : R)
      → acquire redis key ttl_ms r
        ≡ token_if redis
            (redis.incr (fence_counter_key key) r).0
            (redis.set_px_nx key (redis.incr (fence_counter_key key) r).0 ttl_ms (fenced key r))
  unfolding acquire
  acquire-set key r = ground (
    arith,
    server.up (fence_counter_key key) r,
    server.up (fence_counter_key key) (redis.incr (fence_counter_key key) r).1,
    server.up key (fenced key r),
  )

  acquire-Acquired :
      (key : String) (r : R) → is_lock key ≡ true → Acquired key r (acquire redis key ttl_ms r)
  acquire-Acquired key r lk =
      let token = (redis.incr (fence_counter_key key) r).0 in
      let s = fenced key r in
      let alike = fenced-ReadsAlike key r lk in
      elim (Option-cases (redis.get key s)) [
        | inl free ↦
            subst (Acquired key r)
              (sym (
                acquire-set key r
                ∙ token_if-true token _ (server.set_free key token ttl_ms s free)))
              (got token _ (sym (alike key lk) ∙ free) (server.get_set key token ttl_ms s free)
                (λ k h d. server.get_set_other key k token ttl_ms s d ∙ alike k h))
        | inr (t, held) ↦
            subst (Acquired key r)
              (sym (
                acquire-set key r
                ∙ ap (token_if redis token) (server.set_taken key token ttl_ms t s held)))
              (taken t s (sym (alike key lk) ∙ held) alike)
      ]

  release-own :
      (key : String) (token : ℕ) (r : R)
      → redis.get key r ≡ some token
      → (release redis key token r).1 ≡ redis.del key r
  unfolding release
  release-own key token r h = rw h (ground (arith, ==_refl token, server.up key r))

  release-reads :
      (key k : String) (token : ℕ) (r : R)
      → redis.get k (release redis key token r).1
        ≡ (if text_eq key k && is_token token (redis.get k r) then none else redis.get k r)
  unfolding release
  release-reads key k token r = elim (Bool-cases (text_eq key k)) [
    | inl same ↦ elim (Option-cases (redis.get k r)) [
      | inl e ↦ rw ((text_eq_iff key k).0 same, e) (ground (arith, e, server.up k r))
      | inr (t, e) ↦
          rw ((text_eq_iff key k).0 same, e)
            (ground (arith, e, (text_eq_iff k k).1 refl, server.up k r, server.get_del k r))
    ]
    | inr other ↦ elim (Option-cases (redis.get key r)) [
      | inl e ↦ ground (arith, e, other, server.up key r)
      | inr (t, e) ↦ ground (arith, e, other, server.up key r, server.get_del_other key k r other)
    ]
  ]

  pub release_all-reads :
      (held : List HeldLock) (r : R) (k : String)
      → redis.get k (release_all redis held r) ≡ after_release held k (redis.get k r)
  unfolding release_all
  release_all-reads [] r k = refl
  release_all-reads (h ∷ held) r k =
      release-reads h.key k h.token (release_all redis held r)
      ∙ ground (arith, release_all-reads held r k)

  -- An attempt whose locks can be given back: from any state that reads like the one after it, the
  -- release of what it holds leads to a state that reads like the one before.
  abbrev pub GivesBack : (R → Attempt × R) → Type ℓ
  GivesBack attempt =
      (r after : R)
      → ReadsAlike after (attempt r).1
      → ReadsAlike (release_all redis (attempt r).0.held after) r

  round-GivesBack :
      (key : String) (next : R → Attempt × R) (r after : R) (o : Result RedisError (Option ℕ) × R)
      → is_lock key ≡ true
      → GivesBack next
      → Acquired key r o
      → ReadsAlike after (after_acquire redis key next o).1
      → ReadsAlike (release_all redis (after_acquire redis key next o).0.held after) r
  unfolding release_all
  round-GivesBack key next r after _ lk ih (taken t r' held same) alike k h = alike k h ∙ same k h
  round-GivesBack key next r after _ lk ih (got token r' free now_held others) alike k h =
      let back = ih r' after alike in
      ap (redis.get k) (release-own key token _ (back key lk ∙ now_held))
      ∙ elim (Bool-cases (text_eq key k)) [
        | inl same ↦
            subst
              (λ j.
                redis.get j (redis.del key (release_all redis (next r').0.held after))
                ≡ redis.get j r)
              ((text_eq_iff key k).0 same) (server.get_del key _ ∙ sym free)
        | inr other ↦ server.get_del_other key k _ other ∙ back k h ∙ others k h other
      ]

  pub try_acquire_all-GivesBack :
      (keys : List String)
      → every is_lock keys ≡ true
      → GivesBack (try_acquire_all redis ttl_ms keys)
  unfolding try_acquire_all release_all
  try_acquire_all-GivesBack [] locks r after alike = alike
  try_acquire_all-GivesBack (key ∷ keys) locks r after alike =
      round-GivesBack key (try_acquire_all redis ttl_ms keys) r after (acquire redis key ttl_ms r)
        (ground arith) (try_acquire_all-GivesBack keys (ground arith))
        (acquire-Acquired key r (ground arith)) alike

  abbrev pub is_contended : Contention → Bool
  is_contended uncontended = false
  is_contended (contended_by key) = true
  is_contended interrupted = false

  abbrev pub is_interrupted : Contention → Bool
  is_interrupted uncontended = false
  is_interrupted (contended_by key) = false
  is_interrupted interrupted = true

  round_ends :
      (key : String) (next : R → Attempt × R) (r : R) (o : Result RedisError (Option ℕ) × R)
      → ((s : R) → is_interrupted (next s).0.contended_key ≡ false)
      → Acquired key r o
      → is_interrupted (after_acquire redis key next o).0.contended_key ≡ false
  round_ends key next r _ ends (taken t r' held same) = refl
  round_ends key next r _ ends (got token r' free now_held others) = ends r'

  -- While the server is up, no attempt is interrupted.
  pub try_acquire_all-ends :
      (keys : List String) (r : R)
      → every is_lock keys ≡ true
      → is_interrupted (try_acquire_all redis ttl_ms keys r).0.contended_key ≡ false
  unfolding try_acquire_all
  try_acquire_all-ends [] r locks = refl
  try_acquire_all-ends (key ∷ keys) r locks =
      round_ends key (try_acquire_all redis ttl_ms keys) r (acquire redis key ttl_ms r)
        (λ s. try_acquire_all-ends keys s (ground arith)) (acquire-Acquired key r (ground arith))

  -- An attempt meets a holder of the key.
  abbrev pub Meets : (R → Attempt × R) → String → ℕ → Type ℓ
  Meets attempt key t =
      (r : R) → redis.get key r ≡ some t → is_contended (attempt r).0.contended_key ≡ true

  round-Meets :
      (j key : String) (t : ℕ) (next : R → Attempt × R) (r : R)
      (o : Result RedisError (Option ℕ) × R)
      → is_lock key ≡ true
      → ((text_eq j key ≡ true) ⊎ Meets next key t)
      → redis.get key r ≡ some t
      → Acquired j r o
      → is_contended (after_acquire redis j next o).0.contended_key ≡ true
  round-Meets j key t next r _ lk ih held (taken t' r' held' same) = refl
  round-Meets j key t next r _ lk (inl same) held (got token r' free now_held others) =
      ground (arith, (text_eq_iff j key).0 same, free, held)
  round-Meets j key t next r _ lk (inr ih) held (got token r' free now_held others) =
      elim (Bool-cases (text_eq j key)) [
        | inl same ↦ ground (arith, (text_eq_iff j key).0 same, free, held)
        | inr other ↦ ih r' (others key lk other ∙ held)
      ]

  pub try_acquire_all-Meets :
      (keys : List String) (key : String) (t : ℕ)
      → every is_lock keys ≡ true
      → is_lock key ≡ true
      → any (λ j. text_eq j key) keys ≡ true
      → Meets (try_acquire_all redis ttl_ms keys) key t
  unfolding try_acquire_all
  try_acquire_all-Meets [] key t locks lk there r held = ground arith
  try_acquire_all-Meets (j ∷ keys) key t locks lk there r held =
      round-Meets j key t (try_acquire_all redis ttl_ms keys) r (acquire redis j ttl_ms r) lk
        (elim (Bool-cases (text_eq j key)) [
          | inl same ↦ inl same
          | inr other ↦ inr (try_acquire_all-Meets keys key t (ground arith) lk (ground arith))
        ])
        held (acquire-Acquired j r (ground arith))
