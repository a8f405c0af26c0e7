-- ===== src/Locking.antt =====
-- Locks over several keys: libs/shared/locking/src/redis-distributed-lock.ts. The Redis server is an
-- argument, and so is the order of texts that `sort` uses. What happens while a call sleeps, the end
-- of a lock by its time included, is a list of changes of the server, one for each round before the
-- deadline. A command of the server that throws writes nothing here.
pub mod Rounds
pub mod Tests
pub mod Exclusion
use food_delivery_api.Common.{
  ℕ, ◌==◌, Option, none, some, Bool, true, false, ◌||◌, List, [], ◌∷◌, String, Result, ok, err,
  Action, any, if◌then◌else◌,
}
use food_delivery_api.Common.Text.{text_eq, concat}

-- The commands of a server on its state `R`: INCR, PEXPIRE, SET … PX … NX, GET and DEL; and whether a
-- command on a key throws.
pub record Redis {ℓ} (R : Type ℓ) : Type ℓ where
  pub incr : String → R → ℕ × R
  pub pexpire : String → ℕ → R → R
  pub set_px_nx : String → ℕ → ℕ → R → Bool × R
  pub get : String → R → Option ℕ
  pub del : String → R → R
  pub throws : String → R → Bool

abbrev pub fence_counter_key : String → String
fence_counter_key key = concat key ":fence"

abbrev pub fence_counter_ttl_ms : ℕ
fence_counter_ttl_ms = 3600000

pub record HeldLock : Type 0 where
  pub key : String
  pub token : ℕ

-- How `tryAcquireAll` ends: `contendedKey` is null or a key, or a command throws.
pub data Contention : Type 0 where
  uncontended : Contention
  contended_by : String → Contention
  interrupted : Contention

-- The answer of `tryAcquireAll`, and what it held where it threw.
pub record Attempt : Type 0 where
  pub held : List HeldLock
  pub contended_key : Contention

-- The error of a command.
pub data RedisError : Type 0 where
  redis_error : RedisError

pub data LockError {ℓ} (E : Type ℓ) : Type ℓ where
  lock_contention : String → LockError E
  thrown : E → LockError E
  redis_thrown : LockError E

module _ {ℓ} {R : Type ℓ} (redis : Redis R) where
  abbrev token_if : ℕ → Bool × R → Result RedisError (Option ℕ) × R
  token_if token (true, r) = (ok (some token), r)
  token_if token (false, r) = (ok none, r)

  -- A command on a key, which throws or has its outcome.
  abbrev command {κ} : {A : Type κ} → String → R → Result RedisError A × R → Result RedisError A × R
  command key r outcome = if redis.throws key r then (err redis_error, r) else outcome

  abbrev set_expiring : String → ℕ → ℕ → R → Result RedisError (Option ℕ) × R
  set_expiring key ttl_ms token r =
      command key r (token_if token (redis.set_px_nx key token ttl_ms r))

  abbrev set_with : String → ℕ → ℕ × R → Result RedisError (Option ℕ) × R
  set_with key ttl_ms (token, r) =
      command (fence_counter_key key) r (
        set_expiring key ttl_ms token
          (redis.pexpire (fence_counter_key key) fence_counter_ttl_ms r))

  unfoldable pub acquire : String → ℕ → Action R RedisError (Option ℕ)
  acquire key ttl_ms r =
      command (fence_counter_key key) r (set_with key ttl_ms (redis.incr (fence_counter_key key) r))

  -- RELEASE_SCRIPT, which the server runs at once.
  abbrev release_held : String → ℕ → R → Option ℕ → Bool × R
  release_held key token r none = (false, r)
  release_held key token r (some t) = if t == token then (true, redis.del key r) else (false, r)

  abbrev answered : Bool × R → Result RedisError Bool × R
  answered (freed, r) = (ok freed, r)

  unfoldable pub release : String → ℕ → Action R RedisError Bool
  release key token r = command key r (answered (release_held key token r (redis.get key r)))

  abbrev add_held : String → ℕ → Attempt × R → Attempt × R
  add_held key token (attempt, r) =
      (record attempt { held = record { key = key; token = token } ∷ attempt.held }, r)

  -- One round of the loop; `next` is the rest of it.
  abbrev after_acquire : String → (R → Attempt × R) → Result RedisError (Option ℕ) × R → Attempt × R
  after_acquire key next (err e, r) = (record { held = []; contended_key = interrupted }, r)
  after_acquire key next (ok none, r) = (record { held = []; contended_key = contended_by key }, r)
  after_acquire key next (ok (some token), r) = add_held key token (next r)

  unfoldable pub try_acquire_all : ℕ → List String → R → Attempt × R
  unfolding acquire
  try_acquire_all ttl_ms [] r = (record { held = []; contended_key = uncontended }, r)
  try_acquire_all ttl_ms (key ∷ keys) r =
      after_acquire key (try_acquire_all ttl_ms keys) (acquire key ttl_ms r)

  -- The last lock is released first; a lock that has expired is left alone, and so is one whose
  -- release throws, which is caught and logged.
  unfoldable pub release_all : List HeldLock → R → R
  unfolding release
  release_all [] r = r
  release_all (h ∷ held) r = (release h.key h.token (release_all held r)).1

-- `[...new Set(keys)]`
abbrev pub distinct_keys : List String → List String → List String
distinct_keys seen [] = []
distinct_keys seen (key ∷ keys) =
    if any (text_eq key) seen
    then distinct_keys seen keys
    else key ∷ distinct_keys (key ∷ seen) keys

abbrev insert_key : (String → String → Bool) → String → List String → List String
insert_key before key [] = key ∷ []
insert_key before key (k ∷ keys) =
    if before key k then key ∷ k ∷ keys else k ∷ insert_key before key keys

abbrev pub sort_keys : (String → String → Bool) → List String → List String
sort_keys before [] = []
sort_keys before (key ∷ keys) = insert_key before key (sort_keys before keys)

module _ {ℓ κ μ} {R : Type ℓ} {E : Type κ} {A : Type μ} (redis : Redis R) (ttl_ms : ℕ)
    (fn : Action R E A) where
  abbrev result_of : Result E A → Result (LockError E) A
  result_of (ok a) = ok a
  result_of (err e) = err (thrown e)

  -- `try { return await fn(); } finally { await this.releaseAll(held); }`
  abbrev finish : List HeldLock → Result E A × R → Result (LockError E) A × R
  unfolding release_all
  finish held (r, s) = (result_of r, release_all redis held s)

  unfoldable pub run_rounds : List String → List (R → R) → R → Result (LockError E) A × R
  unfolding try_acquire_all release_all
  run_rounds ordered [] r =
      let (attempt, r') = try_acquire_all redis ttl_ms ordered r in
      elim (attempt.contended_key) [
        | uncontended ↦ finish attempt.held (fn r')
        | interrupted ↦ (err redis_thrown, r')
        | contended_by key ↦ (err (lock_contention key), release_all redis attempt.held r')
      ]
  run_rounds ordered (sleep ∷ sleeps) r =
      let (attempt, r') = try_acquire_all redis ttl_ms ordered r in
      elim (attempt.contended_key) [
        | uncontended ↦ finish attempt.held (fn r')
        | interrupted ↦ (err redis_thrown, r')
        | contended_by key ↦ run_rounds ordered sleeps (sleep (release_all redis attempt.held r'))
      ]

  unfoldable pub with_locks :
      (String → String → Bool) → List String → List (R → R) → R → Result (LockError E) A × R
  unfolding run_rounds
  with_locks before keys = run_rounds (sort_keys before (distinct_keys [] keys))
