-- ===== src/Locking/Rounds.antt =====
-- Whole calls of `withLocks`: the rounds until the deadline, and the keys in their order.
use food_delivery_api.Common.{
  ℕ, ◌≡◌, refl, ◌∙◌, some, Bool, true, false, ◌||◌, ◌&&◌, List, [], ◌∷◌, String, Result, ok, err,
  Action, All, any, every, arith,
}
use food_delivery_api.Common.Text.{text_eq, text_eq_iff}
use food_delivery_api.Locking.{
  Redis, HeldLock, LockError, lock_contention, thrown, redis_thrown, try_acquire_all, release_all,
  run_rounds, with_locks, sort_keys, distinct_keys, insert_key,
}
use food_delivery_api.Locking.Exclusion.{
  IsServer, ReadsAlike, after_release, release_all-reads, try_acquire_all-GivesBack,
  try_acquire_all-Meets, try_acquire_all-ends,
}

any-insert_key :
    (test : String → Bool) (before : String → String → Bool) (key : String) (keys : List String)
    → any test (insert_key before key keys) ≡ (test key || any test keys)
any-insert_key test before key [] = refl
any-insert_key test before key (k ∷ keys) = ground (arith, any-insert_key test before key keys)

any-sort_keys :
    (test : String → Bool) (before : String → String → Bool) (keys : List String)
    → any test (sort_keys before keys) ≡ any test keys
any-sort_keys test before [] = refl
any-sort_keys test before (key ∷ keys) =
    ground (
      arith,
      any-insert_key test before key (sort_keys before keys),
      any-sort_keys test before keys,
    )

every-insert_key :
    (test : String → Bool) (before : String → String → Bool) (key : String) (keys : List String)
    → every test (insert_key before key keys) ≡ (test key && every test keys)
every-insert_key test before key [] = refl
every-insert_key test before key (k ∷ keys) = ground (arith, every-insert_key test before key keys)

every-sort_keys :
    (test : String → Bool) (before : String → String → Bool) (keys : List String)
    → every test (sort_keys before keys) ≡ every test keys
every-sort_keys test before [] = refl
every-sort_keys test before (key ∷ keys) = ground (
  arith,
  every-insert_key test before key (sort_keys before keys),
  every-sort_keys test before keys,
)

every-distinct_keys :
    (test : String → Bool) (seen keys : List String)
    → every test keys ≡ true
    → every test (distinct_keys seen keys) ≡ true
every-distinct_keys test seen [] h = refl
every-distinct_keys test seen (key ∷ keys) h =
    ground (arith, every-distinct_keys test seen keys, every-distinct_keys test (key ∷ seen) keys)

-- A key that is equal to one that was seen was seen.
any-seen :
    (key wanted : String) (seen : List String)
    → text_eq key wanted ≡ true
    → any (text_eq key) seen ≡ true
    → any (λ j. text_eq j wanted) seen ≡ true
any-seen key wanted [] same h = ground arith
any-seen key wanted (j ∷ seen) same h = ground (
  arith,
  text_eq_iff key wanted,
  text_eq_iff key j,
  text_eq_iff j wanted,
  any-seen key wanted seen same,
)

any-distinct_keys :
    (wanted : String) (seen keys : List String)
    → any (λ j. text_eq j wanted) keys ≡ true
    → any (λ j. text_eq j wanted) seen ≡ false
    → any (λ j. text_eq j wanted) (distinct_keys seen keys) ≡ true
any-distinct_keys wanted seen [] h new = ground arith
any-distinct_keys wanted seen (key ∷ keys) h new = ground (
  arith,
  any-seen key wanted seen,
  any-distinct_keys wanted seen keys,
  any-distinct_keys wanted (key ∷ seen) keys,
)

-- A call that ended with the contention of a key.
abbrev pub is_contention {ℓ κ} : {E : Type ℓ} {A : Type κ} → Result (LockError E) A → Bool
is_contention (ok a) = false
is_contention (err (lock_contention key)) = true
is_contention (err (thrown e)) = false
is_contention (err redis_thrown) = false

module _ {ℓ κ μ} {R : Type ℓ} {E : Type κ} {A : Type μ} (redis : Redis R) (is_lock : String → Bool)
    (server : IsServer redis is_lock) (ttl_ms : ℕ) (fn : Action R E A) where
  round_excluded :
      (other : Action R E A) (ordered : List String) (sleeps : List (R → R)) (key : String) (t : ℕ)
      (r : R)
      → every is_lock ordered ≡ true
      → is_lock key ≡ true
      → any (λ j. text_eq j key) ordered ≡ true
      → redis.get key r ≡ some t
      → All (λ sleep. (s : R) → redis.get key s ≡ some t → redis.get key (sleep s) ≡ some t) sleeps
      → (is_contention (run_rounds redis ttl_ms fn ordered sleeps r).0 ≡ true)
        × (run_rounds redis ttl_ms fn ordered sleeps r
            ≡ run_rounds redis ttl_ms other ordered sleeps r)
  unfolding run_rounds
  round_excluded other ordered [] key t r locks lk there held keeps =
      let meets =
        try_acquire_all-Meets redis is_lock server ttl_ms ordered key t locks lk there r held in
      (ground (arith, meets), ground (arith, meets))
  round_excluded other ordered (sleep ∷ sleeps) key t r locks lk there held keeps =
      let back =
        try_acquire_all-GivesBack redis is_lock server ttl_ms ordered locks r _ (λ k h. refl) in
      let meets =
        try_acquire_all-Meets redis is_lock server ttl_ms ordered key t locks lk there r held in
      let (ends, same) =
        round_excluded other ordered sleeps key t
          (sleep (
            release_all redis (try_acquire_all redis ttl_ms ordered r).0.held
              (try_acquire_all redis ttl_ms ordered r).1))
          locks lk there (keeps.0 _ (back key lk ∙ held)) keeps.1 in
      (ground (arith, meets, ends), ground (arith, meets, same))

  -- While the server is up and another caller holds one of the keys, through all rounds until the
  -- deadline, the call ends with the contention of a key, and its answer and the state that it leaves are the same for every
  -- function: the function has no part in the call.
  pub with_locks-excluded :
      (before : String → String → Bool) (keys : List String) (sleeps : List (R → R)) (key : String)
      (t : ℕ) (r : R) (other : Action R E A)
      → every is_lock keys ≡ true
      → is_lock key ≡ true
      → any (λ j. text_eq j key) keys ≡ true
      → redis.get key r ≡ some t
      → All (λ sleep. (s : R) → redis.get key s ≡ some t → redis.get key (sleep s) ≡ some t) sleeps
      → (is_contention (with_locks redis ttl_ms fn before keys sleeps r).0 ≡ true)
        × (with_locks redis ttl_ms fn before keys sleeps r
            ≡ with_locks redis ttl_ms other before keys sleeps r)
  unfolding with_locks
  with_locks-excluded before keys sleeps key t r other locks lk there held keeps =
      round_excluded other (sort_keys before (distinct_keys [] keys)) sleeps key t r
        (every-sort_keys is_lock before (distinct_keys [] keys)
          ∙ every-distinct_keys is_lock [] keys locks)
        lk
        (any-sort_keys (λ j. text_eq j key) before (distinct_keys [] keys)
          ∙ any-distinct_keys key [] keys there refl)
        held keeps

  round_restores :
      (ordered : List String) (sleeps : List (R → R)) (r : R)
      → every is_lock ordered ≡ true
      → ((s : R) → ReadsAlike redis is_lock server ttl_ms (fn s).1 s)
      → All (λ sleep. (s : R) → ReadsAlike redis is_lock server ttl_ms (sleep s) s) sleeps
      → ReadsAlike redis is_lock server ttl_ms (run_rounds redis ttl_ms fn ordered sleeps r).1 r
  unfolding run_rounds
  round_restores ordered [] r locks keeps quiet k h = ground (
    arith,
    try_acquire_all-ends redis is_lock server ttl_ms ordered r locks,
    try_acquire_all-GivesBack redis is_lock server ttl_ms ordered locks r _ (λ j l. refl) k h,
    try_acquire_all-GivesBack redis is_lock server ttl_ms ordered locks r
        (fn (try_acquire_all redis ttl_ms ordered r).1).1
        (keeps (try_acquire_all redis ttl_ms ordered r).1) k h,
  )
  round_restores ordered (sleep ∷ sleeps) r locks keeps quiet k h =
      let attempt = try_acquire_all redis ttl_ms ordered r in
      let given = release_all redis attempt.0.held attempt.1 in
      ground (
        arith,
        try_acquire_all-GivesBack redis is_lock server ttl_ms ordered locks r _ (λ j l. refl) k h,
        try_acquire_all-GivesBack redis is_lock server ttl_ms ordered locks r (fn attempt.1).1
            (keeps attempt.1) k h,
        try_acquire_all-ends redis is_lock server ttl_ms ordered r locks,
        quiet.0 given k h,
        round_restores ordered sleeps (sleep given) locks keeps quiet.1 k h,
      )

  -- Where the server is up and neither the function nor other callers change a lock meanwhile, the
  -- call, however it ends,
  -- leaves every lock as it was. In any state, whoever holds a lock by then, the release deletes
  -- exactly those locks that still have the token under which they were got.
  pub with_locks-restores :
      (before : String → String → Bool) (keys : List String) (sleeps : List (R → R)) (r : R)
      → every is_lock keys ≡ true
      → ((s : R) → ReadsAlike redis is_lock server ttl_ms (fn s).1 s)
      → All (λ sleep. (s : R) → ReadsAlike redis is_lock server ttl_ms (sleep s) s) sleeps
      → ReadsAlike redis is_lock server ttl_ms (with_locks redis ttl_ms fn before keys sleeps r).1 r
        × ((held : List HeldLock) (s : R) (k : String)
            → redis.get k (release_all redis held s) ≡ after_release held k (redis.get k s))
  unfolding with_locks
  with_locks-restores before keys sleeps r locks keeps quiet = (
    round_restores (sort_keys before (distinct_keys [] keys)) sleeps r
        (every-sort_keys is_lock before (distinct_keys [] keys)
          ∙ every-distinct_keys is_lock [] keys locks)
        keeps quiet,
    release_all-reads redis is_lock server ttl_ms,
  )
