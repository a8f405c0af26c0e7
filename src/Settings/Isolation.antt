-- ===== src/Settings/Isolation.antt =====
-- Reads and writes of one key in the cache, and of the keys of different tenants.
use food_delivery_api.Common.{
  ℕ, ◌+◌, ◌≡◌, refl, none, some, Bool, true, false, not, [], ◌∷◌, every, arith, ◌==◌, leb,
  if◌then◌else◌, inl, inr, Bool-cases,
}
use food_delivery_api.Settings.{
  Text, same_text, colon, build_cache_key, SettingsCache, found, get, set, evict,
}
use food_delivery_api.Settings.Eviction.{same_text_refl, same_text_eq, found-delete_other}

abbrev pub has_no_colon : Text → Bool
has_no_colon tenant_id = every (λ c. not (c == colon)) tenant_id

-- The keys of different tenants differ, whatever settings they are for.
build_cache_key-tenant :
    (t u key other : Text)
    → has_no_colon t ≡ true
    → has_no_colon u ≡ true
    → build_cache_key t key ≡ build_cache_key u other
    → t ≡ u
build_cache_key-tenant [] [] key other ht hu h = refl
build_cache_key-tenant [] (b ∷ u) key other ht hu h = ground arith
build_cache_key-tenant (a ∷ t) [] key other ht hu h = ground arith
build_cache_key-tenant (a ∷ t) (b ∷ u) key other ht hu h =
    ground (arith, build_cache_key-tenant t u key other)

build_cache_key-apart :
    (t u key other : Text)
    → has_no_colon t ≡ true
    → has_no_colon u ≡ true
    → same_text t u ≡ false
    → same_text (build_cache_key u other) (build_cache_key t key) ≡ false
build_cache_key-apart t u key other ht hu d =
    elim (Bool-cases (same_text (build_cache_key u other) (build_cache_key t key))) [
      | inr apart ↦ apart
      | inl same ↦ ground (
        arith,
        same_text_eq (build_cache_key u other) (build_cache_key t key) same,
        build_cache_key-tenant t u key other ht hu,
        same_text_refl t,
      )
    ]

module _ {ℓ} {V : Type ℓ} where
  -- A value that was stored is read back until its time to live is over, and not after.
  pub get-set :
      (now passed ttl_ms : ℕ) (cache_key : Text) (value : V) (cache : SettingsCache V)
      → (get (now + passed) cache_key (set now cache_key value ttl_ms cache)).0
        ≡ (if leb ttl_ms passed then none else some value)
  unfolding get set
  get-set now passed ttl_ms cache_key value cache = ground (arith, same_text_refl cache_key)

  -- A write or an eviction for one tenant leaves every entry of another tenant as it is, where the
  -- ids of the tenants have no colon.
  pub set-isolated :
      (t u key other : Text) (now ttl_ms : ℕ) (value : V) (cache : SettingsCache V)
      → has_no_colon t ≡ true
      → has_no_colon u ≡ true
      → same_text t u ≡ false
      → (found (build_cache_key u other) (set now (build_cache_key t key) value ttl_ms cache)
          ≡ found (build_cache_key u other) cache)
        × (found (build_cache_key u other) (evict t key cache)
            ≡ found (build_cache_key u other) cache)
  unfolding set evict
  set-isolated t u key other now ttl_ms value cache ht hu d =
      let there = build_cache_key-apart t u key other ht hu d in
      let back : same_text (build_cache_key t key) (build_cache_key u other) ≡ false = ground (
        arith,
        same_text_eq (build_cache_key t key) (build_cache_key u other),
        there,
        same_text_refl (build_cache_key u other),
      ) in
      let kept = found-delete_other (build_cache_key t key) (build_cache_key u other) cache there in
      (rw back kept, kept)
