-- ===== src/Settings.antt =====
-- The client of the configuration service: libs/shared/settings/src/settings-cache.ts,
-- config-events.ts, config-events.consumer.ts and settings-client.ts. The configuration service and
-- the parser of JSON are arguments. Keys and tenants are lists of code points.
pub mod Isolation
pub mod Tests
pub mod Eviction
use food_delivery_api.Common.{
  ℕ, ◌+◌, ◌==◌, leb, Option, none, some, Bool, true, false, not, ◌&&◌, List, [], ◌∷◌, ◌++◌, find,
  keep, if◌then◌else◌,
}

abbrev pub Text : Type 0
Text = List ℕ

abbrev pub same_text : Text → Text → Bool
same_text [] [] = true
same_text [] (b ∷ t) = false
same_text (a ∷ s) [] = false
same_text (a ∷ s) (b ∷ t) = (a == b) && same_text s t

abbrev pub colon : ℕ
colon = 58

-- `buildCacheKey`
abbrev pub build_cache_key : Text → Text → Text
build_cache_key tenant_id key = tenant_id ++ colon ∷ key

-- `CacheRecord`, with the key that the map holds it under.
pub record CacheRecord {ℓ} (V : Type ℓ) : Type ℓ where
  pub cache_key : Text
  pub value : V
  pub expires_at : ℕ

abbrev pub SettingsCache {ℓ} : Type ℓ → Type ℓ
SettingsCache V = List (CacheRecord V)

-- `text.endsWith(suffix)`
abbrev pub ends_with : Text → Text → Bool
ends_with suffix [] = same_text suffix []
ends_with suffix (c ∷ text) = if same_text suffix (c ∷ text) then true else ends_with suffix text

module _ {ℓ} {V : Type ℓ} where
  -- `store.delete(cacheKey)`
  abbrev pub delete : Text → SettingsCache V → SettingsCache V
  delete cache_key cache = keep (λ r. not (same_text r.cache_key cache_key)) cache

  abbrev pub found : Text → SettingsCache V → Option (CacheRecord V)
  found cache_key cache = find (λ r. same_text r.cache_key cache_key) cache

  abbrev live : ℕ → Text → SettingsCache V → Option (CacheRecord V) → Option V × SettingsCache V
  live now cache_key cache none = (none, cache)
  live now cache_key cache (some r) =
      if leb r.expires_at now then (none, delete cache_key cache) else (some r.value, cache)

  -- `SettingsCache.get`, at a time of the clock.
  unfoldable pub get : ℕ → Text → SettingsCache V → Option V × SettingsCache V
  get now cache_key cache = live now cache_key cache (found cache_key cache)

  -- `SettingsCache.set`
  unfoldable pub set : ℕ → Text → V → ℕ → SettingsCache V → SettingsCache V
  set now cache_key value ttl_ms cache =
      record { cache_key = cache_key; value = value; expires_at = now + ttl_ms }
      ∷ delete cache_key cache

  -- `SettingsCache.evict`
  unfoldable pub evict : Text → Text → SettingsCache V → SettingsCache V
  evict tenant_id key cache = delete (build_cache_key tenant_id key) cache

  -- `SettingsCache.evictAllForKey`
  unfoldable pub evict_all_for_key : Text → SettingsCache V → SettingsCache V
  evict_all_for_key key cache = keep (λ r. not (ends_with (colon ∷ key) r.cache_key)) cache

-- `ConfigChangeMessage`; no tenant is a change for every tenant.
pub record ConfigChangeMessage : Type 0 where
  pub tenant_id : Option Text
  pub key : Text

abbrev pub evict_one {ℓ} :
    {V : Type ℓ} → ConfigChangeMessage → Option Text → SettingsCache V → SettingsCache V
unfolding evict evict_all_for_key
evict_one message none cache = evict_all_for_key message.key cache
evict_one message (some tenant_id) cache = evict tenant_id message.key cache

-- The two caches of a client.
pub record Caches {ℓ} (N : Type ℓ) : Type ℓ where
  pub values : SettingsCache N
  pub flags : SettingsCache Bool

-- `evictForConfigChange`
unfoldable pub evict_for_config_change {ℓ} :
    {N : Type ℓ} → ConfigChangeMessage → Caches N → Caches N
unfolding evict evict_all_for_key
evict_for_config_change message caches = record {
  values = evict_one message message.tenant_id caches.values;
  flags = evict_one message message.tenant_id caches.flags;
}

abbrev is_missing : Text → Bool
is_missing [] = true
is_missing (c ∷ key) = false

-- `ConfigEventsConsumer.handleMessage`: the bytes that are there and parse to a message with a key
-- evict; all others are skipped.
unfoldable pub handle_message {ℓ κ} :
    {N : Type ℓ} {B : Type κ} → (B → Option ConfigChangeMessage) → Option B → Caches N → Caches N
unfolding evict_for_config_change
handle_message parse none caches = caches
handle_message parse (some raw) caches = elim (parse raw) [
  | none ↦ caches
  | some message ↦ if is_missing message.key then caches else evict_for_config_change message caches
]

-- `ConfigResponse` with its body; `unreachable` is a call that throws.
pub data ConfigResponse {ℓ} (B : Type ℓ) : Type ℓ where
  status_404 : ConfigResponse B
  status_200 : B → ConfigResponse B
  unreachable : ConfigResponse B

-- What a fetch gives: nothing for the key, a value, or an error.
pub data Fetched {ℓ} (V : Type ℓ) : Type ℓ where
  nothing_set : Fetched V
  value_set : V → Fetched V
  fetch_failed : Fetched V

-- A body whose field has another type is an error.
abbrev pub fetched_of {ℓ κ} :
    {B : Type ℓ} {V : Type κ} → (B → Option V) → ConfigResponse B → Fetched V
fetched_of field status_404 = nothing_set
fetched_of field (status_200 body) = elim (field body) [
  | none ↦ fetch_failed
  | some v ↦ value_set v
]
fetched_of field unreachable = fetch_failed

-- What a client's read takes from outside: the time of the read, the response, what other calls do
-- to the cache until it is there, and the time at which it is stored.
pub record Outside {ℓ κ} (V : Type ℓ) (B : Type κ) : Type (ℓ ⊔ κ) where
  pub now : ℕ
  pub response : Text → Text → ConfigResponse B
  pub meanwhile : SettingsCache V → SettingsCache V
  pub later : ℕ

module _ {ℓ κ} {V : Type ℓ} {B : Type κ} (field : B → Option V) (ttl_ms : ℕ) where
  unfoldable pub store_fetched :
      Outside V B → Text → V → Fetched V → SettingsCache V → V × SettingsCache V
  unfolding set
  store_fetched outside cache_key default nothing_set cache = (default, cache)
  store_fetched outside cache_key default (value_set v) cache =
      (v, set outside.later cache_key v ttl_ms cache)
  store_fetched outside cache_key default fetch_failed cache = (default, cache)

  unfoldable pub read_or_fetch :
      Outside V B → Text → Text → V → Option V × SettingsCache V → V × SettingsCache V
  unfolding store_fetched
  read_or_fetch outside key tenant_id default (some cached, cache) = (cached, cache)
  read_or_fetch outside key tenant_id default (none, cache) =
      store_fetched outside (build_cache_key tenant_id key) default
        (fetched_of field (outside.response key tenant_id)) (outside.meanwhile cache)

  -- The common body of `getInt` and `isEnabled`.
  unfoldable pub read_setting :
      Outside V B → Text → Text → V → SettingsCache V → V × SettingsCache V
  unfolding get read_or_fetch
  read_setting outside key tenant_id default cache =
      read_or_fetch outside key tenant_id default
        (get outside.now (build_cache_key tenant_id key) cache)

-- `SettingsClient.getInt`; `numeric` reads a finite number from the body.
unfoldable pub get_int {ℓ κ} :
    {N : Type ℓ} {B : Type κ}
    → (B → Option N)
    → ℕ
    → Outside N B
    → Text
    → Text
    → N
    → Caches N
    → N × Caches N
unfolding read_setting
get_int numeric ttl_ms outside key tenant_id default caches =
    let read = read_setting numeric ttl_ms outside key tenant_id default caches.values in
    (read.0, record caches { values = read.1 })

-- `SettingsClient.isEnabled`; `boolean` reads a flag from the body.
unfoldable pub is_enabled {ℓ κ} :
    {N : Type ℓ} {B : Type κ}
    → (B → Option Bool)
    → ℕ
    → Outside Bool B
    → Text
    → Text
    → Bool
    → Caches N
    → Bool × Caches N
unfolding read_setting
is_enabled boolean ttl_ms outside key tenant_id default caches =
    let read = read_setting boolean ttl_ms outside key tenant_id default caches.flags in
    (read.0, record caches { flags = read.1 })
