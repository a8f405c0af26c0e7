-- ===== src/Settings/Eviction.antt =====
-- What an eviction removes, and what it leaves.
use food_delivery_api.Common.{
  ℕ, ◌≡◌, refl, Option, none, some, Bool, true, false, not, List, [], ◌∷◌, ◌++◌, find, keep, arith,
  ==_refl, ==_iff,
}
use food_delivery_api.Settings.{
  Text, same_text, colon, build_cache_key, SettingsCache, ends_with, delete, found, get, evict,
  evict_all_for_key, ConfigChangeMessage, evict_one, Caches, evict_for_config_change, Outside,
  Fetched, nothing_set, value_set, fetch_failed, fetched_of, store_fetched, read_or_fetch,
  read_setting, get_int, handle_message,
}

pub same_text_refl : (s : Text) → same_text s s ≡ true
same_text_refl [] = refl
same_text_refl (a ∷ s) = ground (arith, ==_refl a, same_text_refl s)

pub same_text_eq : (s t : Text) → same_text s t ≡ true → s ≡ t
same_text_eq [] [] h = refl
same_text_eq [] (b ∷ t) h = ground arith
same_text_eq (a ∷ s) [] h = ground arith
same_text_eq (a ∷ s) (b ∷ t) h = ground (arith, ==_iff a b, same_text_eq s t)

ends_with-append : (text suffix : Text) → ends_with suffix (text ++ suffix) ≡ true
ends_with-append [] [] = refl
ends_with-append [] (a ∷ suffix) = ground (arith, same_text_refl (a ∷ suffix))
ends_with-append (c ∷ text) suffix = ground (arith, ends_with-append text suffix)

find-keep-none {ℓ} :
    {A : Type ℓ} (wanted kept : A → Bool)
    → ((a : A) → wanted a ≡ true → kept a ≡ false)
    → (rows : List A) → find wanted (keep kept rows) ≡ none
find-keep-none wanted kept h [] = refl
find-keep-none wanted kept h (r ∷ rows) = ground (arith, h r, find-keep-none wanted kept h rows)

find-keep {ℓ} :
    {A : Type ℓ} (wanted kept : A → Bool)
    → ((a : A) → wanted a ≡ true → kept a ≡ true)
    → (rows : List A) → find wanted (keep kept rows) ≡ find wanted rows
find-keep wanted kept h [] = refl
find-keep wanted kept h (r ∷ rows) = ground (arith, h r, find-keep wanted kept h rows)

module _ {ℓ} {V : Type ℓ} where
  pub found-delete :
      (cache_key : Text) (cache : SettingsCache V) → found cache_key (delete cache_key cache) ≡ none
  found-delete cache_key cache =
      find-keep-none (λ r. same_text r.cache_key cache_key)
        (λ r. not (same_text r.cache_key cache_key)) (λ r h. ground arith) cache

  pub found-delete_other :
      (cache_key other : Text) (cache : SettingsCache V)
      → same_text other cache_key ≡ false
      → found other (delete cache_key cache) ≡ found other cache
  found-delete_other cache_key other cache d =
      find-keep (λ r. same_text r.cache_key other) (λ r. not (same_text r.cache_key cache_key))
        (λ r h. ground (arith, same_text_eq r.cache_key other)) cache

  found-evict_all_for_key :
      (tenant_id key : Text) (cache : SettingsCache V)
      → found (build_cache_key tenant_id key) (evict_all_for_key key cache) ≡ none
  unfolding evict_all_for_key
  found-evict_all_for_key tenant_id key cache =
      find-keep-none (λ r. same_text r.cache_key (build_cache_key tenant_id key))
        (λ r. not (ends_with (colon ∷ key) r.cache_key))
        (λ r h. ground (
          arith,
          same_text_eq r.cache_key (build_cache_key tenant_id key),
          ends_with-append tenant_id (colon ∷ key),
        ))
        cache

-- Whether a change concerns a tenant.
abbrev pub concerns : Option Text → Text → Bool
concerns none tenant_id = true
concerns (some t) tenant_id = same_text t tenant_id

module _ {ℓ κ} {V : Type ℓ} {B : Type κ} (field : B → Option V) (ttl_ms : ℕ) where
  evicted_none :
      (key tenant_id : Text) (changed : Option Text) (cache : SettingsCache V)
      → concerns changed tenant_id ≡ true
      → found
          (build_cache_key tenant_id key)
          (evict_one (record { tenant_id = changed; key = key }) changed cache)
        ≡ none
  unfolding evict evict_all_for_key
  evicted_none key tenant_id none cache h = found-evict_all_for_key tenant_id key cache
  evicted_none key tenant_id (some t) cache h =
      ground (arith, same_text_eq t tenant_id, found-delete (build_cache_key tenant_id key) cache)

  -- What a read answers with, by what the service gave.
  abbrev pub answer : V → Fetched V → V
  answer default nothing_set = default
  answer default (value_set v) = v
  answer default fetch_failed = default

  stored_answer :
      (outside : Outside V B) (cache_key : Text) (default : V) (fetched : Fetched V)
      (cache : SettingsCache V)
      → (store_fetched field ttl_ms outside cache_key default fetched cache).0
        ≡ answer default fetched
  unfolding store_fetched
  stored_answer outside cache_key default nothing_set cache = refl
  stored_answer outside cache_key default (value_set v) cache = refl
  stored_answer outside cache_key default fetch_failed cache = refl

  read_setting-uncached :
      (outside : Outside V B) (key tenant_id : Text) (default : V) (cache : SettingsCache V)
      → found (build_cache_key tenant_id key) cache ≡ none
      → (read_setting field ttl_ms outside key tenant_id default cache).0
        ≡ answer default (fetched_of field (outside.response key tenant_id))
  unfolding read_setting read_or_fetch get
  read_setting-uncached outside key tenant_id default cache h = rw h (
      stored_answer outside (build_cache_key tenant_id key) default
        (fetched_of field (outside.response key tenant_id)) (outside.meanwhile cache))

handled {ℓ κ} :
    {N : Type ℓ} {R : Type κ} (parse : R → Option ConfigChangeMessage) (raw : R)
    (message : ConfigChangeMessage) (caches : Caches N)
    → parse raw ≡ some message
    → (message.key ≡ [] → ⊥)
    → (handle_message parse (some raw) caches).values
      ≡ evict_one message message.tenant_id caches.values
unfolding handle_message evict_for_config_change
handled parse raw message caches parsed has_key = ground arith

-- After the message of a change that concerns a tenant, the tenant's next read of the key answers
-- with what the service then gives, and with the caller's default where it gives nothing.
pub get_int-after_change {ℓ κ μ} :
    {N : Type ℓ} {B : Type κ} {R : Type μ} (numeric : B → Option N) (ttl_ms : ℕ)
    (outside : Outside N B) (parse : R → Option ConfigChangeMessage) (raw : R)
    (message : ConfigChangeMessage) (tenant_id : Text) (default : N) (caches : Caches N)
    → parse raw ≡ some message
    → (message.key ≡ [] → ⊥)
    → concerns message.tenant_id tenant_id ≡ true
    → (get_int numeric ttl_ms outside message.key tenant_id default
        (handle_message parse (some raw) caches)).0
      ≡ answer numeric ttl_ms default (fetched_of numeric (outside.response message.key tenant_id))
unfolding get_int
get_int-after_change numeric ttl_ms outside parse raw message tenant_id default caches parsed
      has_key concerned =
    rw (handled parse raw message caches parsed has_key) (
      read_setting-uncached numeric ttl_ms outside message.key tenant_id default
        (evict_one message message.tenant_id caches.values)
        (evicted_none numeric ttl_ms message.key tenant_id message.tenant_id caches.values
          concerned))
