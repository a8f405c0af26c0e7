-- ===== src/Settings/Tests.antt =====
-- Reads of a client whose service answers with a number.
use food_delivery_api.Common.{ℕ, ◌≡◌, refl, none, some, [], ◌∷◌, arith}
use food_delivery_api.Settings.{
  Text, build_cache_key, ConfigChangeMessage, Caches, Outside, status_200, fetched_of, found, set,
  evict, handle_message, get_int,
}
use food_delivery_api.Settings.Eviction.{answer, get_int-after_change}
use food_delivery_api.Settings.Isolation.{set-isolated}

abbrev tenant : Text
tenant = 116 ∷ 49 ∷ []

abbrev other_tenant : Text
other_tenant = 116 ∷ 50 ∷ []

abbrev key : Text
key = 118 ∷ 97 ∷ 116 ∷ []

abbrev cached : Caches ℕ
unfolding set
cached = record { values = set 0 (build_cache_key tenant key) 5 1000 []; flags = [] }

abbrev outside : Outside ℕ ℕ
outside = record {
  now = 10;
  response = λ key tenant_id. status_200 7;
  meanwhile = λ cache. cache;
  later = 12;
}

abbrev changed : ConfigChangeMessage
changed = record { tenant_id = none; key = key }

key_is_there : key ≡ [] → ⊥
key_is_there h = ground arith

get_int-after_change_example :
    (get_int some 1000 outside key tenant 3
      (handle_message {B = ℕ} (λ r. some changed) (some 0) cached)).0
    ≡ answer {B = ℕ} some 1000 3 (fetched_of some (status_200 7))
unfolding set
get_int-after_change_example =
    get_int-after_change some 1000 outside (λ r. some changed) 0 changed tenant 3 cached refl
      key_is_there refl

set-isolated_example :
    (found {V = ℕ} (build_cache_key other_tenant key) (set 3 (build_cache_key tenant key) 8 100 [])
      ≡ found (build_cache_key other_tenant key) [])
    × (found {V = ℕ} (build_cache_key other_tenant key) (evict tenant key [])
        ≡ found {V = ℕ} (build_cache_key other_tenant key) [])
set-isolated_example = set-isolated tenant other_tenant key key 3 100 8 [] refl refl refl
