-- ===== src/Config.antt =====
-- The values of the configuration service: apps/config/src/domain/config/config-entry.ts and
-- config-resolution.ts, the handlers upsert-config-value.handler.ts and get-config-value.handler.ts
-- of apps/config/src/application/config, and the repository of the entries. A text is the list of its
-- code units; which of them `trim` takes for white space is an argument. The flags of the service
-- are handled alike, without the check of the value.
pub mod Upsert
pub mod Tests
use food_delivery_api.Common.{
  ℕ, ◌==◌, ltb, ◌&&◌, ◌||◌, not, Option, none, some, Bool, true, false, List, [], ◌∷◌, ◌++◌, length,
  any, find, Result, ok, err, Action, ◌>>=◌, ◌>>◌, pure, throw_if, gets, modify, lift, or_throw,
  if◌then◌else◌,
}
use food_delivery_api.Common.Chars.{Text, same_text, is_blank, trim}
use food_delivery_api.Common.Int.{pos}
use food_delivery_api.Common.Number.{Number, is_integer, below, above}
use food_delivery_api.Common.Table.{update_where}

-- The errors that the calls throw; `unique_violation` is that of the index over tenant and key.
pub data ConfigError : Type 0 where
  key_required key_too_long value_not_integer value_out_of_range unique_violation : ConfigError
  global_write_requires_platform_admin : ConfigError
  config_entry_not_found : Text → ConfigError

-- `ConfigEntryProps`; no tenant is the global default.
pub record ConfigEntry : Type 0 where
  pub id : ℕ
  pub tenant_id : Option ℕ
  pub key : Text
  pub value : Number
  pub updated_at : ℕ

abbrev pub max_key_length : ℕ
max_key_length = 255

-- `Number.MAX_SAFE_INTEGER`
abbrev pub max_value : ℕ
max_value = 9007199254740991

unfoldable pub assert_valid_key : (ℕ → Bool) → Text → Result ConfigError (Unit {0})
assert_valid_key space key =
    if is_blank (trim space key)
    then err key_required
    else if ltb max_key_length (length key)
    then err key_too_long
    else ok tt

unfoldable pub assert_valid_value : Number → Result ConfigError (Unit {0})
assert_valid_value value =
    if not (is_integer value)
    then err value_not_integer
    else if below value (pos 0) || above value (pos max_value)
    then err value_out_of_range
    else ok tt

abbrev then_ok :
    Result ConfigError (Unit {0}) → Result ConfigError ConfigEntry → Result ConfigError ConfigEntry
then_ok (ok a) r = r
then_ok (err e) r = err e

-- `ConfigEntry.create`
unfoldable pub create :
    (ℕ → Bool) → ℕ → Option ℕ → Text → Number → ℕ → Result ConfigError ConfigEntry
unfolding assert_valid_key assert_valid_value
create space id tenant_id key value now = then_ok (assert_valid_key space (trim space key)) (
    then_ok (assert_valid_value value) (
      ok (record {
        id = id;
        tenant_id = tenant_id;
        key = trim space key;
        value = value;
        updated_at = now;
      })))

-- `ConfigEntry.withValue`
unfoldable pub with_value : ConfigEntry → Number → ℕ → Result ConfigError ConfigEntry
unfolding assert_valid_value
with_value entry value now =
    then_ok (assert_valid_value value) (ok (record entry { value = value; updated_at = now }))

-- The table, and the changes that were published.
pub record ConfigDb : Type 0 where
  pub entries : List ConfigEntry
  pub published : List (Option ℕ × Text)

abbrev pub ConfigAction : Type 0 → Type 0
ConfigAction A = Action ConfigDb ConfigError A

abbrev same_tenant : Option ℕ → Option ℕ → Bool
same_tenant none none = true
same_tenant none (some u) = false
same_tenant (some t) none = false
same_tenant (some t) (some u) = t == u

abbrev pub is_entry : Option ℕ → Text → ConfigEntry → Bool
is_entry tenant_id key row = same_tenant row.tenant_id tenant_id && same_text row.key key

-- `findTenantEntry`, and `findGlobalEntry` where there is no tenant.
unfoldable pub find_entry : Option ℕ → Text → ConfigAction (Option ConfigEntry)
find_entry tenant_id key = gets (λ db. find (is_entry tenant_id key) db.entries)

abbrev has_id : ℕ → ConfigEntry → Bool
has_id id row = row.id == id

-- `repository.save`: an update of the row with the id of the entry, or else an insert.
unfoldable pub upsert : ConfigEntry → ConfigAction ConfigEntry
upsert entry db =
    if any (has_id entry.id) db.entries
    then (
      ok entry,
      record db { entries = update_where (has_id entry.id) (λ row. entry) db.entries },
    )
    else if any (is_entry entry.tenant_id entry.key) db.entries
    then (err unique_violation, db)
    else (ok entry, record db { entries = db.entries ++ entry ∷ [] })

-- `UpsertConfigValueCommand` with the context of the call, a fresh id, and whether the publication
-- succeeds.
pub record UpsertConfigValueCommand : Type 0 where
  pub key : Text
  pub value : Number
  pub global : Bool
  pub tenant_id : ℕ
  pub is_platform_admin : Bool
  pub new_id : ℕ
  pub publication_succeeds : Bool

abbrev pub target_of : UpsertConfigValueCommand → Option ℕ
target_of command = if command.global then none else some command.tenant_id

unfoldable pub entry_of :
    (ℕ → Bool) → UpsertConfigValueCommand → ℕ → Option ConfigEntry → Result ConfigError ConfigEntry
unfolding create with_value
entry_of space command now none =
    create space command.new_id (target_of command) command.key command.value now
entry_of space command now (some existing) = with_value existing command.value now

-- A failed publication is logged and forgotten.
unfoldable pub publish_value_changed : Bool → ConfigEntry → ConfigAction (Unit {0})
publish_value_changed succeeds saved = modify λ db.
    if succeeds
    then record db { published = db.published ++ (saved.tenant_id, saved.key) ∷ [] }
    else db

-- `UpsertConfigValueHandler.execute`
unfoldable pub upsert_config_value : (ℕ → Bool) → UpsertConfigValueCommand → ℕ → ConfigAction Number
unfolding find_entry entry_of upsert publish_value_changed
upsert_config_value space command now = do
  throw_if (command.global && not command.is_platform_admin) global_write_requires_platform_admin
  existing ← find_entry (target_of command) command.key
  saved ← upsert (← lift (entry_of space command now existing))
  publish_value_changed command.publication_succeeds saved
  pure saved.value

-- `resolveConfigValue`
unfoldable pub resolve_config_value : Option ConfigEntry → Option ConfigEntry → Option Number
resolve_config_value (some entry) global_entry = some entry.value
resolve_config_value none (some entry) = some entry.value
resolve_config_value none none = none

-- `GetConfigValueHandler.execute`
unfoldable pub get_config_value : ℕ → Text → ConfigAction Number
unfolding find_entry resolve_config_value
get_config_value tenant_id key = do
  tenant_entry ← find_entry (some tenant_id) key
  global_entry ← find_entry none key
  or_throw (resolve_config_value tenant_entry global_entry) (config_entry_not_found key)
