-- ===== src/Catalog/Names.antt =====
-- The names of restaurants and menu items: `assertValidName` of
-- apps/catalog/src/domain/restaurant/restaurant.ts, which
-- apps/catalog/src/domain/menu-item/menu-item.ts repeats, and the exceptions of the service. A text
-- is the list of its code units; which of them `trim` takes for white space is an argument.
use food_delivery_api.Common.{
  ℕ, ltb, Bool, Option, none, some, length, Result, ok, err, if◌then◌else◌,
}
use food_delivery_api.Common.Chars.{Text, is_blank, trim}

-- What an error or an entry of the audit log is about.
pub data Entity : Type 0 where
  restaurant_entity menu_item_entity : Entity

pub data CatalogError : Type 0 where
  name_required name_too_long : Entity → CatalogError
  invalid_price : CatalogError
  entity_not_found concurrency_conflict : Entity → ℕ → CatalogError
  tenant_context_not_set missing_columns : CatalogError
  duplicate_event : ℕ → CatalogError

-- `value ?? fallback`
abbrev pub or_else {ℓ} : {A : Type ℓ} → Option A → A → A
or_else none fallback = fallback
or_else (some a) fallback = a

abbrev pub max_name_length : ℕ
max_name_length = 255

unfoldable pub assert_valid_name : (ℕ → Bool) → Entity → Text → Result CatalogError (Unit {0})
assert_valid_name space entity name =
    if is_blank (trim space name)
    then err (name_required entity)
    else if ltb max_name_length (length name)
    then err (name_too_long entity)
    else ok tt

-- `changes.name !== undefined ? changes.name.trim() : this.props.name`
abbrev pub renamed : (ℕ → Bool) → Option Text → Text → Text
renamed space none name = name
renamed space (some changed) name = trim space changed
