-- ===== src/Catalog/Item.antt =====
-- The aggregate: apps/catalog/src/domain/menu-item/menu-item.ts.
use food_delivery_api.Common.{
  ℕ, ◌||◌, not, Option, none, some, Bool, true, Result, ok, err, if◌then◌else◌,
}
use food_delivery_api.Common.Chars.{Text, trim}
use food_delivery_api.Common.Int.{pos}
use food_delivery_api.Common.Number.{Number, is_integer, below, to_nat}
use food_delivery_api.Common.Throws.{◌>>=◌, ◌>>◌}
use food_delivery_api.Catalog.Names.{
  CatalogError, menu_item_entity, invalid_price, or_else, assert_valid_name, renamed,
}

-- `MenuItemProps`
pub record MenuItem : Type 0 where
  pub id : ℕ
  pub tenant_id : ℕ
  pub restaurant_id : ℕ
  pub name : Text
  pub description : Option Text
  pub price_cents : ℕ
  pub is_available : Bool
  pub created_at : ℕ
  pub updated_at : ℕ
  pub deleted_at : Option ℕ
  pub version : Option ℕ

-- `CreateMenuItemCommand`
pub record CreateMenuItemCommand : Type 0 where
  pub name : Text
  pub description : Option Text
  pub price_cents : Number
  pub is_available : Option Bool

-- `UpdateMenuItemProps`
pub record UpdateMenuItemProps : Type 0 where
  pub name : Option Text
  pub description : Option (Option Text)
  pub price_cents : Option Number
  pub is_available : Option Bool

-- The price that passes.
unfoldable pub assert_valid_price_cents : Number → Result CatalogError ℕ
assert_valid_price_cents price_cents =
    if not (is_integer price_cents) || below price_cents (pos 0)
    then err invalid_price
    else ok (to_nat price_cents)

abbrev price_of : Option Number → ℕ → Result CatalogError ℕ
unfolding assert_valid_price_cents
price_of none price_cents = ok price_cents
price_of (some changed) price_cents = assert_valid_price_cents changed

module _ (space : ℕ → Bool) where
  -- `MenuItem.create`
  unfoldable pub create : ℕ → ℕ → ℕ → CreateMenuItemCommand → ℕ → Result CatalogError MenuItem
  unfolding assert_valid_name assert_valid_price_cents
  create id tenant_id restaurant_id command now =
      let name = trim space command.name in
      assert_valid_name space menu_item_entity name
      >> (assert_valid_price_cents command.price_cents >>= λ price_cents. ok (record {
        id = id;
        tenant_id = tenant_id;
        restaurant_id = restaurant_id;
        name = name;
        description = command.description;
        price_cents = price_cents;
        is_available = or_else command.is_available true;
        created_at = now;
        updated_at = now;
        deleted_at = none;
        version = none;
      }))

  -- `menuItem.update`; a price that is there is a natural number and passes.
  unfoldable pub update : MenuItem → UpdateMenuItemProps → ℕ → Result CatalogError MenuItem
  unfolding assert_valid_name assert_valid_price_cents
  update props changes now =
      let name = renamed space changes.name props.name in
      assert_valid_name space menu_item_entity name
      >> (price_of changes.price_cents props.price_cents >>= λ price_cents. ok (record props {
        name = name;
        description = or_else changes.description props.description;
        price_cents = price_cents;
        is_available = or_else changes.is_available props.is_available;
        updated_at = now;
      }))
