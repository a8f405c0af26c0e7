-- ===== src/Catalog/Restaurant.antt =====
-- The aggregate: apps/catalog/src/domain/restaurant/restaurant.ts.
use food_delivery_api.Common.{ℕ, Option, none, Bool, true, Result, ok}
use food_delivery_api.Common.Chars.{Text, trim}
use food_delivery_api.Common.Throws.{◌>>◌}
use food_delivery_api.Catalog.Names.{
  CatalogError, restaurant_entity, or_else, assert_valid_name, renamed,
}

-- `RestaurantProps`, with the rating in hundredths.
pub record Restaurant : Type 0 where
  pub id : ℕ
  pub tenant_id : ℕ
  pub name : Text
  pub description : Option Text
  pub is_active : Bool
  pub created_at : ℕ
  pub updated_at : ℕ
  pub deleted_at : Option ℕ
  pub version : Option ℕ
  pub rating : Option ℕ
  pub review_count : Option ℕ

-- `CreateRestaurantCommand`
pub record CreateRestaurantCommand : Type 0 where
  pub name : Text
  pub description : Option Text
  pub is_active : Option Bool

-- `UpdateRestaurantProps`; a description may be set to null.
pub record UpdateRestaurantProps : Type 0 where
  pub name : Option Text
  pub description : Option (Option Text)
  pub is_active : Option Bool

module _ (space : ℕ → Bool) where
  -- `Restaurant.create`
  unfoldable pub create : ℕ → ℕ → CreateRestaurantCommand → ℕ → Result CatalogError Restaurant
  unfolding assert_valid_name
  create id tenant_id command now =
      let name = trim space command.name in
      assert_valid_name space restaurant_entity name
      >> ok (record {
        id = id;
        tenant_id = tenant_id;
        name = name;
        description = command.description;
        is_active = or_else command.is_active true;
        created_at = now;
        updated_at = now;
        deleted_at = none;
        version = none;
        rating = none;
        review_count = none;
      })

  -- `restaurant.update`
  unfoldable pub update : Restaurant → UpdateRestaurantProps → ℕ → Result CatalogError Restaurant
  unfolding assert_valid_name
  update props changes now =
      let name = renamed space changes.name props.name in
      assert_valid_name space restaurant_entity name
      >> ok (record props {
        name = name;
        description = or_else changes.description props.description;
        is_active = or_else changes.is_active props.is_active;
        updated_at = now;
      })
