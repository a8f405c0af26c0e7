-- ===== src/Catalog/Restaurants.antt =====
-- apps/catalog/src/infrastructure/persistence/repositories/typeorm-restaurant.repository.ts with its
-- mapper. The conditional update and the soft deletion reach deleted rows, a lookup does not.
use mathlib.Core.Option.{map as map_option}
use food_delivery_api.Common.{
  ℕ, ◌+◌, ◌==◌, ◌&&◌, not, Option, none, some, Bool, [], ◌∷◌, ◌++◌, any, find, ◌>>=◌, ◌>>◌, pure,
  throw_if, gets, modify, or_throw, if◌then◌else◌,
}
use food_delivery_api.Common.Table.{update_where}
use food_delivery_api.Catalog.Restaurant.{Restaurant}
use food_delivery_api.Catalog.Names.{restaurant_entity, entity_not_found, concurrency_conflict}
use food_delivery_api.Catalog.Store.{
  RestaurantRow, CatalogAction, is_null, version_or_first, next_version,
}

-- `RestaurantMapper.toDomain`
unfoldable pub restaurant_of : RestaurantRow → Restaurant
restaurant_of row = record {
  id = row.id;
  tenant_id = row.tenant_id;
  name = row.name;
  description = row.description;
  is_active = row.is_active;
  created_at = row.created_at;
  updated_at = row.updated_at;
  deleted_at = row.deleted_at;
  version = some row.version;
  rating = none;
  review_count = none;
}

-- `RestaurantMapper.toOrm`
unfoldable pub row_of_restaurant : Restaurant → RestaurantRow
row_of_restaurant props = record {
  id = props.id;
  tenant_id = props.tenant_id;
  name = props.name;
  description = props.description;
  is_active = props.is_active;
  version = version_or_first props.version;
  created_at = props.created_at;
  updated_at = props.updated_at;
  deleted_at = props.deleted_at;
}

-- `where: { id, tenantId }`, on a row that is not deleted.
abbrev pub is_restaurant : ℕ → ℕ → RestaurantRow → Bool
is_restaurant id tenant_id row =
    row.id == id && (row.tenant_id == tenant_id && is_null row.deleted_at)

abbrev pub find_restaurant : ℕ → ℕ → CatalogAction (Option RestaurantRow)
find_restaurant id tenant_id = gets λ db. find (is_restaurant id tenant_id) db.restaurants

abbrev pub has_restaurant_id : ℕ → RestaurantRow → Bool
has_restaurant_id id row = row.id == id

-- `TypeOrmRestaurantRepository.save`: the row that has the id is overwritten, or a new row appended.
unfoldable pub save_restaurant : Restaurant → CatalogAction Restaurant
unfolding row_of_restaurant restaurant_of
save_restaurant props = do
  known ← gets λ db. find (has_restaurant_id props.id) db.restaurants
  let saved : RestaurantRow = record (row_of_restaurant props) {
    version = next_version (map_option (λ row. row.version) known);
  }
  modify (λ db. record db {
    restaurants =
        if any (has_restaurant_id props.id) db.restaurants
        then update_where (has_restaurant_id props.id) (λ row. saved) db.restaurants
        else db.restaurants ++ saved ∷ [];
  })
  pure (restaurant_of saved)

-- The condition of the versioned update.
abbrev pub is_version : Restaurant → RestaurantRow → Bool
is_version props row =
    row.id == props.id
    && (row.tenant_id == props.tenant_id && row.version == version_or_first props.version)

abbrev pub set_restaurant : Restaurant → RestaurantRow → RestaurantRow
set_restaurant props row = record row {
  name = props.name;
  description = props.description;
  is_active = props.is_active;
  updated_at = props.updated_at;
  version = row.version + 1;
}

-- `TypeOrmRestaurantRepository.updateVersioned`
unfoldable pub update_versioned_restaurant : Restaurant → CatalogAction Restaurant
unfolding restaurant_of
update_versioned_restaurant props = do
  affected ← gets λ db. any (is_version props) db.restaurants
  modify (λ db. record db {
    restaurants = update_where (is_version props) (set_restaurant props) db.restaurants;
  })
  throw_if (not affected) (concurrency_conflict restaurant_entity props.id)
  found ← find_restaurant props.id props.tenant_id
  reloaded ← or_throw found (entity_not_found restaurant_entity props.id)
  pure (restaurant_of reloaded)

abbrev pub owns_restaurant : ℕ → ℕ → RestaurantRow → Bool
owns_restaurant id tenant_id row = row.id == id && row.tenant_id == tenant_id

abbrev pub deleted_restaurant : ℕ → RestaurantRow → RestaurantRow
deleted_restaurant now row = record row {
  deleted_at = some now;
  updated_at = now;
  version = row.version + 1;
}

-- `TypeOrmRestaurantRepository.softDelete`
unfoldable pub soft_delete_restaurant : ℕ → ℕ → ℕ → CatalogAction (Unit {0})
soft_delete_restaurant now id tenant_id = modify λ db. record db {
  restaurants = update_where (owns_restaurant id tenant_id) (deleted_restaurant now) db.restaurants;
}
