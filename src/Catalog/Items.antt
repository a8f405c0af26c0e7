-- ===== src/Catalog/Items.antt =====
-- apps/catalog/src/infrastructure/persistence/repositories/typeorm-menu-item.repository.ts with its
-- mapper. The conditional update and the soft deletions reach deleted rows, a lookup does not.
use mathlib.Core.Option.{map as map_option}
use food_delivery_api.Common.{
  ℕ, ◌+◌, ◌==◌, ◌&&◌, not, Option, some, Bool, List, [], ◌∷◌, ◌++◌, map, any, keep, find, ◌>>=◌,
  ◌>>◌, pure, throw_if, gets, modify, or_throw, if◌then◌else◌,
}
use food_delivery_api.Common.Table.{update_where}
use food_delivery_api.Catalog.Item.{MenuItem}
use food_delivery_api.Catalog.Names.{menu_item_entity, entity_not_found, concurrency_conflict}
use food_delivery_api.Catalog.Store.{
  MenuItemRow, CatalogAction, is_null, version_or_first, next_version,
}

-- `MenuItemMapper.toDomain`
unfoldable pub menu_item_of : MenuItemRow → MenuItem
menu_item_of row = record {
  id = row.id;
  tenant_id = row.tenant_id;
  restaurant_id = row.restaurant_id;
  name = row.name;
  description = row.description;
  price_cents = row.price_cents;
  is_available = row.is_available;
  created_at = row.created_at;
  updated_at = row.updated_at;
  deleted_at = row.deleted_at;
  version = some row.version;
}

-- `MenuItemMapper.toOrm`
unfoldable pub row_of_menu_item : MenuItem → MenuItemRow
row_of_menu_item props = record {
  id = props.id;
  tenant_id = props.tenant_id;
  restaurant_id = props.restaurant_id;
  name = props.name;
  description = props.description;
  price_cents = props.price_cents;
  is_available = props.is_available;
  version = version_or_first props.version;
  created_at = props.created_at;
  updated_at = props.updated_at;
  deleted_at = props.deleted_at;
}

-- `where: { id, restaurantId, tenantId }`, on a row that is not deleted.
abbrev pub is_menu_item : ℕ → ℕ → ℕ → MenuItemRow → Bool
is_menu_item id restaurant_id tenant_id row =
    row.id == id
    && (row.restaurant_id == restaurant_id
        && (row.tenant_id == tenant_id && is_null row.deleted_at))

abbrev pub find_menu_item : ℕ → ℕ → ℕ → CatalogAction (Option MenuItemRow)
find_menu_item id restaurant_id tenant_id =
    gets λ db. find (is_menu_item id restaurant_id tenant_id) db.menu_items

abbrev pub has_menu_item_id : ℕ → MenuItemRow → Bool
has_menu_item_id id row = row.id == id

-- `TypeOrmMenuItemRepository.save`
unfoldable pub save_menu_item : MenuItem → CatalogAction MenuItem
unfolding row_of_menu_item menu_item_of
save_menu_item props = do
  known ← gets λ db. find (has_menu_item_id props.id) db.menu_items
  let saved : MenuItemRow = record (row_of_menu_item props) {
    version = next_version (map_option (λ row. row.version) known);
  }
  modify (λ db. record db {
    menu_items =
        if any (has_menu_item_id props.id) db.menu_items
        then update_where (has_menu_item_id props.id) (λ row. saved) db.menu_items
        else db.menu_items ++ saved ∷ [];
  })
  pure (menu_item_of saved)

abbrev pub is_item_version : MenuItem → MenuItemRow → Bool
is_item_version props row =
    row.id == props.id
    && (row.restaurant_id == props.restaurant_id
        && (row.tenant_id == props.tenant_id && row.version == version_or_first props.version))

abbrev pub set_menu_item : MenuItem → MenuItemRow → MenuItemRow
set_menu_item props row = record row {
  name = props.name;
  description = props.description;
  price_cents = props.price_cents;
  is_available = props.is_available;
  updated_at = props.updated_at;
  version = row.version + 1;
}

-- `TypeOrmMenuItemRepository.updateVersioned`
unfoldable pub update_versioned_menu_item : MenuItem → CatalogAction MenuItem
unfolding menu_item_of
update_versioned_menu_item props = do
  affected ← gets λ db. any (is_item_version props) db.menu_items
  modify (λ db. record db {
    menu_items = update_where (is_item_version props) (set_menu_item props) db.menu_items;
  })
  throw_if (not affected) (concurrency_conflict menu_item_entity props.id)
  found ← find_menu_item props.id props.restaurant_id props.tenant_id
  reloaded ← or_throw found (entity_not_found menu_item_entity props.id)
  pure (menu_item_of reloaded)

abbrev pub owns_menu_item : ℕ → ℕ → MenuItemRow → Bool
owns_menu_item id tenant_id row = row.id == id && row.tenant_id == tenant_id

abbrev pub is_on_restaurant : ℕ → ℕ → MenuItemRow → Bool
is_on_restaurant restaurant_id tenant_id row =
    row.restaurant_id == restaurant_id && row.tenant_id == tenant_id

abbrev pub deleted_menu_item : ℕ → MenuItemRow → MenuItemRow
deleted_menu_item now row = record row {
  deleted_at = some now;
  updated_at = now;
  version = row.version + 1;
}

-- `TypeOrmMenuItemRepository.findAllByRestaurant`
unfoldable pub find_all_by_restaurant : ℕ → ℕ → CatalogAction (List MenuItem)
unfolding menu_item_of
find_all_by_restaurant restaurant_id tenant_id = gets λ db. map menu_item_of (
    keep (λ row. is_on_restaurant restaurant_id tenant_id row && is_null row.deleted_at)
      db.menu_items)

-- `TypeOrmMenuItemRepository.softDelete`
unfoldable pub soft_delete_menu_item : ℕ → ℕ → ℕ → CatalogAction (Unit {0})
soft_delete_menu_item now id tenant_id = modify λ db. record db {
  menu_items = update_where (owns_menu_item id tenant_id) (deleted_menu_item now) db.menu_items;
}

-- `TypeOrmMenuItemRepository.softDeleteByRestaurant`
unfoldable pub soft_delete_by_restaurant : ℕ → ℕ → ℕ → CatalogAction (Unit {0})
soft_delete_by_restaurant now restaurant_id tenant_id = modify λ db. record db {
  menu_items =
      update_where (is_on_restaurant restaurant_id tenant_id) (deleted_menu_item now) db.menu_items;
}
