-- ===== src/Catalog/Commands.antt =====
-- The commands of the catalog: the handlers of apps/catalog/src/application/restaurant/commands and
-- apps/catalog/src/application/menu-item/commands, with the queries get-restaurant.handler.ts and
-- get-menu-item.handler.ts that they call. The new id and the time of a call are arguments.
use food_delivery_api.Common.{
  ℕ, ◌==◌, not, Option, none, some, Bool, false, List, [], ◌∷◌, lift, ◌>>=◌, ◌>>◌, pure, throw_if,
  or_throw, run_in_transaction,
}
use food_delivery_api.Catalog.Events.{
  restaurant_snapshot, menu_item_snapshot, restaurant_created, restaurant_updated,
  restaurant_deleted, menu_item_created, menu_item_updated, menu_item_deleted, restaurant_entry,
  menu_item_entry,
}
use food_delivery_api.Catalog.Item.{
  MenuItem, CreateMenuItemCommand, UpdateMenuItemProps, create as create_item,
  update as update_item,
}
use food_delivery_api.Catalog.Items.{
  menu_item_of, find_menu_item, save_menu_item, update_versioned_menu_item, find_all_by_restaurant,
  soft_delete_menu_item, soft_delete_by_restaurant,
}
use food_delivery_api.Catalog.Names.{
  restaurant_entity, menu_item_entity, entity_not_found, concurrency_conflict,
  tenant_context_not_set,
}
use food_delivery_api.Catalog.Restaurant.{
  Restaurant, CreateRestaurantCommand, UpdateRestaurantProps, create, update,
}
use food_delivery_api.Catalog.Restaurants.{
  restaurant_of, find_restaurant, save_restaurant, update_versioned_restaurant,
  soft_delete_restaurant,
}
use food_delivery_api.Catalog.Store.{
  CatalogAction, created, updated, deleted, version_or_first, write, record_audit,
}
use food_delivery_api.Tenancy.{Context, get_tenant_id_or_throw}

-- `expectedVersion !== undefined && expectedVersion !== before.version`
abbrev pub is_stale : Option ℕ → Option ℕ → Bool
is_stale none version = false
is_stale (some expected) version = not (expected == version_or_first version)

-- `GetRestaurantHandler.execute`
unfoldable pub get_restaurant : Context → ℕ → CatalogAction Restaurant
unfolding restaurant_of
get_restaurant context id = do
  tenant_id ← get_tenant_id_or_throw tenant_context_not_set context
  row ← find_restaurant id tenant_id
  found ← or_throw row (entity_not_found restaurant_entity id)
  pure (restaurant_of found)

-- `GetMenuItemHandler.execute`
unfoldable pub get_menu_item : Context → ℕ → ℕ → CatalogAction MenuItem
unfolding menu_item_of
get_menu_item context restaurant_id id = do
  tenant_id ← get_tenant_id_or_throw tenant_context_not_set context
  row ← find_menu_item id restaurant_id tenant_id
  found ← or_throw row (entity_not_found menu_item_entity id)
  pure (menu_item_of found)

-- The loop of `DeleteRestaurantHandler` over the items.
unfoldable pub write_deleted : Context → List MenuItem → CatalogAction (Unit {0})
unfolding write menu_item_entry
write_deleted context [] = pure tt
write_deleted context (item ∷ items) =
    write context (menu_item_entry item menu_item_deleted) >> write_deleted context items

-- `DeleteRestaurantHandler.execute`
unfoldable pub delete_restaurant : Context → ℕ → ℕ → CatalogAction (Unit {0})
unfolding get_restaurant find_all_by_restaurant soft_delete_restaurant soft_delete_by_restaurant
    record_audit write write_deleted restaurant_entry
delete_restaurant context now id = do
  before ← get_restaurant context id
  run_in_transaction (do
    items ← find_all_by_restaurant before.id before.tenant_id
    soft_delete_restaurant now before.id before.tenant_id
    soft_delete_by_restaurant now before.id before.tenant_id
    record_audit context (record {
      action = deleted;
      entity = restaurant_entity;
      entity_id = id;
      before = some (restaurant_snapshot before);
      after = none;
    })
    write context (restaurant_entry before restaurant_deleted)
    write_deleted context items)

-- `DeleteMenuItemHandler.execute`
unfoldable pub delete_menu_item : Context → ℕ → ℕ → ℕ → CatalogAction (Unit {0})
unfolding get_menu_item soft_delete_menu_item record_audit write menu_item_entry
delete_menu_item context now restaurant_id id = do
  before ← get_menu_item context restaurant_id id
  run_in_transaction (do
    soft_delete_menu_item now before.id before.tenant_id
    record_audit context (record {
      action = deleted;
      entity = menu_item_entity;
      entity_id = id;
      before = some (menu_item_snapshot before);
      after = none;
    })
    write context (menu_item_entry before menu_item_deleted))

module _ (space : ℕ → Bool) where
  -- `CreateRestaurantHandler.execute`
  unfoldable pub create_restaurant :
      Context → ℕ → ℕ → CreateRestaurantCommand → CatalogAction Restaurant
  unfolding create save_restaurant record_audit write restaurant_entry
  create_restaurant context now new_id command = do
    tenant_id ← get_tenant_id_or_throw tenant_context_not_set context
    props ← lift (create space new_id tenant_id command now)
    run_in_transaction (do
      saved ← save_restaurant props
      record_audit context (record {
        action = created;
        entity = restaurant_entity;
        entity_id = saved.id;
        before = none;
        after = some (restaurant_snapshot saved);
      })
      write context (restaurant_entry saved restaurant_created)
      pure saved)

  -- `UpdateRestaurantHandler.execute`
  unfoldable pub update_restaurant :
      Context → ℕ → ℕ → Option ℕ → UpdateRestaurantProps → CatalogAction Restaurant
  unfolding get_restaurant update update_versioned_restaurant record_audit write restaurant_entry
  update_restaurant context now id expected_version changes = do
    before ← get_restaurant context id
    throw_if (is_stale expected_version before.version) (concurrency_conflict restaurant_entity id)
    changed ← lift (update space before changes now)
    run_in_transaction (do
      saved ← update_versioned_restaurant changed
      record_audit context (record {
        action = updated;
        entity = restaurant_entity;
        entity_id = id;
        before = some (restaurant_snapshot before);
        after = some (restaurant_snapshot saved);
      })
      write context (restaurant_entry saved restaurant_updated)
      pure saved)

  -- `CreateMenuItemHandler.execute`
  unfoldable pub create_menu_item :
      Context → ℕ → ℕ → ℕ → CreateMenuItemCommand → CatalogAction MenuItem
  unfolding get_restaurant create_item save_menu_item record_audit write menu_item_entry
  create_menu_item context now new_id restaurant_id command = do
    get_restaurant context restaurant_id
    tenant_id ← get_tenant_id_or_throw tenant_context_not_set context
    props ← lift (create_item space new_id tenant_id restaurant_id command now)
    run_in_transaction (do
      saved ← save_menu_item props
      record_audit context (record {
        action = created;
        entity = menu_item_entity;
        entity_id = saved.id;
        before = none;
        after = some (menu_item_snapshot saved);
      })
      write context (menu_item_entry saved menu_item_created)
      pure saved)

  -- `UpdateMenuItemHandler.execute`
  unfoldable pub update_menu_item :
      Context → ℕ → ℕ → ℕ → Option ℕ → UpdateMenuItemProps → CatalogAction MenuItem
  unfolding get_menu_item update_item update_versioned_menu_item record_audit write menu_item_entry
  update_menu_item context now restaurant_id id expected_version changes = do
    before ← get_menu_item context restaurant_id id
    throw_if (is_stale expected_version before.version) (concurrency_conflict menu_item_entity id)
    changed ← lift (update_item space before changes now)
    run_in_transaction (do
      saved ← update_versioned_menu_item changed
      record_audit context (record {
        action = updated;
        entity = menu_item_entity;
        entity_id = id;
        before = some (menu_item_snapshot before);
        after = some (menu_item_snapshot saved);
      })
      write context (menu_item_entry saved menu_item_updated)
      pure saved)
