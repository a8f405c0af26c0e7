-- ===== src/Catalog/Versions.antt =====
-- The versioned updates of both repositories.
use food_delivery_api.Common.{
  ℕ, ◌≡◌, refl, some, Bool, true, false, List, [], ◌∷◌, any, find, ok, err, arith,
}
use food_delivery_api.Common.Table.{update_where, update_where-none, any_of_find, find-update_where}
use food_delivery_api.Catalog.Item.{MenuItem, UpdateMenuItemProps, update as update_item}
use food_delivery_api.Catalog.Items.{
  menu_item_of, is_menu_item, is_item_version, set_menu_item, update_versioned_menu_item,
}
use food_delivery_api.Catalog.Names.{restaurant_entity, concurrency_conflict, assert_valid_name}
use food_delivery_api.Catalog.Restaurant.{Restaurant, UpdateRestaurantProps, update}
use food_delivery_api.Catalog.Restaurants.{
  restaurant_of, is_restaurant, is_version, set_restaurant, update_versioned_restaurant,
}
use food_delivery_api.Catalog.Store.{RestaurantRow, MenuItemRow, CatalogDb, version_or_first}

-- What a change keeps of a restaurant that was read.
pub record Keeps (row : RestaurantRow) (props : Restaurant) : Type 0 where
  pub id : props.id ≡ row.id
  pub tenant_id : props.tenant_id ≡ row.tenant_id
  pub version : version_or_first props.version ≡ row.version

pub update-Keeps :
    (space : ℕ → Bool) (row : RestaurantRow) (changes : UpdateRestaurantProps) (now : ℕ)
    (props : Restaurant)
    → update space (restaurant_of row) changes now ≡ ok props
    → Keeps row props
unfolding update restaurant_of assert_valid_name
update-Keeps space row changes now props h = record {
  id = ground arith;
  tenant_id = ground arith;
  version = ground arith;
}

-- An update of the version that is there returns the row with the changes and the next version.
pub update_versioned_restaurant-writes :
    (props : Restaurant) (row : RestaurantRow) (db : CatalogDb)
    → find (is_restaurant props.id props.tenant_id) db.restaurants ≡ some row
    → is_version props row ≡ true
    → update_versioned_restaurant props db ≡ (
      ok (restaurant_of (set_restaurant props row)),
      record db {
        restaurants = update_where (is_version props) (set_restaurant props) db.restaurants;
      },
    )
unfolding update_versioned_restaurant
update_versioned_restaurant-writes props row db found chosen = ground (
  arith,
  any_of_find (is_restaurant props.id props.tenant_id) (is_version props) db.restaurants row found
      chosen,
  find-update_where (is_restaurant props.id props.tenant_id) (is_version props)
      (set_restaurant props) (λ r. refl) db.restaurants,
)

pub record KeepsItem (row : MenuItemRow) (props : MenuItem) : Type 0 where
  pub id : props.id ≡ row.id
  pub restaurant_id : props.restaurant_id ≡ row.restaurant_id
  pub tenant_id : props.tenant_id ≡ row.tenant_id
  pub version : version_or_first props.version ≡ row.version

pub update_item-KeepsItem :
    (space : ℕ → Bool) (row : MenuItemRow) (changes : UpdateMenuItemProps) (now : ℕ)
    (props : MenuItem)
    → update_item space (menu_item_of row) changes now ≡ ok props
    → KeepsItem row props
unfolding update_item menu_item_of assert_valid_name
update_item-KeepsItem space row changes now props h = record {
  id = ground arith;
  restaurant_id = ground arith;
  tenant_id = ground arith;
  version = ground arith;
}

pub update_versioned_menu_item-writes :
    (props : MenuItem) (row : MenuItemRow) (db : CatalogDb)
    → find (is_menu_item props.id props.restaurant_id props.tenant_id) db.menu_items ≡ some row
    → is_item_version props row ≡ true
    → update_versioned_menu_item props db ≡ (
      ok (menu_item_of (set_menu_item props row)),
      record db {
        menu_items = update_where (is_item_version props) (set_menu_item props) db.menu_items;
      },
    )
unfolding update_versioned_menu_item
update_versioned_menu_item-writes props row db found chosen = ground (
  arith,
  any_of_find (is_menu_item props.id props.restaurant_id props.tenant_id) (is_item_version props)
      db.menu_items row found chosen,
  find-update_where (is_menu_item props.id props.restaurant_id props.tenant_id)
      (is_item_version props) (set_menu_item props) (λ r. refl) db.menu_items,
)

is_version-moved :
    (first second : Restaurant)
    → second.id ≡ first.id
    → second.tenant_id ≡ first.tenant_id
    → version_or_first second.version ≡ version_or_first first.version
    → (rows : List RestaurantRow)
    → any (is_version second) (update_where (is_version first) (set_restaurant first) rows) ≡ false
is_version-moved first second id tenant_id version [] = refl
is_version-moved first second id tenant_id version (row ∷ rows) =
    ground (arith, is_version-moved first second id tenant_id version rows)

-- Of two changes of a restaurant that were made from one version of it, only one is written: after
-- the first was, the second throws the conflict and leaves the rows as they are.
pub update_versioned_restaurant_twice :
    (first second saved : Restaurant) (db db' : CatalogDb)
    → update_versioned_restaurant first db ≡ (ok saved, db')
    → second.id ≡ first.id
    → second.tenant_id ≡ first.tenant_id
    → version_or_first second.version ≡ version_or_first first.version
    → update_versioned_restaurant second db'
      ≡ (err (concurrency_conflict restaurant_entity first.id), db')
unfolding update_versioned_restaurant
update_versioned_restaurant_twice first second saved db db' h id tenant_id version =
    let rows = update_where (is_version first) (set_restaurant first) db.restaurants in
    let moved = is_version-moved first second id tenant_id version db.restaurants in
    ground (arith, moved, update_where-none (is_version second) (set_restaurant second) rows moved)
