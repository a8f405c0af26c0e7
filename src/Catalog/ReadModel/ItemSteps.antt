-- ===== src/Catalog/ReadModel/ItemSteps.antt =====
-- Each command on a menu item keeps the read model in step with the tables.
use food_delivery_api.Common.{
  ℕ, ◌≡◌, Option, none, some, Bool, true, false, any, find, arith, inl, inr, Option-cases,
  Result-cases, Bool-cases,
}
use food_delivery_api.Common.Table.{find_passes, find_of_any-none}
use food_delivery_api.Catalog.Commands.{
  get_restaurant, get_menu_item, create_menu_item, update_menu_item, delete_menu_item, is_stale,
}
use food_delivery_api.Catalog.Events.{menu_item_entry}
use food_delivery_api.Catalog.Item.{
  CreateMenuItemCommand, UpdateMenuItemProps, create as create_item, update as update_item,
}
use food_delivery_api.Catalog.Items.{
  menu_item_of, row_of_menu_item, has_menu_item_id, is_menu_item, is_item_version, save_menu_item,
  soft_delete_menu_item,
}
use food_delivery_api.Catalog.ReadModel.Items.{
  created_item-Projected, updated_item-Projected, deleted_item-Projected,
}
use food_delivery_api.Catalog.ReadModel.Projection.{Projected, same-Projected}
use food_delivery_api.Catalog.Restaurants.{is_restaurant}
use food_delivery_api.Catalog.Store.{CatalogDb, write, record_audit}
use food_delivery_api.Catalog.Versions.{update_item-KeepsItem, update_versioned_menu_item-writes}
use food_delivery_api.Tenancy.{Context}

pub delete_menu_item-Projected :
    (context : Context) (now restaurant_id id : ℕ) (db : CatalogDb)
    → Projected db
    → Projected (delete_menu_item context now restaurant_id id db).1
unfolding delete_menu_item get_menu_item menu_item_of soft_delete_menu_item record_audit write
    menu_item_entry
delete_menu_item-Projected none now restaurant_id id db p = p
delete_menu_item-Projected (some request) now restaurant_id id db p =
    let call = delete_menu_item (some request) now restaurant_id id db in
    let wanted = is_menu_item id restaurant_id request.tenant_id in
    elim (Option-cases (find wanted db.menu_items)) [
      | inl n ↦ same-Projected db call.1 p (ground arith) (ground arith) (ground arith)
      | inr (row, found) ↦
          let passes = find_passes wanted db.menu_items row found in
          deleted_item-Projected db call.1 row now p (ground arith) (ground arith) (ground arith)
    ]

module _ (space : ℕ → Bool) where
  pub create_menu_item-Projected :
      (context : Context) (now new_id restaurant_id : ℕ) (command : CreateMenuItemCommand)
      (db : CatalogDb)
      → any (has_menu_item_id new_id) db.menu_items ≡ false
      → Projected db
      → Projected (create_menu_item space context now new_id restaurant_id command db).1
  unfolding create_menu_item get_restaurant create_item save_menu_item row_of_menu_item menu_item_of
      record_audit write menu_item_entry
  create_menu_item-Projected none now new_id restaurant_id command db new p = p
  create_menu_item-Projected (some request) now new_id restaurant_id command db new p =
      let call = create_menu_item space (some request) now new_id restaurant_id command db in
      elim (Option-cases (find (is_restaurant restaurant_id request.tenant_id) db.restaurants)) [
        | inl n ↦ same-Projected db call.1 p (ground arith) (ground arith) (ground arith)
        | inr (row, found) ↦
            elim (Result-cases
              (create_item space new_id request.tenant_id restaurant_id command now)) [
                | inr (e, c) ↦
                    same-Projected db call.1 p (ground arith) (ground arith) (ground arith)
                | inl (props, c) ↦
                    let unknown = find_of_any-none (has_menu_item_id new_id) db.menu_items new in
                    created_item-Projected db call.1
                      (record (row_of_menu_item props) { version = 1 }) p (ground arith)
                      (ground arith) (ground arith) (ground arith) (ground arith)
              ]
      ]

  pub update_menu_item-Projected :
      (context : Context) (now restaurant_id id : ℕ) (expected_version : Option ℕ)
      (changes : UpdateMenuItemProps) (db : CatalogDb)
      → Projected db
      → Projected
          (update_menu_item space context now restaurant_id id expected_version changes db).1
  unfolding update_menu_item get_menu_item record_audit write menu_item_entry
  update_menu_item-Projected none now restaurant_id id expected_version changes db p = p
  update_menu_item-Projected (some request) now restaurant_id id expected_version changes db p =
      let call =
        update_menu_item space (some request) now restaurant_id id expected_version changes db in
      let wanted = is_menu_item id restaurant_id request.tenant_id in
      elim (Option-cases (find wanted db.menu_items)) [
        | inl n ↦ same-Projected db call.1 p (ground arith) (ground arith) (ground arith)
        | inr (row, found) ↦
            elim (Result-cases (update_item space (menu_item_of row) changes now)) [
              | inr (e, u) ↦ same-Projected db call.1 p (ground arith) (ground arith) (ground arith)
              | inl (props, u) ↦
                  let passes = find_passes wanted db.menu_items row found in
                  let kept = update_item-KeepsItem space row changes now props u in
                  let reached : find (is_menu_item props.id props.restaurant_id props.tenant_id)
                        db.menu_items
                      ≡ some row =
                    ground arith in
                  let chosen : is_item_version props row ≡ true = ground arith in
                  let wrote = update_versioned_menu_item-writes props row db reached chosen in
                  elim (Bool-cases (is_stale expected_version (some row.version))) [
                    | inl stale ↦
                        same-Projected db call.1 p (ground arith) (ground arith) (ground arith)
                    | inr on_time ↦
                        updated_item-Projected db call.1 props row p reached chosen (ground arith)
                          (ground arith) (ground arith)
                  ]
            ]
      ]
