-- ===== src/Catalog/ReadModel/RestaurantSteps.antt =====
-- Each command on a restaurant keeps the read model in step with the tables.
use food_delivery_api.Common.{
  ℕ, ◌≡◌, refl, ◌&&◌, not, Option, none, some, Bool, true, false, List, [], ◌∷◌, ◌++◌, map, any,
  every, keep, find, ok, arith, inl, inr, Option-cases, Result-cases, Bool-cases, All,
}
use food_delivery_api.Common.Keys.{each-Only, view-deleted, Only}
use food_delivery_api.Common.Table.{update_where, find_passes, find_of_any-none}
use food_delivery_api.Catalog.Commands.{
  get_restaurant, create_restaurant, update_restaurant, delete_restaurant, write_deleted, is_stale,
}
use food_delivery_api.Catalog.Events.{
  restaurant_deleted, restaurant_snapshot, menu_item_deleted, restaurant_entry, menu_item_entry,
}
use food_delivery_api.Catalog.Item.{MenuItem}
use food_delivery_api.Catalog.Items.{
  menu_item_of, find_all_by_restaurant, soft_delete_by_restaurant, is_on_restaurant,
  deleted_menu_item,
}
use food_delivery_api.Catalog.Names.{restaurant_entity}
use food_delivery_api.Catalog.ReadModel.Items.{absent_item-Projected}
use food_delivery_api.Catalog.ReadModel.Projection.{
  Projected, same-Projected, shown_menu_items, show_menu_item, is_live_menu_item,
}
use food_delivery_api.Catalog.ReadModel.{has_item_id}
use food_delivery_api.Catalog.ReadModel.Restaurants.{
  created-Projected, updated-Projected, deleted-Projected,
}
use food_delivery_api.Catalog.Restaurant.{
  CreateRestaurantCommand, UpdateRestaurantProps, create, update,
}
use food_delivery_api.Catalog.Restaurants.{
  restaurant_of, row_of_restaurant, has_restaurant_id, is_restaurant, is_version, owns_restaurant,
  deleted_restaurant, save_restaurant, soft_delete_restaurant,
}
use food_delivery_api.Catalog.Store.{
  RestaurantRow, MenuItemRow, CatalogDb, deleted, is_null, write, record_audit,
}
use food_delivery_api.Catalog.Versions.{update-Keeps, update_versioned_restaurant-writes}
use food_delivery_api.Tenancy.{Context, TenantRequestContext}

abbrev is_hidden : CatalogDb → MenuItem → Bool
is_hidden db item = not (any (has_item_id item.id) (shown_menu_items db.menu_items))

-- The events of items that are not shown any more.
write_deleted-Projected :
    (request : TenantRequestContext) (items : List MenuItem) (db : CatalogDb)
    → Projected db
    → every (is_hidden db) items ≡ true
    → Projected (write_deleted (some request) items db).1
unfolding write_deleted write
write_deleted-Projected request [] db p hidden = p
write_deleted-Projected request (item ∷ items) db p hidden =
    let next = write (some request) (menu_item_entry item menu_item_deleted) db in
    write_deleted-Projected request items next.1
      (absent_item-Projected db next.1 item request.tenant_id p (ground arith) refl refl refl)
      (ground arith)

write_deleted-ok :
    (request : TenantRequestContext) (items : List MenuItem) (db : CatalogDb)
    → (write_deleted (some request) items db).0 ≡ ok tt
unfolding write_deleted write
write_deleted-ok request [] db = refl
write_deleted-ok request (item ∷ items) db =
    write_deleted-ok request items
      (write (some request) (menu_item_entry item menu_item_deleted) db).1

-- The items that are deleted with their restaurant are hidden.
deleted-hidden :
    (restaurant_id tenant_id now : ℕ) (table rows : List MenuItemRow)
    → All (λ row. Only (λ r. r.id) row table) rows
    → every
        (λ item. not (
          any (has_item_id item.id) (
            shown_menu_items (
              update_where
                (is_on_restaurant restaurant_id tenant_id)
                (deleted_menu_item now)
                table))))
        (map menu_item_of (
          keep
            (λ row. is_on_restaurant restaurant_id tenant_id row && is_null row.deleted_at)
            rows))
      ≡ true
unfolding menu_item_of
deleted-hidden restaurant_id tenant_id now table [] only = refl
deleted-hidden restaurant_id tenant_id now table (row ∷ rows) (here, only) =
    let rest = deleted-hidden restaurant_id tenant_id now table rows only in
    elim (Bool-cases (is_on_restaurant restaurant_id tenant_id row)) [
      | inr n ↦ ground arith
      | inl y ↦ ground (
        arith,
        view-deleted is_live_menu_item show_menu_item (λ r. r.id) (λ s. s.id)
            (is_on_restaurant restaurant_id tenant_id) (deleted_menu_item now) row (λ r. refl)
            (λ r. refl) y table here,
      )
    ]

-- The tables before the events of the items.
abbrev deleted_tables : TenantRequestContext → ℕ → ℕ → RestaurantRow → CatalogDb → CatalogDb
unfolding restaurant_entry restaurant_of
deleted_tables request now id row db = record db {
  restaurants =
      update_where (owns_restaurant row.id row.tenant_id) (deleted_restaurant now) db.restaurants;
  menu_items =
      update_where (is_on_restaurant row.id row.tenant_id) (deleted_menu_item now) db.menu_items;
  audit_log =
      db.audit_log
      ++ record {
        entry = record {
          action = deleted;
          entity = restaurant_entity;
          entity_id = id;
          before = some (restaurant_snapshot (restaurant_of row));
          after = none;
        };
        tenant_id = request.tenant_id;
        actor = request.actor;
      }
        ∷ [];
  outbox =
      db.outbox
      ++ record {
        entry = restaurant_entry (restaurant_of row) restaurant_deleted;
        tenant_id = request.tenant_id;
      }
        ∷ [];
}

pub delete_restaurant-Projected :
    (context : Context) (now id : ℕ) (db : CatalogDb)
    → Projected db
    → Projected (delete_restaurant context now id db).1
unfolding delete_restaurant get_restaurant restaurant_of find_all_by_restaurant
    soft_delete_restaurant soft_delete_by_restaurant record_audit write restaurant_entry
delete_restaurant-Projected none now id db p = p
delete_restaurant-Projected (some request) now id db p =
    let call = delete_restaurant (some request) now id db in
    let wanted = is_restaurant id request.tenant_id in
    elim (Option-cases (find wanted db.restaurants)) [
      | inl n ↦ same-Projected db call.1 p (ground arith) (ground arith) (ground arith)
      | inr (row, found) ↦
          let passes = find_passes wanted db.restaurants row found in
          let written : CatalogDb = deleted_tables request now id row db in
          let items = map menu_item_of (
            keep (λ item. is_on_restaurant row.id row.tenant_id item && is_null item.deleted_at)
              db.menu_items) in
          let read = deleted-Projected db written row now p refl refl (ground arith) in
          let hidden =
            deleted-hidden row.id row.tenant_id now db.menu_items db.menu_items
              (each-Only (λ r. r.id) db.menu_items p.1.distinct_menu_items) in
          let ends = write_deleted-ok request items written in
          let end = (write_deleted (some request) items written).1 in
          same-Projected end call.1 (write_deleted-Projected request items written read hidden)
            (ground arith) (ground arith) (ground arith)
    ]

module _ (space : ℕ → Bool) where
  pub create_restaurant-Projected :
      (context : Context) (now new_id : ℕ) (command : CreateRestaurantCommand) (db : CatalogDb)
      → any (has_restaurant_id new_id) db.restaurants ≡ false
      → Projected db
      → Projected (create_restaurant space context now new_id command db).1
  unfolding create_restaurant create save_restaurant row_of_restaurant restaurant_of record_audit
      write restaurant_entry
  create_restaurant-Projected none now new_id command db new p = p
  create_restaurant-Projected (some request) now new_id command db new p =
      let call = create_restaurant space (some request) now new_id command db in
      elim (Result-cases (create space new_id request.tenant_id command now)) [
        | inr (e, c) ↦ same-Projected db call.1 p (ground arith) (ground arith) (ground arith)
        | inl (props, c) ↦
            let unknown = find_of_any-none (has_restaurant_id new_id) db.restaurants new in
            created-Projected db call.1 (record (row_of_restaurant props) { version = 1 }) p
              (ground arith) (ground arith) (ground arith) (ground arith) (ground arith)
      ]

  pub update_restaurant-Projected :
      (context : Context) (now id : ℕ) (expected_version : Option ℕ)
      (changes : UpdateRestaurantProps) (db : CatalogDb)
      → Projected db
      → Projected (update_restaurant space context now id expected_version changes db).1
  unfolding update_restaurant get_restaurant record_audit write restaurant_entry
  update_restaurant-Projected none now id expected_version changes db p = p
  update_restaurant-Projected (some request) now id expected_version changes db p =
      let call = update_restaurant space (some request) now id expected_version changes db in
      let wanted = is_restaurant id request.tenant_id in
      elim (Option-cases (find wanted db.restaurants)) [
        | inl n ↦ same-Projected db call.1 p (ground arith) (ground arith) (ground arith)
        | inr (row, found) ↦ elim (Result-cases (update space (restaurant_of row) changes now)) [
          | inr (e, u) ↦ same-Projected db call.1 p (ground arith) (ground arith) (ground arith)
          | inl (props, u) ↦
              let passes = find_passes wanted db.restaurants row found in
              let kept = update-Keeps space row changes now props u in
              let reached : find (is_restaurant props.id props.tenant_id) db.restaurants
                  ≡ some row =
                ground arith in
              let chosen : is_version props row ≡ true = ground arith in
              let wrote = update_versioned_restaurant-writes props row db reached chosen in
              elim (Bool-cases (is_stale expected_version (some row.version))) [
                | inl stale ↦
                    same-Projected db call.1 p (ground arith) (ground arith) (ground arith)
                | inr on_time ↦
                    updated-Projected db call.1 props row p reached chosen (ground arith)
                      (ground arith) (ground arith)
              ]
        ]
      ]
