-- ===== src/Catalog/ReadModel/Restaurants.antt =====
-- The event of a new, of a changed and of a deleted restaurant brings the read model to the tables.
use food_delivery_api.Common.{
  ℕ, ◌==◌, ==_refl, ◌≡◌, refl, ◌&&◌, not, some, true, false, [], ◌∷◌, ◌++◌, any, keep, find,
  for_each-append, arith,
}
use food_delivery_api.Common.Keys.{
  distinct_by-append, distinct_by-update_where, find-Only, view-append, any-view, any_of_find-view,
  view-update, view-delete,
}
use food_delivery_api.Common.Table.{update_where, find_passes}
use food_delivery_api.Catalog.Events.{
  EventType, restaurant_created, restaurant_updated, restaurant_deleted, restaurant_entry,
}
use food_delivery_api.Catalog.ReadModel.{
  ReadDb, apply_catalog_event, upsert_restaurant, remove_restaurant, remove_by_restaurant, has_id,
  set_row, is_of, is_item_on,
}
use food_delivery_api.Catalog.ReadModel.Projection.{
  Projected, apply_row, empty_read, show_restaurant, is_live_restaurant, is_live_menu_item,
  show_menu_item, rows_of-update_where, any-rows_of, rows_of-append, rows_of-keep,
}
use food_delivery_api.Catalog.Restaurant.{Restaurant}
use food_delivery_api.Catalog.Restaurants.{
  restaurant_of, has_restaurant_id, is_restaurant, is_version, set_restaurant, owns_restaurant,
  deleted_restaurant,
}
use food_delivery_api.Catalog.Items.{is_on_restaurant, deleted_menu_item}
use food_delivery_api.Catalog.Store.{RestaurantRow, CatalogDb, OutboxRow, is_null}

-- The row of the outbox for a table row.
abbrev pub event_of : EventType → RestaurantRow → OutboxRow
unfolding restaurant_entry restaurant_of
event_of event_type row = record {
  entry = restaurant_entry (restaurant_of row) event_type;
  tenant_id = row.tenant_id;
}

-- A new live row under a new id.
pub created-Projected :
    (db db' : CatalogDb) (row : RestaurantRow)
    → Projected db
    → is_null row.deleted_at ≡ true
    → any (has_restaurant_id row.id) db.restaurants ≡ false
    → db'.restaurants ≡ db.restaurants ++ row ∷ []
    → db'.menu_items ≡ db.menu_items
    → db'.outbox ≡ db.outbox ++ event_of restaurant_created row ∷ []
    → Projected db'
unfolding restaurant_entry restaurant_of apply_row apply_catalog_event upsert_restaurant
created-Projected db db' row (read, p) live new restaurants items outbox =
    let read' : ReadDb = record read {
      restaurants =
          read.restaurants
          ++ record { row = show_restaurant row; rating = 0; review_count = 0 } ∷ [];
    } in
    let absent : any (has_id row.id) read.restaurants ≡ false = ground (
      arith,
      any-rows_of row.id read.restaurants,
      any-view is_live_restaurant show_restaurant (has_restaurant_id row.id)
          (λ shown. shown.id == row.id) (λ r. refl) db.restaurants new,
      p.restaurants,
    ) in
    (
      read',
      record {
        distinct_restaurants =
            ground
              (arith, distinct_by-append (λ r. r.id) db.restaurants row p.distinct_restaurants new);
        distinct_menu_items = ground (arith, p.distinct_menu_items);
        delivered = ground (
          arith,
          for_each-append apply_row db.outbox (event_of restaurant_created row) empty_read read
              read' p.delivered (ground arith),
        );
        restaurants = ground (
          arith,
          p.restaurants,
          rows_of-append read.restaurants
              (record { row = show_restaurant row; rating = 0; review_count = 0 }),
          view-append is_live_restaurant show_restaurant db.restaurants row live,
        );
        menu_items = ground (arith, p.menu_items);
      },
    )

-- The change of the live row that a lookup by its id and tenant finds.
pub updated-Projected :
    (db db' : CatalogDb) (props : Restaurant) (row : RestaurantRow)
    → Projected db
    → find (is_restaurant props.id props.tenant_id) db.restaurants ≡ some row
    → is_version props row ≡ true
    → db'.restaurants ≡ update_where (is_version props) (set_restaurant props) db.restaurants
    → db'.menu_items ≡ db.menu_items
    → db'.outbox ≡ db.outbox ++ event_of restaurant_updated (set_restaurant props row) ∷ []
    → Projected db'
unfolding restaurant_entry restaurant_of apply_row apply_catalog_event upsert_restaurant
updated-Projected db db' props row (read, p) found chosen restaurants items outbox =
    let shown = show_restaurant (set_restaurant props row) in
    let read' : ReadDb = record read {
      restaurants = update_where (has_id row.id) (set_row shown) read.restaurants;
    } in
    let passes = find_passes (is_restaurant props.id props.tenant_id) db.restaurants row found in
    let live : is_null row.deleted_at ≡ true = ground (arith, passes) in
    let there : any (has_id row.id) read.restaurants ≡ true = ground (
      arith,
      any-rows_of row.id read.restaurants,
      any_of_find-view is_live_restaurant show_restaurant (is_restaurant props.id props.tenant_id)
          (λ s. s.id == row.id) db.restaurants row found live (==_refl row.id),
      p.restaurants,
    ) in
    (
      read',
      record {
        distinct_restaurants = ground (
          arith,
          distinct_by-update_where (λ r. r.id) (is_version props) (set_restaurant props) (λ r. refl)
              db.restaurants,
          p.distinct_restaurants,
        );
        distinct_menu_items = ground (arith, p.distinct_menu_items);
        delivered = ground (
          arith,
          for_each-append apply_row db.outbox
              (event_of restaurant_updated (set_restaurant props row)) empty_read read read'
              p.delivered (ground arith),
        );
        restaurants = ground (
          arith,
          p.restaurants,
          rows_of-update_where shown read.restaurants,
          view-update is_live_restaurant show_restaurant (λ r. r.id) (λ s. s.id) (is_version props)
              (set_restaurant props)
              (λ old. record shown { tenant_id = old.tenant_id; created_at = old.created_at }) row
              (λ r. refl) (λ r. refl) (λ r h. ground arith) chosen refl db.restaurants
              (find-Only (λ r. r.id) (is_restaurant props.id props.tenant_id) db.restaurants row
                p.distinct_restaurants found),
        );
        menu_items = ground (arith, p.menu_items);
      },
    )

-- The deletion of a restaurant and of the items on it; the events of the items are still to come.
pub deleted-Projected :
    (db db' : CatalogDb) (row : RestaurantRow) (now : ℕ)
    → Projected db
    → db'.restaurants
      ≡ update_where (owns_restaurant row.id row.tenant_id) (deleted_restaurant now) db.restaurants
    → db'.menu_items
      ≡ update_where (is_on_restaurant row.id row.tenant_id) (deleted_menu_item now) db.menu_items
    → db'.outbox ≡ db.outbox ++ event_of restaurant_deleted row ∷ []
    → Projected db'
unfolding restaurant_entry restaurant_of apply_row apply_catalog_event remove_restaurant
    remove_by_restaurant
deleted-Projected db db' row now (read, p) restaurants items outbox =
    let read' : ReadDb = record read {
      restaurants = keep (λ e. not (is_of row.id row.tenant_id e)) read.restaurants;
      menu_items = keep (λ i. not (is_item_on row.id row.tenant_id i)) read.menu_items;
    } in
    (
      read',
      record {
        distinct_restaurants = ground (
          arith,
          distinct_by-update_where (λ r. r.id) (owns_restaurant row.id row.tenant_id)
              (deleted_restaurant now) (λ r. refl) db.restaurants,
          p.distinct_restaurants,
        );
        distinct_menu_items = ground (
          arith,
          distinct_by-update_where (λ i. i.id) (is_on_restaurant row.id row.tenant_id)
              (deleted_menu_item now) (λ r. refl) db.menu_items,
          p.distinct_menu_items,
        );
        delivered = ground (
          arith,
          for_each-append apply_row db.outbox (event_of restaurant_deleted row) empty_read read
              read' p.delivered refl,
        );
        restaurants = ground (
          arith,
          p.restaurants,
          rows_of-keep row.id row.tenant_id read.restaurants,
          view-delete is_live_restaurant show_restaurant (owns_restaurant row.id row.tenant_id)
              (deleted_restaurant now) (λ s. s.id == row.id && s.tenant_id == row.tenant_id)
              (λ r. refl) (λ r. refl) db.restaurants,
        );
        menu_items = ground (
          arith,
          p.menu_items,
          view-delete is_live_menu_item show_menu_item (is_on_restaurant row.id row.tenant_id)
              (deleted_menu_item now) (is_item_on row.id row.tenant_id) (λ r. refl) (λ r. refl)
              db.menu_items,
        );
      },
    )
