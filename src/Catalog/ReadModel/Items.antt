-- ===== src/Catalog/ReadModel/Items.antt =====
-- The event of a new, of a changed and of a deleted menu item brings the read model to the tables.
use food_delivery_api.Common.{
  ℕ, ==_refl, ◌≡◌, refl, not, some, true, false, [], ◌∷◌, ◌++◌, any, keep, find, for_each-append,
  arith,
}
use food_delivery_api.Common.Keys.{
  distinct_by-append, distinct_by-update_where, find-Only, view-append, any-view, any_of_find-view,
  view-update, view-delete, keep-none,
}
use food_delivery_api.Common.Selection.{any-weaken}
use food_delivery_api.Common.Table.{update_where, find_passes}
use food_delivery_api.Catalog.Events.{
  EventType, menu_item_created, menu_item_updated, menu_item_deleted, menu_item_entry,
}
use food_delivery_api.Catalog.Item.{MenuItem}
use food_delivery_api.Catalog.Items.{
  menu_item_of, has_menu_item_id, is_menu_item, is_item_version, set_menu_item, owns_menu_item,
  deleted_menu_item,
}
use food_delivery_api.Catalog.ReadModel.{
  ReadDb, apply_catalog_event, upsert_menu_item, remove_menu_item, has_item_id, is_item_of,
}
use food_delivery_api.Catalog.ReadModel.Projection.{
  Projected, apply_row, empty_read, show_menu_item, is_live_menu_item, shown_menu_items,
}
use food_delivery_api.Catalog.Store.{MenuItemRow, CatalogDb, OutboxRow, is_null}

-- The row of the outbox for a table row.
abbrev pub item_event_of : EventType → MenuItemRow → OutboxRow
unfolding menu_item_entry menu_item_of
item_event_of event_type row = record {
  entry = menu_item_entry (menu_item_of row) event_type;
  tenant_id = row.tenant_id;
}

-- A new live row under a new id.
pub created_item-Projected :
    (db db' : CatalogDb) (row : MenuItemRow)
    → Projected db
    → is_null row.deleted_at ≡ true
    → any (has_menu_item_id row.id) db.menu_items ≡ false
    → db'.restaurants ≡ db.restaurants
    → db'.menu_items ≡ db.menu_items ++ row ∷ []
    → db'.outbox ≡ db.outbox ++ item_event_of menu_item_created row ∷ []
    → Projected db'
unfolding menu_item_entry menu_item_of apply_row apply_catalog_event upsert_menu_item
created_item-Projected db db' row (read, p) live new restaurants items outbox =
    let read' : ReadDb = record read { menu_items = read.menu_items ++ show_menu_item row ∷ [] } in
    let absent : any (has_item_id row.id) read.menu_items ≡ false = ground (
      arith,
      any-view is_live_menu_item show_menu_item (has_menu_item_id row.id) (has_item_id row.id)
          (λ r. refl) db.menu_items new,
      p.menu_items,
    ) in
    (
      read',
      record {
        distinct_restaurants = ground (arith, p.distinct_restaurants);
        distinct_menu_items =
            ground
              (arith, distinct_by-append (λ r. r.id) db.menu_items row p.distinct_menu_items new);
        delivered = ground (
          arith,
          for_each-append apply_row db.outbox (item_event_of menu_item_created row) empty_read read
              read' p.delivered (ground arith),
        );
        restaurants = ground (arith, p.restaurants);
        menu_items = ground (
          arith,
          p.menu_items,
          view-append is_live_menu_item show_menu_item db.menu_items row live,
        );
      },
    )

-- The change of the live row that a lookup by its id, restaurant and tenant finds.
pub updated_item-Projected :
    (db db' : CatalogDb) (props : MenuItem) (row : MenuItemRow)
    → Projected db
    → find (is_menu_item props.id props.restaurant_id props.tenant_id) db.menu_items ≡ some row
    → is_item_version props row ≡ true
    → db'.restaurants ≡ db.restaurants
    → db'.menu_items ≡ update_where (is_item_version props) (set_menu_item props) db.menu_items
    → db'.outbox ≡ db.outbox ++ item_event_of menu_item_updated (set_menu_item props row) ∷ []
    → Projected db'
unfolding menu_item_entry menu_item_of apply_row apply_catalog_event upsert_menu_item
updated_item-Projected db db' props row (read, p) found chosen restaurants items outbox =
    let wanted = is_menu_item props.id props.restaurant_id props.tenant_id in
    let shown = show_menu_item (set_menu_item props row) in
    let read' : ReadDb = record read {
      menu_items = update_where (has_item_id row.id) (λ old. shown) read.menu_items;
    } in
    let passes = find_passes wanted db.menu_items row found in
    let live : is_null row.deleted_at ≡ true = ground (arith, passes) in
    let there : any (has_item_id row.id) read.menu_items ≡ true = ground (
      arith,
      any_of_find-view is_live_menu_item show_menu_item wanted (has_item_id row.id) db.menu_items
          row found live (==_refl row.id),
      p.menu_items,
    ) in
    (
      read',
      record {
        distinct_restaurants = ground (arith, p.distinct_restaurants);
        distinct_menu_items = ground (
          arith,
          distinct_by-update_where (λ r. r.id) (is_item_version props) (set_menu_item props)
              (λ r. refl) db.menu_items,
          p.distinct_menu_items,
        );
        delivered = ground (
          arith,
          for_each-append apply_row db.outbox
              (item_event_of menu_item_updated (set_menu_item props row)) empty_read read read'
              p.delivered (ground arith),
        );
        restaurants = ground (arith, p.restaurants);
        menu_items = ground (
          arith,
          p.menu_items,
          view-update is_live_menu_item show_menu_item (λ r. r.id) (λ s. s.id)
              (is_item_version props) (set_menu_item props) (λ old. shown) row (λ r. refl)
              (λ r. refl) (λ r h. ground arith) chosen refl db.menu_items
              (find-Only (λ r. r.id) wanted db.menu_items row p.distinct_menu_items found),
        );
      },
    )

-- The deletion of an item.
pub deleted_item-Projected :
    (db db' : CatalogDb) (row : MenuItemRow) (now : ℕ)
    → Projected db
    → db'.restaurants ≡ db.restaurants
    → db'.menu_items
      ≡ update_where (owns_menu_item row.id row.tenant_id) (deleted_menu_item now) db.menu_items
    → db'.outbox ≡ db.outbox ++ item_event_of menu_item_deleted row ∷ []
    → Projected db'
unfolding menu_item_entry menu_item_of apply_row apply_catalog_event remove_menu_item
deleted_item-Projected db db' row now (read, p) restaurants items outbox =
    let read' : ReadDb = record read {
      menu_items = keep (λ i. not (is_item_of row.id row.tenant_id i)) read.menu_items;
    } in
    (
      read',
      record {
        distinct_restaurants = ground (arith, p.distinct_restaurants);
        distinct_menu_items = ground (
          arith,
          distinct_by-update_where (λ i. i.id) (owns_menu_item row.id row.tenant_id)
              (deleted_menu_item now) (λ r. refl) db.menu_items,
          p.distinct_menu_items,
        );
        delivered = ground (
          arith,
          for_each-append apply_row db.outbox (item_event_of menu_item_deleted row) empty_read read
              read' p.delivered refl,
        );
        restaurants = ground (arith, p.restaurants);
        menu_items = ground (
          arith,
          p.menu_items,
          view-delete is_live_menu_item show_menu_item (owns_menu_item row.id row.tenant_id)
              (deleted_menu_item now) (is_item_of row.id row.tenant_id) (λ r. refl) (λ r. refl)
              db.menu_items,
        );
      },
    )

-- The deletion event of an item that the read model does not show.
pub absent_item-Projected :
    (db db' : CatalogDb) (item : MenuItem) (tenant_id : ℕ)
    → Projected db
    → any (has_item_id item.id) (shown_menu_items db.menu_items) ≡ false
    → db'.restaurants ≡ db.restaurants
    → db'.menu_items ≡ db.menu_items
    → db'.outbox
      ≡ db.outbox
        ++ record { entry = menu_item_entry item menu_item_deleted; tenant_id = tenant_id } ∷ []
    → Projected db'
unfolding menu_item_entry apply_row apply_catalog_event remove_menu_item
absent_item-Projected db db' item tenant_id (read, p) absent restaurants items outbox =
    let event : OutboxRow = record {
      entry = menu_item_entry item menu_item_deleted;
      tenant_id = tenant_id;
    } in
    let none_of : any (is_item_of item.id tenant_id) read.menu_items ≡ false = ground (
      arith,
      any-weaken (is_item_of item.id tenant_id) (has_item_id item.id) (λ r h. ground arith)
          read.menu_items,
      absent,
      p.menu_items,
    ) in
    (
      read,
      record {
        distinct_restaurants = ground (arith, p.distinct_restaurants);
        distinct_menu_items = ground (arith, p.distinct_menu_items);
        delivered = ground (
          arith,
          for_each-append apply_row db.outbox event empty_read read read p.delivered
              (ground (arith, keep-none (is_item_of item.id tenant_id) read.menu_items none_of)),
        );
        restaurants = ground (arith, p.restaurants);
        menu_items = ground (arith, p.menu_items);
      },
    )
