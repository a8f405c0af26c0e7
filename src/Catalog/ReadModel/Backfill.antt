-- ===== src/Catalog/ReadModel/Backfill.antt =====
-- The events that apps/catalog/src/infrastructure/outbox/backfill-read-model.ts inserts for the rows
-- that are there, and what the projector makes of them.
use food_delivery_api.Common.{◌≡◌, refl, ◌++◌, none, List, [], ◌∷◌, map, keep, err, All, arith}
use food_delivery_api.Catalog.Events.{
  restaurant_created, menu_item_created, restaurant_entry, menu_item_entry,
}
use food_delivery_api.Catalog.Items.{menu_item_of}
use food_delivery_api.Catalog.Names.{missing_columns}
use food_delivery_api.Catalog.ReadModel.{ReadDb, apply_catalog_event}
use food_delivery_api.Catalog.ReadModel.Projection.{
  apply_row, is_live_restaurant, is_live_menu_item,
}
use food_delivery_api.Catalog.Restaurants.{restaurant_of}
use food_delivery_api.Catalog.Store.{RestaurantRow, MenuItemRow, OutboxRow, CatalogDb}

-- The object that the statement builds for a restaurant has no version.
unfoldable pub backfilled_restaurant : RestaurantRow → OutboxRow
unfolding restaurant_of restaurant_entry
backfilled_restaurant row = record {
  entry =
      restaurant_entry (record (restaurant_of row) { version = none; deleted_at = none })
        restaurant_created;
  tenant_id = row.tenant_id;
}

unfoldable pub backfilled_menu_item : MenuItemRow → OutboxRow
unfolding menu_item_of menu_item_entry
backfilled_menu_item row = record {
  entry =
      menu_item_entry (record (menu_item_of row) { version = none; deleted_at = none })
        menu_item_created;
  tenant_id = row.tenant_id;
}

-- `backfill`, on the outbox.
unfoldable pub backfill : CatalogDb → CatalogDb
unfolding backfilled_restaurant backfilled_menu_item
backfill db = record db {
  outbox =
      db.outbox
      ++ (map backfilled_restaurant (keep is_live_restaurant db.restaurants)
          ++ map backfilled_menu_item (keep is_live_menu_item db.menu_items));
}

-- The projector throws on each backfilled restaurant, whatever the read model holds, and writes
-- nothing: the column of the version takes no null.
pub backfilled-refused :
    (row : RestaurantRow) (read : ReadDb)
    → apply_row (backfilled_restaurant row) read ≡ (err missing_columns, read)
unfolding apply_row apply_catalog_event backfilled_restaurant
backfilled-refused row read = refl

backfilled_ids :
    (rows : List RestaurantRow)
    → map (λ e. e.entry.aggregate_id) (map backfilled_restaurant rows) ≡ map (λ row. row.id) rows
unfolding backfilled_restaurant
backfilled_ids [] = refl
backfilled_ids (row ∷ rows) = ground (arith, backfilled_ids rows)

module _ (read : ReadDb) where
  each_backfilled-refused :
      (rows : List RestaurantRow)
      → All
          (λ row. apply_row row read ≡ (err missing_columns, read))
          (map backfilled_restaurant rows)
  each_backfilled-refused [] = tt
  each_backfilled-refused (row ∷ rows) = (backfilled-refused row read, each_backfilled-refused rows)

  -- The backfill adds its events for the live restaurants to the outbox, and each of them is refused:
  -- the projector throws and leaves the read model as it is.
  pub backfill-refused :
      (db : CatalogDb)
      → (events items : List OutboxRow) × ((backfill db).outbox ≡ db.outbox ++ (events ++ items))
        × (map (λ e. e.entry.aggregate_id) events
            ≡ map (λ row. row.id) (keep is_live_restaurant db.restaurants))
        × All (λ row. apply_row row read ≡ (err missing_columns, read)) events
  unfolding backfill
  backfill-refused db =
      let live = keep is_live_restaurant db.restaurants in
      (
        map backfilled_restaurant live,
        map backfilled_menu_item (keep is_live_menu_item db.menu_items),
        refl,
        backfilled_ids live,
        each_backfilled-refused live,
      )
