-- ===== src/Catalog/ReadModel/Projection.antt =====
-- The read model follows the tables of the commands: what the events of a command do to it.
use food_delivery_api.Common.{
  ℕ, ◌==◌, ◌≡◌, refl, ◌&&◌, not, Bool, true, List, [], ◌∷◌, ◌++◌, map, any, keep, ok, for_each,
  arith,
}
use food_delivery_api.Common.Keys.{view, distinct_by}
use food_delivery_api.Common.Table.{update_where}
use food_delivery_api.Catalog.ReadModel.{
  ReadRestaurantRow, ReadRestaurantEntity, ReadMenuItemRow, ReadDb, ReadAction, Envelope,
  apply_catalog_event, has_id, set_row, is_of,
}
use food_delivery_api.Catalog.Store.{RestaurantRow, MenuItemRow, OutboxRow, CatalogDb, is_null}

-- A live row as the read model shows it.
abbrev pub show_restaurant : RestaurantRow → ReadRestaurantRow
show_restaurant row = record {
  id = row.id;
  tenant_id = row.tenant_id;
  name = row.name;
  description = row.description;
  is_active = row.is_active;
  version = row.version;
  created_at = row.created_at;
  updated_at = row.updated_at;
}

abbrev pub show_menu_item : MenuItemRow → ReadMenuItemRow
show_menu_item row = record {
  id = row.id;
  restaurant_id = row.restaurant_id;
  tenant_id = row.tenant_id;
  name = row.name;
  description = row.description;
  price_cents = row.price_cents;
  is_available = row.is_available;
  version = row.version;
  created_at = row.created_at;
  updated_at = row.updated_at;
}

abbrev pub is_live_restaurant : RestaurantRow → Bool
is_live_restaurant row = is_null row.deleted_at

abbrev pub is_live_menu_item : MenuItemRow → Bool
is_live_menu_item row = is_null row.deleted_at

abbrev pub shown_restaurants : List RestaurantRow → List ReadRestaurantRow
shown_restaurants rows = view is_live_restaurant show_restaurant rows

abbrev pub shown_menu_items : List MenuItemRow → List ReadMenuItemRow
shown_menu_items rows = view is_live_menu_item show_menu_item rows

-- The rows of the read table, without their ratings.
abbrev pub rows_of : List ReadRestaurantEntity → List ReadRestaurantRow
rows_of entities = map (λ entity. entity.row) entities

-- The message of a row of the outbox; its id plays no part in the projector.
abbrev pub envelope_of : OutboxRow → Envelope
envelope_of row = record {
  event_id = 0;
  event_type = row.entry.event_type;
  aggregate_id = row.entry.aggregate_id;
  tenant_id = row.tenant_id;
}

-- The projector on a row of the outbox.
unfoldable pub apply_row : OutboxRow → ReadAction (Unit {0})
unfolding apply_catalog_event
apply_row row = apply_catalog_event (envelope_of row) row.entry.event_type row.entry.payload

-- The events of the outbox, each delivered once and in the order of the outbox.
abbrev pub project_rows : List OutboxRow → ReadAction (Unit {0})
unfolding apply_row
project_rows rows = for_each apply_row rows

abbrev pub empty_read : ReadDb
empty_read = record { restaurants = []; menu_items = []; processed_events = [] }

-- The ids of either table differ, and the events so far are delivered without an error and leave the
-- live rows, in the same order.
pub record IsProjected (db : CatalogDb) (read : ReadDb) : Type 0 where
  pub distinct_restaurants : distinct_by (λ row. row.id) db.restaurants ≡ true
  pub distinct_menu_items : distinct_by (λ row. row.id) db.menu_items ≡ true
  pub delivered : project_rows db.outbox empty_read ≡ (ok tt, read)
  pub restaurants : rows_of read.restaurants ≡ shown_restaurants db.restaurants
  pub menu_items : read.menu_items ≡ shown_menu_items db.menu_items

abbrev pub Projected : CatalogDb → Type 0
Projected db = (read : ReadDb) × IsProjected db read

-- What an upsert of a restaurant leaves.
pub rows_of-update_where :
    (row : ReadRestaurantRow) (entities : List ReadRestaurantEntity)
    → rows_of (update_where (has_id row.id) (set_row row) entities)
      ≡ update_where
          (λ old. old.id == row.id)
          (λ old. record row { tenant_id = old.tenant_id; created_at = old.created_at })
          (rows_of entities)
rows_of-update_where row [] = refl
rows_of-update_where row (entity ∷ entities) = ground (arith, rows_of-update_where row entities)

pub any-rows_of :
    (id : ℕ) (entities : List ReadRestaurantEntity)
    → any (has_id id) entities ≡ any (λ row. row.id == id) (rows_of entities)
any-rows_of id [] = refl
any-rows_of id (entity ∷ entities) = ground (arith, any-rows_of id entities)

pub rows_of-append :
    (entities : List ReadRestaurantEntity) (entity : ReadRestaurantEntity)
    → rows_of (entities ++ entity ∷ []) ≡ rows_of entities ++ entity.row ∷ []
rows_of-append [] entity = refl
rows_of-append (e ∷ entities) entity = ground (arith, rows_of-append entities entity)

pub rows_of-keep :
    (id tenant_id : ℕ) (entities : List ReadRestaurantEntity)
    → rows_of (keep (λ entity. not (is_of id tenant_id entity)) entities)
      ≡ keep (λ row. not (row.id == id && row.tenant_id == tenant_id)) (rows_of entities)
rows_of-keep id tenant_id [] = refl
rows_of-keep id tenant_id (entity ∷ entities) = ground (arith, rows_of-keep id tenant_id entities)

-- A call that writes neither of the tables nor an event keeps the read model in step.
pub same-Projected :
    (db db' : CatalogDb)
    → Projected db
    → db'.restaurants ≡ db.restaurants
    → db'.menu_items ≡ db.menu_items
    → db'.outbox ≡ db.outbox
    → Projected db'
same-Projected db db' (read, p) restaurants items outbox = (
  read,
  record {
    distinct_restaurants = ground (arith, p.distinct_restaurants);
    distinct_menu_items = ground (arith, p.distinct_menu_items);
    delivered = ground (arith, p.delivered);
    restaurants = ground (arith, p.restaurants);
    menu_items = ground (arith, p.menu_items);
  },
)
