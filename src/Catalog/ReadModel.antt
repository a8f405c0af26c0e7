-- ===== src/Catalog/ReadModel.antt =====
-- The read model of the catalog: the projectors catalog-read-model-projector.ts and
-- catalog-rating-projector.ts of apps/catalog/src/application/projections, the repositories of the
-- read tables, and the transactions of the two projection consumers of
-- apps/catalog/src/interface/messaging. The best-effort copy in the cache is not modelled.
pub mod Projection
pub mod Restaurants
pub mod Items
pub mod RestaurantSteps
pub mod ItemSteps
pub mod Runs
pub mod Ratings
pub mod Delivery
pub mod Backfill
use food_delivery_api.Common.{
  ℕ, ◌==◌, ◌&&◌, not, Option, none, some, Bool, true, false, List, [], ◌∷◌, ◌++◌, any, keep, Action,
  ◌>>=◌, ◌>>◌, pure, throw, throw_if, gets, modify, run_in_transaction, if◌then◌else◌,
}
use food_delivery_api.Common.Chars.{Text}
use food_delivery_api.Common.Table.{update_where}
use food_delivery_api.Catalog.Events.{
  EventType, Payload, restaurant_created, restaurant_updated, restaurant_deleted, menu_item_created,
  menu_item_updated, menu_item_deleted, restaurant_rating_changed, other_event, restaurant_snapshot,
  menu_item_snapshot, rating_payload,
}
use food_delivery_api.Catalog.Item.{MenuItem}
use food_delivery_api.Catalog.Names.{CatalogError, or_else, missing_columns, duplicate_event}
use food_delivery_api.Catalog.Restaurant.{Restaurant}
use food_delivery_api.Messaging.Idempotent.{ProcessedEventStore, run_once}

-- `ReadRestaurantRow`
pub record ReadRestaurantRow : Type 0 where
  pub id : ℕ
  pub tenant_id : ℕ
  pub name : Text
  pub description : Option Text
  pub is_active : Bool
  pub version : ℕ
  pub created_at : ℕ
  pub updated_at : ℕ

-- `ReadRestaurantOrmEntity`: the row and the two columns of its rating, in hundredths.
pub record ReadRestaurantEntity : Type 0 where
  pub row : ReadRestaurantRow
  pub rating : ℕ
  pub review_count : ℕ

-- `ReadMenuItemRow`
pub record ReadMenuItemRow : Type 0 where
  pub id : ℕ
  pub restaurant_id : ℕ
  pub tenant_id : ℕ
  pub name : Text
  pub description : Option Text
  pub price_cents : ℕ
  pub is_available : Bool
  pub version : ℕ
  pub created_at : ℕ
  pub updated_at : ℕ

pub record ReadDb : Type 0 where
  pub restaurants : List ReadRestaurantEntity
  pub menu_items : List ReadMenuItemRow
  pub processed_events : List ℕ

abbrev pub ReadAction : Type 0 → Type 0
ReadAction A = Action ReadDb CatalogError A

-- The fields of `EventEnvelopeHeaders` that the projectors read.
pub record Envelope : Type 0 where
  pub event_id : ℕ
  pub event_type : EventType
  pub aggregate_id : ℕ
  pub tenant_id : ℕ

abbrev pub has_id : ℕ → ReadRestaurantEntity → Bool
has_id id entity = entity.row.id == id

-- The columns that `ON CONFLICT (id) DO UPDATE` sets; tenant and creation stay.
abbrev pub set_row : ReadRestaurantRow → ReadRestaurantEntity → ReadRestaurantEntity
set_row row entity = record entity {
  row = record row { tenant_id = entity.row.tenant_id; created_at = entity.row.created_at };
}

-- `TypeOrmReadRestaurantRepository.upsert`; a new row has the default rating.
unfoldable pub upsert_restaurant : ReadRestaurantRow → ReadAction (Unit {0})
upsert_restaurant row = modify λ db. record db {
  restaurants =
      if any (has_id row.id) db.restaurants
      then update_where (has_id row.id) (set_row row) db.restaurants
      else db.restaurants ++ record { row = row; rating = 0; review_count = 0 } ∷ [];
}

abbrev pub is_of : ℕ → ℕ → ReadRestaurantEntity → Bool
is_of id tenant_id entity = entity.row.id == id && entity.row.tenant_id == tenant_id

-- `TypeOrmReadRestaurantRepository.remove`
unfoldable pub remove_restaurant : ℕ → ℕ → ReadAction (Unit {0})
remove_restaurant id tenant_id = modify λ db. record db {
  restaurants = keep (λ entity. not (is_of id tenant_id entity)) db.restaurants;
}

-- `TypeOrmReadRestaurantRepository.updateRating`
unfoldable pub update_rating : ℕ → ℕ → ℕ → ℕ → ReadAction (Unit {0})
update_rating id tenant_id rating review_count = modify λ db. record db {
  restaurants =
      update_where (is_of id tenant_id)
        (λ entity. record entity { rating = rating; review_count = review_count }) db.restaurants;
}

abbrev pub has_item_id : ℕ → ReadMenuItemRow → Bool
has_item_id id row = row.id == id

-- `TypeOrmReadMenuItemRepository.upsert`: a conflict on the id takes all columns that are given.
unfoldable pub upsert_menu_item : ReadMenuItemRow → Option ℕ → ReadAction (Unit {0})
upsert_menu_item row version = modify λ db. record db {
  menu_items =
      if any (has_item_id row.id) db.menu_items
      then update_where (has_item_id row.id)
          (λ old. record row { version = or_else version old.version }) db.menu_items
      else db.menu_items ++ record row { version = or_else version 1 } ∷ [];
}

abbrev pub is_item_of : ℕ → ℕ → ReadMenuItemRow → Bool
is_item_of id tenant_id row = row.id == id && row.tenant_id == tenant_id

-- `TypeOrmReadMenuItemRepository.remove`
unfoldable pub remove_menu_item : ℕ → ℕ → ReadAction (Unit {0})
remove_menu_item id tenant_id =
    modify
      λ db. record db { menu_items = keep (λ row. not (is_item_of id tenant_id row)) db.menu_items }

abbrev pub is_item_on : ℕ → ℕ → ReadMenuItemRow → Bool
is_item_on restaurant_id tenant_id row =
    row.restaurant_id == restaurant_id && row.tenant_id == tenant_id

-- `TypeOrmReadMenuItemRepository.removeByRestaurant`
unfoldable pub remove_by_restaurant : ℕ → ℕ → ReadAction (Unit {0})
remove_by_restaurant restaurant_id tenant_id = modify λ db. record db {
  menu_items = keep (λ row. not (is_item_on restaurant_id tenant_id row)) db.menu_items;
}

-- The row of a snapshot; the column of the version takes no null.
abbrev upsert_restaurant_of : Envelope → Restaurant → Option ℕ → ReadAction (Unit {0})
unfolding upsert_restaurant
upsert_restaurant_of envelope snapshot none = throw missing_columns
upsert_restaurant_of envelope snapshot (some version) = upsert_restaurant (record {
  id = envelope.aggregate_id;
  tenant_id = envelope.tenant_id;
  name = snapshot.name;
  description = snapshot.description;
  is_active = snapshot.is_active;
  version = version;
  created_at = snapshot.created_at;
  updated_at = snapshot.updated_at;
})

abbrev upsert_menu_item_of : Envelope → MenuItem → ReadAction (Unit {0})
unfolding upsert_menu_item
upsert_menu_item_of envelope snapshot =
    upsert_menu_item
      (record {
        id = envelope.aggregate_id;
        restaurant_id = snapshot.restaurant_id;
        tenant_id = envelope.tenant_id;
        name = snapshot.name;
        description = snapshot.description;
        price_cents = snapshot.price_cents;
        is_available = snapshot.is_available;
        version = or_else snapshot.version 1;
        created_at = snapshot.created_at;
        updated_at = snapshot.updated_at;
      })
      snapshot.version

-- `applyCatalogEvent`; a payload without the fields of its type leaves columns null.
unfoldable pub apply_catalog_event : Envelope → EventType → Payload → ReadAction (Unit {0})
unfolding upsert_restaurant remove_restaurant remove_by_restaurant upsert_menu_item remove_menu_item
apply_catalog_event envelope restaurant_created (restaurant_snapshot props) =
    upsert_restaurant_of envelope props props.version
apply_catalog_event envelope restaurant_updated (restaurant_snapshot props) =
    upsert_restaurant_of envelope props props.version
apply_catalog_event envelope restaurant_deleted payload =
    remove_restaurant envelope.aggregate_id envelope.tenant_id
    >> remove_by_restaurant envelope.aggregate_id envelope.tenant_id
apply_catalog_event envelope menu_item_created (menu_item_snapshot props) =
    upsert_menu_item_of envelope props
apply_catalog_event envelope menu_item_updated (menu_item_snapshot props) =
    upsert_menu_item_of envelope props
apply_catalog_event envelope menu_item_deleted payload =
    remove_menu_item envelope.aggregate_id envelope.tenant_id
apply_catalog_event envelope restaurant_rating_changed payload = pure tt
apply_catalog_event envelope (other_event text) payload = pure tt
apply_catalog_event envelope event_type payload = throw missing_columns

-- `applyReviewEvent`
unfoldable pub apply_review_event : Envelope → EventType → Payload → ReadAction (Unit {0})
unfolding update_rating
apply_review_event envelope restaurant_rating_changed (rating_payload avg_rating review_count) =
    update_rating envelope.aggregate_id envelope.tenant_id avg_rating review_count
apply_review_event envelope restaurant_rating_changed payload = throw missing_columns
apply_review_event envelope event_type payload = pure tt

unfoldable pub mark_processed : ℕ → ReadAction (Unit {0})
mark_processed event_id = do
  seen ← gets (λ db. any (λ e. e == event_id) db.processed_events)
  throw_if seen (duplicate_event event_id)
  modify λ db. record db { processed_events = event_id ∷ db.processed_events }

abbrev is_duplicate : CatalogError → Bool
is_duplicate (duplicate_event event_id) = true
is_duplicate _ = false

abbrev pub processed_event_store : ProcessedEventStore ReadDb CatalogError
unfolding mark_processed
processed_event_store = record {
  mark_processed = mark_processed;
  is_duplicate = is_duplicate;
  has = λ db event_id. any (λ e. e == event_id) db.processed_events;
}

-- The transaction of `CatalogProjectionConsumer`.
unfoldable pub project_catalog : Envelope → Payload → ReadAction (Unit {0})
unfolding mark_processed apply_catalog_event run_once
project_catalog envelope payload =
    run_in_transaction (
      run_once processed_event_store envelope.event_id
        (apply_catalog_event envelope envelope.event_type payload))
    >> pure tt

-- The transaction of `ReviewProjectionConsumer`.
unfoldable pub project_review : Envelope → Payload → ReadAction (Unit {0})
unfolding mark_processed apply_review_event run_once
project_review envelope payload =
    run_in_transaction (
      run_once processed_event_store envelope.event_id
        (apply_review_event envelope envelope.event_type payload))
    >> pure tt
