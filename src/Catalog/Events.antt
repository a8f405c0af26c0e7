-- ===== src/Catalog/Events.antt =====
-- The events of the catalog: apps/catalog/src/domain/shared/catalog-event.factory.ts, and the types
-- that its consumers tell apart.
use food_delivery_api.Common.{ℕ, String}
use food_delivery_api.Catalog.Item.{MenuItem}
use food_delivery_api.Catalog.Restaurant.{Restaurant}

-- The types of the events on catalog.events and review.events, and any other text.
pub data EventType : Type 0 where
  restaurant_created restaurant_updated restaurant_deleted : EventType
  menu_item_created menu_item_updated menu_item_deleted : EventType
  restaurant_rating_changed : EventType
  other_event : String → EventType

-- The payloads: a snapshot of an aggregate, or the rating of `RestaurantRatingChanged`.
pub data Payload : Type 0 where
  restaurant_snapshot : Restaurant → Payload
  menu_item_snapshot : MenuItem → Payload
  rating_payload : ℕ → ℕ → Payload

-- `OutboxEntry`
pub record OutboxEntry : Type 0 where
  pub aggregate_type : String
  pub aggregate_id : ℕ
  pub event_type : EventType
  pub payload : Payload

abbrev aggregate_type : String
aggregate_type = "catalog"

unfoldable pub restaurant_entry : Restaurant → EventType → OutboxEntry
restaurant_entry restaurant event_type = record {
  aggregate_type = aggregate_type;
  aggregate_id = restaurant.id;
  event_type = event_type;
  payload = restaurant_snapshot restaurant;
}

unfoldable pub menu_item_entry : MenuItem → EventType → OutboxEntry
menu_item_entry item event_type = record {
  aggregate_type = aggregate_type;
  aggregate_id = item.id;
  event_type = event_type;
  payload = menu_item_snapshot item;
}
