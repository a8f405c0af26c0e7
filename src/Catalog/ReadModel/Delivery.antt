-- ===== src/Catalog/ReadModel/Delivery.antt =====
-- The consumer of the events of the catalog, with its record of processed events.
use food_delivery_api.Common.{◌≡◌, ◌∷◌, ok, arith}
use food_delivery_api.Catalog.Events.{EventType, Payload}
use food_delivery_api.Catalog.ReadModel.{
  ReadDb, Envelope, mark_processed, apply_catalog_event, upsert_restaurant, remove_restaurant,
  remove_by_restaurant, upsert_menu_item, remove_menu_item, project_catalog,
}
use food_delivery_api.Messaging.Idempotent.{run_once}

-- The projector does not touch the processed events.
apply_catalog_event-processed :
    (envelope : Envelope) (event_type : EventType) (payload : Payload) (db : ReadDb)
    → (apply_catalog_event envelope event_type payload db).1.processed_events ≡ db.processed_events
unfolding apply_catalog_event upsert_restaurant remove_restaurant remove_by_restaurant
    upsert_menu_item remove_menu_item
apply_catalog_event-processed envelope event_type payload db = ground arith

-- A second delivery of an event that was projected returns and changes nothing.
pub project_catalog_twice :
    (envelope : Envelope) (first second : Payload) (db db' : ReadDb)
    → project_catalog envelope first db ≡ (ok tt, db')
    → project_catalog envelope second db' ≡ (ok tt, db')
unfolding project_catalog mark_processed run_once
project_catalog_twice envelope first second db db' h = ground (
  arith,
  apply_catalog_event-processed envelope envelope.event_type first
      (record db { processed_events = envelope.event_id ∷ db.processed_events }),
)
