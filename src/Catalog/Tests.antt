-- ===== src/Catalog/Tests.antt =====
-- Two restaurants with items, changed and deleted; white space is the blank.
use food_delivery_api.Common.{
  ℕ, ◌==◌, ◌≡◌, refl, Bool, true, none, some, List, [], ◌∷◌, length, find, ok, err, for_each, All,
  map, ◌*◌, ◌&&◌, Bool-cases, inl, inr, keep, ◌++◌,
}
use food_delivery_api.Common.Int.{pos}
use food_delivery_api.Common.Number.{int}
use food_delivery_api.Catalog.Commands.{
  get_restaurant, get_menu_item, create_restaurant, update_restaurant, delete_restaurant,
  create_menu_item, update_menu_item, delete_menu_item, write_deleted,
}
use food_delivery_api.Catalog.Events.{
  Payload, restaurant_deleted, rating_payload, restaurant_entry, menu_item_entry,
}
use food_delivery_api.Catalog.Item.{
  assert_valid_price_cents, create as create_item, update as update_item,
}
use food_delivery_api.Catalog.Items.{
  menu_item_of, row_of_menu_item, save_menu_item, update_versioned_menu_item,
  find_all_by_restaurant, soft_delete_menu_item, soft_delete_by_restaurant,
}
use food_delivery_api.Catalog.Names.{
  restaurant_entity, concurrency_conflict, missing_columns, assert_valid_name,
}
use food_delivery_api.Catalog.ReadModel.{
  ReadDb, ReadRestaurantEntity, Envelope, is_of, project_catalog, mark_processed,
  apply_catalog_event, remove_restaurant, remove_by_restaurant,
}
use food_delivery_api.Catalog.ReadModel.Backfill.{backfill, backfill-refused}
use food_delivery_api.Catalog.ReadModel.Delivery.{project_catalog_twice}
use food_delivery_api.Catalog.ReadModel.Projection.{
  Projected, apply_row, empty_read, is_live_restaurant,
}
use food_delivery_api.Catalog.ReadModel.Ratings.{follow_row, rated, or_told, reviews_shown}
use food_delivery_api.Catalog.ReadModel.Runs.{
  Command, creating_restaurant, updating_restaurant, deleting_restaurant, creating_menu_item,
  updating_menu_item, deleting_menu_item, step, run_commands, all_new, run_commands-Projected,
}
use food_delivery_api.Catalog.Restaurant.{Restaurant, create, update}
use food_delivery_api.Catalog.Restaurants.{
  restaurant_of, row_of_restaurant, save_restaurant, update_versioned_restaurant,
  soft_delete_restaurant,
}
use food_delivery_api.Catalog.Store.{CatalogDb, OutboxRow, write, record_audit}
use food_delivery_api.Catalog.Versions.{update_versioned_restaurant_twice}
use food_delivery_api.Messaging.Idempotent.{run_once}
use food_delivery_api.Review.{ReviewDb}
use food_delivery_api.Review.Ratings.{IsSound, aggregated}
use food_delivery_api.Tenancy.{Context}

abbrev space : ℕ → Bool
space c = c == 32

abbrev request : Context
request = some (record { tenant_id = 1; actor = 2; roles = [] })

abbrev empty : CatalogDb
empty = record { restaurants = []; menu_items = []; outbox = []; audit_log = [] }

abbrev opening : List Command
opening =
    creating_restaurant request 10 4
      (record { name = 97 ∷ []; description = none; is_active = none })
    ∷ creating_restaurant request 11 5
        (record { name = 98 ∷ []; description = none; is_active = none })
    ∷ creating_menu_item request 12 7 4 (record {
      name = 99 ∷ [];
      description = none;
      price_cents = int (pos 850);
      is_available = none;
    })
    ∷ creating_menu_item request 13 8 5 (record {
      name = 100 ∷ [];
      description = none;
      price_cents = int (pos 900);
      is_available = none;
    })
    ∷ []

abbrev closing : List Command
closing =
    updating_restaurant request 14 4 (some 1)
      (record { name = some (32 ∷ 101 ∷ []); description = none; is_active = none })
    ∷ updating_menu_item request 15 4 7 none (record {
      name = none;
      description = none;
      price_cents = some (int (pos 950));
      is_available = none;
    })
    ∷ deleting_restaurant request 16 5
    ∷ deleting_menu_item request 17 4 7
    ∷ []

abbrev commands : List Command
commands = opening ++ closing

empty-Projected : Projected empty
unfolding apply_row
empty-Projected = (
  empty_read,
  record {
    distinct_restaurants = refl;
    distinct_menu_items = refl;
    delivered = refl;
    restaurants = refl;
    menu_items = refl;
  },
)

-- After the opening two restaurants are live; after all, one, in its second version.
commands_run :
    (all_new space commands empty ≡ true)
    × (length (keep is_live_restaurant (run_commands space opening empty).restaurants) ≡ 2)
    × (map
          (λ row. row.version)
          (keep is_live_restaurant (run_commands space commands empty).restaurants)
        ≡ 2 ∷ [])
    × (length (run_commands space commands empty).outbox ≡ 9)
unfolding all_new run_commands step create_restaurant update_restaurant delete_restaurant
    create_menu_item update_menu_item delete_menu_item write_deleted get_restaurant get_menu_item
    create update create_item update_item assert_valid_name assert_valid_price_cents save_restaurant
    save_menu_item update_versioned_restaurant update_versioned_menu_item soft_delete_restaurant
    soft_delete_menu_item soft_delete_by_restaurant find_all_by_restaurant restaurant_of
    row_of_restaurant menu_item_of row_of_menu_item record_audit write restaurant_entry
    menu_item_entry
commands_run = (refl, refl, refl, refl)

run_commands-Projected_example : Projected (run_commands space commands empty)
run_commands-Projected_example =
    run_commands-Projected space commands empty commands_run.0 empty-Projected

-- A restaurant, and two changes of its first version.
abbrev one_restaurant : CatalogDb
one_restaurant = record empty {
  restaurants =
      record {
        id = 4;
        tenant_id = 1;
        name = 97 ∷ [];
        description = none;
        is_active = true;
        version = 1;
        created_at = 10;
        updated_at = 10;
        deleted_at = none;
      }
      ∷ [];
}

abbrev changed : ℕ → Restaurant
changed c = record {
  id = 4;
  tenant_id = 1;
  name = c ∷ [];
  description = none;
  is_active = true;
  created_at = 10;
  updated_at = 11;
  deleted_at = none;
  version = some 1;
  rating = none;
  review_count = none;
}

abbrev won : Restaurant
won = record (changed 98) { version = some 2 }

abbrev after_first : CatalogDb
unfolding update_versioned_restaurant restaurant_of
after_first = (update_versioned_restaurant (changed 98) one_restaurant).1

first_change : update_versioned_restaurant (changed 98) one_restaurant ≡ (ok won, after_first)
unfolding update_versioned_restaurant restaurant_of
first_change = refl

update_versioned_restaurant_twice_example :
    update_versioned_restaurant (changed 99) after_first
    ≡ (err (concurrency_conflict restaurant_entity 4), after_first)
update_versioned_restaurant_twice_example =
    update_versioned_restaurant_twice (changed 98) (changed 99) won one_restaurant after_first
      first_change refl refl refl

abbrev average : List ℕ → ℕ
average ratings = 100 * length ratings

-- One review of the restaurant 4, and its event.
abbrev reviews : ReviewDb
reviews = record {
  eligible_orders = [];
  reviews =
      record {
        id = 30;
        tenant_id = 1;
        order_id = 6;
        restaurant_id = 4;
        user_id = 3;
        rating = 1;
        comment = none;
        created_at = 7;
      }
      ∷ [];
  outbox =
      record {
        entry = record {
          aggregate_id = 4;
          topic = "review.events";
          event_type = "RestaurantRatingChanged";
          payload = record { restaurant_id = 4; avg_rating = 100; review_count = 1 };
        };
        tenant_id = 1;
        correlation_id = 90;
      }
      ∷ [];
  processed_events = [];
}

reviews-IsSound : IsSound average space reviews
reviews-IsSound = record {
  ratings = refl;
  comments = refl;
  orders = refl;
  events =
      λ t m. elim (Bool-cases ((4 == m) && (1 == t))) [ inl y ↦ rw y refl | inr n ↦ rw n refl ];
}

abbrev read_restaurant : ReadRestaurantEntity
read_restaurant = record {
  row = record {
    id = 4;
    tenant_id = 1;
    name = 97 ∷ [];
    description = none;
    is_active = true;
    version = 1;
    created_at = 10;
    updated_at = 10;
  };
  rating = 0;
  review_count = 0;
}

abbrev read : ReadDb
read = record { restaurants = read_restaurant ∷ []; menu_items = []; processed_events = [] }

reviews_shown_example :
    (shown : ReadRestaurantEntity) × (for_each follow_row reviews.outbox read
      ≡ (ok tt, (for_each follow_row reviews.outbox read).1))
    × (find (is_of 4 1) (for_each follow_row reviews.outbox read).1.restaurants ≡ some shown)
    × (rated shown ≡ or_told (0, 0) (aggregated average 1 4 reviews.reviews))
reviews_shown_example =
    reviews_shown 1 4 average space reviews read read_restaurant reviews-IsSound refl

abbrev deletion : Envelope
deletion = record {
  event_id = 60;
  event_type = restaurant_deleted;
  aggregate_id = 4;
  tenant_id = 1;
}

abbrev no_payload : Payload
no_payload = rating_payload 0 0

abbrev projected : ReadDb
projected = record { restaurants = []; menu_items = []; processed_events = 60 ∷ [] }

first_delivery : project_catalog deletion no_payload read ≡ (ok tt, projected)
unfolding project_catalog mark_processed run_once apply_catalog_event remove_restaurant
    remove_by_restaurant
first_delivery = refl

project_catalog_twice_example : project_catalog deletion no_payload projected ≡ (ok tt, projected)
project_catalog_twice_example =
    project_catalog_twice deletion no_payload no_payload read projected first_delivery

backfill-refused_example :
    (events items : List OutboxRow) × ((backfill one_restaurant).outbox
      ≡ one_restaurant.outbox ++ (events ++ items))
    × (map (λ e. e.entry.aggregate_id) events
        ≡ map (λ row. row.id) (keep is_live_restaurant one_restaurant.restaurants))
    × All (λ row. apply_row row read ≡ (err missing_columns, read)) events
backfill-refused_example = backfill-refused read one_restaurant
