-- ===== src/Order/Tests.antt =====
-- Runs of the order service on a small store, and the theorems at these runs.
pub mod Runs
pub mod Replies
pub mod Domain
use food_delivery_api.Common.{
  ℕ, ◌≡◌, refl, List, [], ◌∷◌, Option, some, none, Result, ok, err, true, arith, ◌⊎◌,
}
use food_delivery_api.Common.Int.{pos}
use food_delivery_api.Common.Number.{int}
use food_delivery_api.Order.Status.{OrderStatus}
use food_delivery_api.Order.Errors.{OrderError, invalid_order_request, no_items}
use food_delivery_api.Order.Item
use food_delivery_api.Order.Aggregate.{Order, assert_valid_pricing_input, subtotal, vat, total}
use food_delivery_api.Order.Aggregate
use food_delivery_api.Order.Store.{OrderDb, order_at}
use food_delivery_api.Order.Menu.{
  PlaceOrderCommand, Gateways, MenuItemSnapshot, pending_order, assert_valid_command, menu_item,
}
use food_delivery_api.Order.Place.{Outside, place_order}
use food_delivery_api.Order.Place.New.{with_new, order_row_of}
use food_delivery_api.Order.Place.Again.{place_order-IsConsistent}
use food_delivery_api.Order.Place.Claim.{IsClaimed, place_order_replay, place_order_lost_race}
use food_delivery_api.Order.Place.Failure.{place_order-err}
use food_delivery_api.Order.Replies.Consistency.{IsConsistent}

abbrev pub menu : List MenuItemSnapshot
menu =
    record { item_id = 7; restaurant_id = some 3; price_cents = int (pos 500); is_available = true }
    ∷ []

abbrev pub gateways : Gateways
gateways = record {
  validate_items = λ tenant_id ids. ok menu;
  resolve_pricing = λ tenant_id. record {
    delivery_fee_cents = int (pos 100);
    vat_rate_bps = int (pos 1000);
    discount_cents = int (pos 50);
  };
}

abbrev pub empty_db : OrderDb
empty_db = record {
  orders = [];
  sagas = [];
  idempotency_keys = [];
  outbox = [];
  processed_events = [];
}

abbrev pub outside : Outside
outside = record { gateways = gateways; order_id = 11; correlation_id = 21; meanwhile = λ db. db }

abbrev pub command : PlaceOrderCommand
command = record {
  tenant_id = 1;
  user_id = 2;
  idempotency_key = 9;
  items = record { item_id = 7; qty = int (pos 2) } ∷ [];
}

abbrev pub two_meals : Order
two_meals = record {
  id = 11;
  tenant_id = 1;
  user_id = 2;
  restaurant_id = some 3;
  status = OrderStatus.pending;
  items = record { item_id = 7; qty = 2; unit_price_cents = 500; line_total_cents = 1000 } ∷ [];
  subtotal_cents = 1000;
  delivery_fee_cents = 100;
  vat_cents = 100;
  discount_cents = 50;
  total_cents = 1150;
  version = 0;
  created_at = 40;
  updated_at = 40;
}

two_meals_pending : pending_order gateways command 11 40 ≡ ok two_meals
unfolding pending_order menu_item Item.create Aggregate.create assert_valid_pricing_input subtotal
    vat total
two_meals_pending = refl

abbrev pub placed_db : OrderDb
placed_db = with_new outside command two_meals 40 empty_db

abbrev pub placed_order : Order
placed_order = order_row_of two_meals 40

pub placed : place_order outside command 40 empty_db ≡ (ok placed_order, placed_db)
unfolding place_order assert_valid_command pending_order menu_item Item.create Aggregate.create
    assert_valid_pricing_input subtotal vat total
placed = refl

pub empty_db-IsConsistent : IsConsistent empty_db
empty_db-IsConsistent t i s h = ground arith

-- Another request with the same key at a later time, which has its own ids.
abbrev pub later : Outside
later = record { gateways = gateways; order_id = 12; correlation_id = 22; meanwhile = λ db. db }

pub placed_db-IsConsistent : IsConsistent placed_db
placed_db-IsConsistent =
    place_order-IsConsistent outside command 40 empty_db placed_db placed_order refl
      empty_db-IsConsistent empty_db-IsConsistent placed

abbrev claimed : IsClaimed command placed_order placed_db
claimed = record { order_id = 11; claimed = refl; stored = refl }

-- The first request comes between the second one's lookup and its transaction.
abbrev overtaken : Outside
overtaken = record {
  gateways = gateways;
  order_id = 12;
  correlation_id = 22;
  meanwhile = λ db. placed_db;
}

place_order_lost_race_example :
    place_order overtaken command 41 empty_db ≡ (ok placed_order, placed_db)
unfolding assert_valid_command pending_order menu_item Item.create Aggregate.create
    assert_valid_pricing_input subtotal vat total
place_order_lost_race_example =
    place_order_lost_race overtaken command 41 empty_db
      (record two_meals { id = 12; created_at = 41; updated_at = 41 }) placed_order refl refl refl
      claimed

-- A cart without lines is refused.
abbrev no_lines : PlaceOrderCommand
no_lines = record command { items = [] }
