-- ===== src/Order/Menu.antt =====
-- From a command to the order that is to be stored, before anything is written:
-- apps/order/src/application/order/commands/place-order.handler.ts, its checks, `buildOrderItems`
-- and the call of `Order.create`.
use food_delivery_api.Common.{
  ℕ, ◌||◌, not, Bool, true, false, List, [], ◌∷◌, Option, none, some, Result, ok, err, map, length,
  ltb, ◌==◌, if◌then◌else◌, any,
}
use food_delivery_api.Common.Int.{pos}
use food_delivery_api.Common.Number.{Number, is_integer, at_most}
use food_delivery_api.Common.Throws.{◌>>=◌, ◌>>◌, throw_if}
use food_delivery_api.Order.Errors.{
  OrderError, no_items, several_restaurants, item_quantity, menu_item_not_found,
  menu_item_not_available, invalid_order_request, menu_validation,
}
use food_delivery_api.Order.Item.{OrderItem}
use food_delivery_api.Order.Item
use food_delivery_api.Order.Aggregate.{Order, OrderPricingInput}
use food_delivery_api.Order.Aggregate

pub record PlaceOrderItemInput : Type 0 where
  pub item_id : ℕ
  pub qty : Number

pub record PlaceOrderCommand : Type 0 where
  pub tenant_id : ℕ
  pub user_id : ℕ
  pub idempotency_key : ℕ
  pub items : List PlaceOrderItemInput

-- `MenuItemSnapshot` of apps/order/src/domain/shared/catalog-gateway.port.ts.
pub record MenuItemSnapshot : Type 0 where
  pub item_id : ℕ
  pub restaurant_id : Option ℕ
  pub price_cents : Number
  pub is_available : Bool

-- What the handler asks outside the service: the catalog's answer for a list of item ids, and the
-- pricing settings of a tenant with their defaults applied.
pub record Gateways : Type 0 where
  pub validate_items : ℕ → List ℕ → Result OrderError (List MenuItemSnapshot)
  pub resolve_pricing : ℕ → OrderPricingInput

unfoldable pub assert_valid_quantities : List PlaceOrderItemInput → Result OrderError (Unit {0})
assert_valid_quantities [] = ok tt
assert_valid_quantities (item ∷ items) = do
  throw_if (not (is_integer item.qty) || at_most item.qty (pos 0))
      (invalid_order_request (item_quantity item.item_id))
  assert_valid_quantities items

unfoldable pub assert_valid_command : PlaceOrderCommand → Result OrderError (Unit {0})
unfolding assert_valid_quantities
assert_valid_command command = do
  throw_if (length command.items == 0) (invalid_order_request no_items)
  assert_valid_quantities command.items

-- `[...new Set(xs)]`: the distinct values in the order of their first occurrence; `seen` are those
-- met so far.
unfoldable pub distinct_from {ℓ} : {A : Type ℓ} → (A → A → Bool) → List A → List A → List A
distinct_from eq seen [] = []
distinct_from eq seen (x ∷ xs) = elim (any (eq x) seen) [
  | true ↦ distinct_from eq seen xs
  | false ↦ x ∷ distinct_from eq (x ∷ seen) xs
]

-- `===` on restaurant ids, where the empty one is `none`.
abbrev restaurant_eq : Option ℕ → Option ℕ → Bool
restaurant_eq none none = true
restaurant_eq (some a) (some b) = a == b
restaurant_eq _ _ = false

-- `menuByItemId.get(id)`: of several entries with one id a `Map` keeps the last.
unfoldable pub menu_item : List MenuItemSnapshot → ℕ → Option MenuItemSnapshot
menu_item [] id = none
menu_item (m ∷ menu) id = elim (menu_item menu id) [
  | some later ↦ some later
  | none ↦ if m.item_id == id then some m else none
]

-- One round of `command.items.map(…)`.
unfoldable pub resolve_item :
    List MenuItemSnapshot → PlaceOrderItemInput → Result OrderError (Option ℕ × OrderItem)
resolve_item menu item = elim (menu_item menu item.item_id) [
  | none ↦ err (menu_validation (menu_item_not_found item.item_id))
  | some m ↦ do
    throw_if (not m.is_available) (menu_validation (menu_item_not_available item.item_id))
    line ←
        Item.create
          (record { item_id = item.item_id; qty = item.qty; unit_price_cents = m.price_cents })
    ok (m.restaurant_id, line)
]

unfoldable pub resolve_items :
    List MenuItemSnapshot
    → List PlaceOrderItemInput
    → Result OrderError (List (Option ℕ × OrderItem))
unfolding resolve_item
resolve_items menu [] = ok []
resolve_items menu (item ∷ items) = do
  entry ← resolve_item menu item
  entries ← resolve_items menu items
  ok (entry ∷ entries)

pub record BuiltItems : Type 0 where
  pub items : List OrderItem
  pub restaurant_id : Option ℕ

-- `distinctRestaurantIds[0]`
unfoldable pub first_restaurant : List (Option ℕ) → Option ℕ
first_restaurant [] = none
first_restaurant (r ∷ rs) = r

-- `buildOrderItems` behind the catalog's answer.
unfoldable pub build_from_menu :
    List MenuItemSnapshot → List PlaceOrderItemInput → Result OrderError BuiltItems
unfolding resolve_items distinct_from first_restaurant
build_from_menu menu items = do
  resolved ← resolve_items menu items
  let restaurants = distinct_from restaurant_eq [] (map (λ e. e.0) resolved)
  throw_if (ltb 1 (length restaurants)) (invalid_order_request several_restaurants)
  ok (record { items = map (λ e. e.1) resolved; restaurant_id = first_restaurant restaurants })

unfoldable pub build_order_items : Gateways → PlaceOrderCommand → Result OrderError BuiltItems
unfolding distinct_from build_from_menu
build_order_items gateways command = do
  let ids = distinct_from (λ a b. a == b) [] (map (λ i. i.item_id) command.items)
  menu ← gateways.validate_items command.tenant_id ids
  build_from_menu menu command.items

-- From the command to the order that is to be stored, before anything is written.
unfoldable pub pending_order : Gateways → PlaceOrderCommand → ℕ → ℕ → Result OrderError Order
unfolding build_order_items
pending_order gateways command order_id now = do
  built ← build_order_items gateways command
  Aggregate.create
      (record {
        id = order_id;
        tenant_id = command.tenant_id;
        user_id = command.user_id;
        restaurant_id = built.restaurant_id;
        items = built.items;
        pricing = gateways.resolve_pricing command.tenant_id;
      })
      now
