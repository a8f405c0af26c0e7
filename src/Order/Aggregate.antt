-- ===== src/Order/Aggregate.antt =====
-- The order aggregate, apps/order/src/domain/order/order.ts. The identifiers are UUIDs that the
-- code only compares, so they are numbers; a restaurant id that is missing or empty is `none`.
-- Dates are milliseconds, and a call's clock reading is its argument `now`. Amounts are exact:
-- what is accepted is below 2^31, where doubles lose nothing, and rounding is monotone above.
pub mod Pricing
pub mod Machine
use food_delivery_api.Common.{
  ℕ, ◌+◌, ◌-◌, ◌*◌, ◌/◌, ◌||◌, not, Bool, List, Option, none, some, Result, ok, err, ltb, ◌==◌,
  length, sum_from,
}
use food_delivery_api.Common.Int.{pos}
use food_delivery_api.Common.Number.{Number, is_integer, below, above, to_nat}
use food_delivery_api.Common.Throws.{◌>>=◌, ◌>>◌, throw_if}
use food_delivery_api.Order.Status.{OrderStatus, allows}
use food_delivery_api.Order.Errors.{
  Label, delivery_fee, vat_rate, discount, order_subtotal, order_vat, order_total, no_items,
  no_restaurant, not_non_negative_integer, exceeds_maximum, OrderError, invalid_order_request,
  illegal_order_transition,
}
use food_delivery_api.Order.Item.{OrderItem, max_money_cents}

pub record Order : Type 0 where
  pub id : ℕ
  pub tenant_id : ℕ
  pub user_id : ℕ
  pub restaurant_id : Option ℕ
  pub status : OrderStatus
  pub items : List OrderItem
  pub subtotal_cents : ℕ
  pub delivery_fee_cents : ℕ
  pub vat_cents : ℕ
  pub discount_cents : ℕ
  pub total_cents : ℕ
  pub version : ℕ
  pub created_at : ℕ
  pub updated_at : ℕ

pub record OrderPricingInput : Type 0 where
  pub delivery_fee_cents : Number
  pub vat_rate_bps : Number
  pub discount_cents : Number

pub record CreateOrderProps : Type 0 where
  pub id : ℕ
  pub tenant_id : ℕ
  pub user_id : ℕ
  pub restaurant_id : Option ℕ
  pub items : List OrderItem
  pub pricing : OrderPricingInput

-- The check returns the number that the value is.
unfoldable pub assert_bounded_non_negative_integer : Number → Label → Result OrderError ℕ
assert_bounded_non_negative_integer value label = do
  throw_if (not (is_integer value) || below value (pos 0))
      (invalid_order_request (not_non_negative_integer label))
  throw_if (above value (pos max_money_cents)) (invalid_order_request (exceeds_maximum label))
  ok (to_nat value)

-- The three checked amounts.
pub record CheckedPricing : Type 0 where
  pub fee : ℕ
  pub rate : ℕ
  pub off : ℕ

unfoldable pub assert_valid_pricing_input : OrderPricingInput → Result OrderError CheckedPricing
unfolding assert_bounded_non_negative_integer
assert_valid_pricing_input pricing = do
  fee ← assert_bounded_non_negative_integer pricing.delivery_fee_cents delivery_fee
  rate ← assert_bounded_non_negative_integer pricing.vat_rate_bps vat_rate
  off ← assert_bounded_non_negative_integer pricing.discount_cents discount
  ok (record { fee = fee; rate = rate; off = off })

-- One round of the loop over the three amounts.
unfoldable pub assert_within_maximum : ℕ → Label → Result OrderError (Unit {0})
assert_within_maximum amount label =
    throw_if (ltb max_money_cents amount) (invalid_order_request (exceeds_maximum label))

unfoldable pub subtotal : List OrderItem → ℕ
subtotal items = sum_from (λ i. i.line_total_cents) 0 items

-- `Math.floor((subtotalCents * vatRateBps) / 10000)`
unfoldable pub vat : ℕ → ℕ → ℕ
vat subtotal_cents rate = subtotal_cents * rate / 10000

-- `Math.max(0, subtotalCents + deliveryFeeCents + vatCents - discountCents)`; the subtraction of
-- natural numbers stops at 0.
unfoldable pub total : ℕ → ℕ → ℕ → ℕ → ℕ
total subtotal_cents fee vat_cents off = subtotal_cents + fee + vat_cents - off

-- `if (!props.restaurantId) throw …`
unfoldable pub assert_restaurant : Option ℕ → Result OrderError (Unit {0})
assert_restaurant none = err (invalid_order_request no_restaurant)
assert_restaurant (some _) = ok tt

unfoldable pub create : CreateOrderProps → ℕ → Result OrderError Order
unfolding assert_restaurant assert_within_maximum
create props now = do
  throw_if (length props.items == 0) (invalid_order_request no_items)
  assert_restaurant props.restaurant_id
  pricing ← assert_valid_pricing_input props.pricing
  let subtotal_cents = subtotal props.items
  let vat_cents = vat subtotal_cents pricing.rate
  let total_cents = total subtotal_cents pricing.fee vat_cents pricing.off
  assert_within_maximum subtotal_cents order_subtotal
  assert_within_maximum vat_cents order_vat
  assert_within_maximum total_cents order_total
  ok (record {
    id = props.id;
    tenant_id = props.tenant_id;
    user_id = props.user_id;
    restaurant_id = props.restaurant_id;
    status = OrderStatus.pending;
    items = props.items;
    subtotal_cents = subtotal_cents;
    delivery_fee_cents = pricing.fee;
    vat_cents = vat_cents;
    discount_cents = pricing.off;
    total_cents = total_cents;
    version = 0;
    created_at = now;
    updated_at = now;
  })

unfoldable pub is_owned_by : Order → ℕ → Bool
is_owned_by order user_id = order.user_id == user_id

unfoldable pub transition_to : Order → OrderStatus → ℕ → Result OrderError Order
transition_to order next now = do
  throw_if (not (allows order.status next)) (illegal_order_transition order.status next)
  ok (record order { status = next; updated_at = now })

unfoldable pub reserve : Order → ℕ → Result OrderError Order
unfolding transition_to
reserve order now = transition_to order OrderStatus.reserved now

unfoldable pub confirm : Order → ℕ → Result OrderError Order
unfolding transition_to
confirm order now = transition_to order OrderStatus.confirmed now

unfoldable pub cancel : Order → ℕ → Result OrderError Order
unfolding transition_to
cancel order now = transition_to order OrderStatus.cancelled now
