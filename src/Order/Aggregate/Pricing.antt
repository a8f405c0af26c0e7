-- ===== src/Order/Aggregate/Pricing.antt =====
-- The amounts of a created order.
use food_delivery_api.Common.{
  ℕ, ◌+◌, ◌-◌, ◌*◌, ◌≤◌, ◌<◌, ◌≡◌, ok, arith, none, [], ◌≢◌, sum_of, sum_from-eq-sum_of, inl, inr,
  Result-cases,
}
use food_delivery_api.Common.Int.{pos}
use food_delivery_api.Common.Number.{int, Number}
use food_delivery_api.Order.Status.{OrderStatus}
use food_delivery_api.Order.Errors.{Label}
use food_delivery_api.Order.Item.{max_money_cents}
use food_delivery_api.Order.Aggregate.{
  Order, CreateOrderProps, OrderPricingInput, CheckedPricing, assert_bounded_non_negative_integer,
  assert_valid_pricing_input, subtotal, vat, total, create,
}

-- The amounts of an order fit together: the VAT is the floor of the rate's share of the subtotal,
-- the total is what the discount leaves of the sum, and none exceeds the maximum.
pub record IsPriced (rate : ℕ) (o : Order) : Type 0 where
  pub sums_lines : o.subtotal_cents ≡ sum_of (λ i. i.line_total_cents) o.items
  pub vat_below : o.vat_cents * 10000 ≤ o.subtotal_cents * rate
  pub vat_above : o.subtotal_cents * rate < (o.vat_cents + 1) * 10000
  pub total_after_discount :
      o.total_cents ≡ o.subtotal_cents + o.delivery_fee_cents + o.vat_cents - o.discount_cents
  pub subtotal_bounded : o.subtotal_cents ≤ max_money_cents
  pub fee_bounded : o.delivery_fee_cents ≤ max_money_cents
  pub vat_bounded : o.vat_cents ≤ max_money_cents
  pub discount_bounded : o.discount_cents ≤ max_money_cents
  pub total_bounded : o.total_cents ≤ max_money_cents

assert_bounded-ok :
    (value : Number) (label : Label) (n : ℕ)
    → assert_bounded_non_negative_integer value label ≡ ok n
    → (value ≡ int (pos n)) × (n ≤ max_money_cents)
unfolding assert_bounded_non_negative_integer
assert_bounded-ok value label n h = ground arith

assert_valid_pricing_input-ok :
    (p : OrderPricingInput) (c : CheckedPricing)
    → assert_valid_pricing_input p ≡ ok c
    → (p.delivery_fee_cents ≡ int (pos c.fee))
      × (p.vat_rate_bps ≡ int (pos c.rate))
      × (p.discount_cents ≡ int (pos c.off))
      × (c.fee ≤ max_money_cents)
      × (c.rate ≤ max_money_cents)
      × (c.off ≤ max_money_cents)
unfolding assert_valid_pricing_input
assert_valid_pricing_input-ok p c h = ground arith

vat_floor : (s rate : ℕ) → (vat s rate * 10000 ≤ s * rate) × (s * rate < (vat s rate + 1) * 10000)
unfolding vat
vat_floor s rate = (omega arith, omega arith)

-- The order of a request under checked amounts.
record IsCreatedFrom (props : CreateOrderProps) (c : CheckedPricing) (o : Order) : Type 0 where
  is_pending : o.status ≡ OrderStatus.pending
  same_id : o.id ≡ props.id
  same_tenant : o.tenant_id ≡ props.tenant_id
  same_user : o.user_id ≡ props.user_id
  same_restaurant : o.restaurant_id ≡ props.restaurant_id
  has_restaurant : o.restaurant_id ≢ none
  same_items : o.items ≡ props.items
  has_items : o.items ≢ []
  first_version : o.version ≡ 0
  fee : o.delivery_fee_cents ≡ c.fee
  off : o.discount_cents ≡ c.off
  sub : o.subtotal_cents ≡ subtotal props.items
  tax : o.vat_cents ≡ vat o.subtotal_cents c.rate
  sum : o.total_cents ≡ total o.subtotal_cents c.fee o.vat_cents c.off
  sub_bounded : o.subtotal_cents ≤ max_money_cents
  tax_bounded : o.vat_cents ≤ max_money_cents
  sum_bounded : o.total_cents ≤ max_money_cents

-- What an order that `create` returns was made of.
pub record IsCreated (props : CreateOrderProps) (o : Order) : Type 0 where
  pub is_pending : o.status ≡ OrderStatus.pending
  pub same_id : o.id ≡ props.id
  pub same_tenant : o.tenant_id ≡ props.tenant_id
  pub same_user : o.user_id ≡ props.user_id
  pub same_restaurant : o.restaurant_id ≡ props.restaurant_id
  pub has_restaurant : o.restaurant_id ≢ none
  pub same_items : o.items ≡ props.items
  pub has_items : o.items ≢ []
  pub same_fee : props.pricing.delivery_fee_cents ≡ int (pos o.delivery_fee_cents)
  pub same_discount : props.pricing.discount_cents ≡ int (pos o.discount_cents)
  pub first_version : o.version ≡ 0

-- The checked amounts of a call that returned, and the order that it built of them.
create-ok :
    (props : CreateOrderProps) (now : ℕ) (o : Order)
    → create props now ≡ ok o
    → (c : CheckedPricing) × (assert_valid_pricing_input props.pricing ≡ ok c)
      × IsCreatedFrom props c o
unfolding create
create-ok props now o h = elim (Result-cases (assert_valid_pricing_input props.pricing)) [
  | inl (c, e) ↦ (c, e, ground arith)
  | inr (e, bad) ↦ ground arith
]

IsPriced-of_checked :
    (props : CreateOrderProps) (c : CheckedPricing) (o : Order)
    → IsCreatedFrom props c o
    → c.fee ≤ max_money_cents
    → c.off ≤ max_money_cents
    → IsPriced c.rate o
unfolding subtotal total
IsPriced-of_checked props c o made fee_ok off_ok = ground (
  arith,
  vat_floor o.subtotal_cents c.rate,
  sum_from-eq-sum_of (λ i. i.line_total_cents) 0 props.items,
)

-- An order that `create` returns is PENDING, carries the request's fields, and its amounts fit
-- together and are bounded, under the VAT rate of the request.
pub create-IsPriced :
    (props : CreateOrderProps) (now : ℕ) (o : Order)
    → create props now ≡ ok o
    → IsCreated props o
      × ((rate : ℕ) × (props.pricing.vat_rate_bps ≡ int (pos rate)) × IsPriced rate o)
create-IsPriced props now o h =
    let (c, checked, made) = create-ok props now o h in
    let amounts = assert_valid_pricing_input-ok props.pricing c checked in
    (ground arith, (c.rate, amounts.1, IsPriced-of_checked props c o made amounts.3 amounts.5))

-- A request with a line, a restaurant and integral amounts is accepted whenever its fee, rate and
-- discount, its subtotal, its VAT and its total are at most the maximum.
pub create-accepts :
    (props : CreateOrderProps) (now fee rate off : ℕ)
    → props.items ≢ []
    → props.restaurant_id ≢ none
    → props.pricing ≡ record {
      delivery_fee_cents = int (pos fee);
      vat_rate_bps = int (pos rate);
      discount_cents = int (pos off);
    }
    → fee ≤ max_money_cents
    → rate ≤ max_money_cents
    → off ≤ max_money_cents
    → subtotal props.items ≤ max_money_cents
    → vat (subtotal props.items) rate ≤ max_money_cents
    → total (subtotal props.items) fee (vat (subtotal props.items) rate) off ≤ max_money_cents
    → (o : Order) × (create props now ≡ ok o)
unfolding create assert_valid_pricing_input
create-accepts props now fee rate off items restaurant priced f r d s v t =
    elim (Result-cases (create props now)) [ inl made ↦ made | inr (e, bad) ↦ ground arith ]
