-- ===== src/Order/Aggregate/Machine.antt =====
-- The order's state machine as the methods of `Order` run it.
use food_delivery_api.Common.{ℕ, suc, ◌+◌, ◌≤◌, ◌<◌, ◌≡◌, refl, ◌↔◌, true, ok, arith}
use food_delivery_api.Order.Status.{OrderStatus, allows}
use food_delivery_api.Order.Aggregate.{Order, transition_to, reserve, confirm, cancel}

-- The documented machine: PENDING → RESERVED → CONFIRMED, and CANCELLED from either of the first.
pub data Step : OrderStatus → OrderStatus → Type 0 where
  reserving : Step OrderStatus.pending OrderStatus.reserved
  confirming : Step OrderStatus.reserved OrderStatus.confirmed
  cancelling_pending : Step OrderStatus.pending OrderStatus.cancelled
  cancelling_reserved : Step OrderStatus.reserved OrderStatus.cancelled

allows_of_Step : {a b : OrderStatus} → Step a b → allows a b ≡ true
unfolding allows
allows_of_Step reserving = refl
allows_of_Step confirming = refl
allows_of_Step cancelling_pending = refl
allows_of_Step cancelling_reserved = refl

Step-of_allows : (a b : OrderStatus) → allows a b ≡ true → Step a b
unfolding allows
Step-of_allows OrderStatus.pending OrderStatus.pending h = ground arith
Step-of_allows OrderStatus.pending OrderStatus.reserved h = reserving
Step-of_allows OrderStatus.pending OrderStatus.confirmed h = ground arith
Step-of_allows OrderStatus.pending OrderStatus.cancelled h = cancelling_pending
Step-of_allows OrderStatus.reserved OrderStatus.pending h = ground arith
Step-of_allows OrderStatus.reserved OrderStatus.reserved h = ground arith
Step-of_allows OrderStatus.reserved OrderStatus.confirmed h = confirming
Step-of_allows OrderStatus.reserved OrderStatus.cancelled h = cancelling_reserved
Step-of_allows OrderStatus.confirmed OrderStatus.pending h = ground arith
Step-of_allows OrderStatus.confirmed _ h = ground arith
Step-of_allows OrderStatus.cancelled OrderStatus.pending h = ground arith
Step-of_allows OrderStatus.cancelled _ h = ground arith

-- How many steps lead to a status at most.
pub rank : OrderStatus → ℕ
rank OrderStatus.pending = 0
rank OrderStatus.reserved = 1
rank OrderStatus.confirmed = 2
rank OrderStatus.cancelled = 2

-- A history of an order: calls of `reserve`, `confirm` and `cancel` that each returned.
pub data History (o : Order) : Order → ℕ → Type 0 where
  fresh : History o o 0
  reserved :
      {p q : Order} {n : ℕ} (now : ℕ) → History o p n → reserve p now ≡ ok q → History o q (suc n)
  confirmed :
      {p q : Order} {n : ℕ} (now : ℕ) → History o p n → confirm p now ≡ ok q → History o q (suc n)
  cancelled :
      {p q : Order} {n : ℕ} (now : ℕ) → History o p n → cancel p now ≡ ok q → History o q (suc n)

Step-rank : {a b : OrderStatus} → Step a b → rank a < rank b
unfolding rank
Step-rank reserving = omega arith
Step-rank confirming = omega arith
Step-rank cancelling_pending = omega arith
Step-rank cancelling_reserved = omega arith

pub transition_to-ok :
    (o p : Order) (next : OrderStatus) (now : ℕ)
    → transition_to o next now ≡ ok p
    → (allows o.status next ≡ true) × (p ≡ record o { status = next; updated_at = now })
unfolding transition_to
transition_to-ok o p next now h = ground arith

-- `transitionTo` returns exactly on the steps of the machine, and what it returns is the order with
-- the new status and time, and nothing else changed.
pub transition_to_iff :
    (o p : Order) (next : OrderStatus) (now : ℕ)
    → (transition_to o next now ≡ ok p)
      ↔ (Step o.status next × (p ≡ record o { status = next; updated_at = now }))
unfolding transition_to
transition_to_iff o p next now = (
  λ h. let (legal, e) = transition_to-ok o p next now h in (Step-of_allows o.status next legal, e),
  λ (step, e). ground (arith, allows_of_Step step),
)

transition_to-rank :
    (o p : Order) (next : OrderStatus) (now : ℕ)
    → transition_to o next now ≡ ok p
    → rank o.status < rank p.status
transition_to-rank o p next now h =
    let (legal, e) = transition_to-ok o p next now h in
    rw e (Step-rank (Step-of_allows o.status next legal))

rank-le : (s : OrderStatus) → rank s ≤ 2
unfolding rank
rank-le OrderStatus.pending = omega arith
rank-le _ = omega arith

History-rank : {o p : Order} {n : ℕ} → History o p n → n + rank o.status ≤ rank p.status
unfolding reserve confirm cancel
History-rank fresh = omega arith
History-rank (reserved {p = p} {q = q} now h e) =
    omega (arith, History-rank h, transition_to-rank p q _ now e)
History-rank (confirmed {p = p} {q = q} now h e) =
    omega (arith, History-rank h, transition_to-rank p q _ now e)
History-rank (cancelled {p = p} {q = q} now h e) =
    omega (arith, History-rank h, transition_to-rank p q _ now e)

-- In any history of an order at most two calls of `reserve`, `confirm` and `cancel` return.
pub moves-le : {o p : Order} {n : ℕ} → History o p n → n ≤ 2
moves-le {p = p} h = omega (arith, History-rank h, rank-le p.status)
