-- ===== src/Order/Lifecycle.antt =====
-- The calls of a user on an order: apps/order/src/application/order/commands/cancel-order.handler.ts
-- and confirm-order.handler.ts, with apps/order/src/application/shared/assert-order-ownership.ts.
pub mod Stranding
use text.Mathlib.Text.{◌==◌ as str_eq}
use food_delivery_api.Common.{
  ℕ, ◌||◌, not, Bool, List, String, Option, Result, any, Action, ◌>>=◌, ◌>>◌, pure, throw_if,
  or_throw, lift,
}
use food_delivery_api.Order.Errors.{OrderError, order_not_found, order_forbidden}
use food_delivery_api.Order.Aggregate.{Order, is_owned_by, cancel, confirm}
use food_delivery_api.Order.Store.{OrderDb, OrderAction, find_by_id, update_status}

pub record LifecycleCommand : Type 0 where
  pub tenant_id : ℕ
  pub user_id : ℕ
  pub roles : List String
  pub order_id : ℕ

-- `roles.includes(ADMIN_ROLE)`
abbrev pub is_admin : List String → Bool
is_admin roles = any (str_eq "admin") roles

unfoldable pub assert_order_ownership : Order → ℕ → List String → OrderAction (Unit {0})
unfolding is_owned_by
assert_order_ownership order user_id roles =
    throw_if (not (is_admin roles || is_owned_by order user_id)) (order_forbidden order.id)

-- The call `inventoryGateway.release(tenantId, orderId)` of another service.
pub record ReleaseRequest : Type 0 where
  pub tenant_id : ℕ
  pub order_id : ℕ

-- The order that the call returns, and the release that it asked the inventory for. A failure of
-- that release is caught and logged, so the call ends the same way.
pub record Cancellation : Type 0 where
  pub saved : Order
  pub release : ReleaseRequest

unfoldable pub cancel_by_user : LifecycleCommand → ℕ → OrderAction Cancellation
unfolding find_by_id assert_order_ownership cancel update_status
cancel_by_user command now = do
  found ← find_by_id command.tenant_id command.order_id
  order ← or_throw found (order_not_found command.order_id)
  assert_order_ownership order command.user_id command.roles
  saved ← update_status (← lift (cancel order now)) now
  let release : ReleaseRequest = record {
    tenant_id = command.tenant_id;
    order_id = command.order_id;
  }
  pure (record { saved = saved; release = release })

unfoldable pub confirm_by_user : LifecycleCommand → ℕ → OrderAction Order
unfolding find_by_id assert_order_ownership confirm update_status
confirm_by_user command now = do
  found ← find_by_id command.tenant_id command.order_id
  order ← or_throw found (order_not_found command.order_id)
  assert_order_ownership order command.user_id command.roles
  update_status (← lift (confirm order now)) now
