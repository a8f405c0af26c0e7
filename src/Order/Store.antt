-- ===== src/Order/Store.antt =====
-- The order service's database, and the repositories over it: typeorm-order.repository.ts,
-- typeorm-order-saga.repository.ts and typeorm-idempotency.repository.ts of
-- apps/order/src/infrastructure/persistence/repositories, and `append` and `markProcessed` of
-- apps/order/src/infrastructure/outbox. A row of `orders` carries its `order_items`. The clock of
-- the database is the argument `now`, and a column default or constraint is written out here.
pub mod Laws
use food_delivery_api.Common.{
  ℕ, ◌+◌, ◌&&◌, ◌||◌, not, Bool, true, false, List, [], ◌∷◌, ◌++◌, Option, none, some, map, any,
  find, keep, Action, ◌>>=◌, ◌>>◌, pure, throw_if, or_throw, gets, modify, ltb, ◌==◌, if◌then◌else◌,
}
use food_delivery_api.Common.Table.{update_where}
use food_delivery_api.Messaging.Idempotent.{ProcessedEventStore}
use food_delivery_api.Order.SagaState.{SagaState, state_eq, non_terminal_states}
use food_delivery_api.Order.Errors.{
  OrderError, order_not_found, order_concurrency_conflict, order_row, saga_concurrency_conflict,
  saga_state_changed, unique_violation, duplicate_event,
}
use food_delivery_api.Order.Aggregate.{Order}
use food_delivery_api.Order.Saga.{OrderSaga, StrandedSagaCandidate}
use food_delivery_api.Order.Commands.{OutboxCommandEntry}

pub record IdempotencyKey : Type 0 where
  pub tenant_id : ℕ
  pub user_id : ℕ
  pub key : ℕ
  pub order_id : ℕ

-- A row that `append` writes; it is not published yet.
pub record OutboxRow : Type 0 where
  pub tenant_id : ℕ
  pub entry : OutboxCommandEntry

pub record OrderDb : Type 0 where
  pub orders : List Order
  pub sagas : List OrderSaga
  pub idempotency_keys : List IdempotencyKey
  pub outbox : List OutboxRow
  pub processed_events : List ℕ

abbrev pub OrderAction : Type 0 → Type 0
OrderAction A = Action OrderDb OrderError A

-- `where: { id, tenantId }`
abbrev pub is_order : ℕ → ℕ → Order → Bool
is_order tenant_id id row = row.id == id && row.tenant_id == tenant_id

-- `where: { orderId, tenantId }`
abbrev pub is_saga : ℕ → ℕ → OrderSaga → Bool
is_saga tenant_id order_id row = row.order_id == order_id && row.tenant_id == tenant_id

-- `where: { tenantId, userId, key }`, the primary key of `idempotency_keys`.
abbrev pub is_key : ℕ → ℕ → ℕ → IdempotencyKey → Bool
is_key tenant_id user_id key row =
    row.tenant_id == tenant_id && row.user_id == user_id && row.key == key

abbrev pub order_at : ℕ → ℕ → OrderDb → Option Order
order_at tenant_id id db = find (is_order tenant_id id) db.orders

abbrev pub saga_at : ℕ → ℕ → OrderDb → Option OrderSaga
saga_at tenant_id order_id db = find (is_saga tenant_id order_id) db.sagas

unfoldable pub find_by_id : ℕ → ℕ → OrderAction (Option Order)
find_by_id tenant_id id = gets (order_at tenant_id id)

-- The id is a fresh UUID, so `save` inserts; a new row's version column starts at 1.
unfoldable pub insert_order : Order → ℕ → OrderAction Order
insert_order order now = do
  let row = record order { version = 1; created_at = now; updated_at = now }
  modify (λ db. record db { orders = db.orders ++ row ∷ [] })
  pure row

-- `id = :id AND tenant_id = :tenantId AND version = :version`
abbrev pub same_order_version : Order → Order → Bool
same_order_version order row = is_order order.tenant_id order.id row && row.version == order.version

-- `set({ status, version: 'version + 1', updatedAt: 'now()' })`
abbrev pub set_status : Order → ℕ → Order → Order
set_status order now row = record row {
  status = order.status;
  version = row.version + 1;
  updated_at = now;
}

unfoldable pub update_status : Order → ℕ → OrderAction Order
update_status order now = do
  affected ← gets (λ db. any (same_order_version order) db.orders)
  throw_if (not affected) (order_concurrency_conflict (order_row order.id))
  modify λ db. record db {
    orders = update_where (same_order_version order) (set_status order now) db.orders;
  }
  reloaded ← gets (order_at order.tenant_id order.id)
  or_throw reloaded (order_not_found order.id)

-- `order_id` is the primary key of `order_saga`.
unfoldable pub insert_saga : OrderSaga → ℕ → OrderAction (Unit {0})
insert_saga saga now = do
  taken ← gets (λ db. any (λ row. row.order_id == saga.order_id) db.sagas)
  throw_if taken unique_violation
  modify λ db. record db {
    sagas = db.sagas ++ record saga { created_at = now; updated_at = now } ∷ [];
  }

unfoldable pub find_by_order_id : ℕ → ℕ → OrderAction (Option OrderSaga)
find_by_order_id tenant_id order_id = gets (saga_at tenant_id order_id)

-- `order_id = :orderId AND tenant_id = :tenantId AND version = :version`
abbrev pub same_saga_version : OrderSaga → OrderSaga → Bool
same_saga_version saga row = is_saga saga.tenant_id saga.order_id row && row.version == saga.version

-- `set({ state, lastEventId, version: 'version + 1', updatedAt: 'now()' })`
abbrev pub set_state : OrderSaga → ℕ → OrderSaga → OrderSaga
set_state saga now row = record row {
  state = saga.state;
  last_event_id = saga.last_event_id;
  version = row.version + 1;
  updated_at = now;
}

unfoldable pub save_transition : OrderSaga → ℕ → OrderAction OrderSaga
save_transition saga now = do
  affected ← gets (λ db. any (same_saga_version saga) db.sagas)
  throw_if (not affected) (saga_concurrency_conflict saga.order_id)
  modify λ db. record db {
    sagas = update_where (same_saga_version saga) (set_state saga now) db.sagas;
  }
  pure (record saga { version = saga.version + 1; updated_at = now })

-- `order_id = :orderId AND state = :expectedState`
abbrev pub in_expected_state : ℕ → SagaState → OrderSaga → Bool
in_expected_state order_id expected row = row.order_id == order_id && state_eq row.state expected

unfoldable pub record_reconcile_attempt : ℕ → SagaState → ℕ → OrderAction (Unit {0})
record_reconcile_attempt order_id expected now = do
  affected ← gets (λ db. any (in_expected_state order_id expected) db.sagas)
  throw_if (not affected) (saga_state_changed order_id expected)
  modify λ db. record db {
    sagas =
        update_where (in_expected_state order_id expected)
          (λ row. record row { attempts = row.attempts + 1; updated_at = now }) db.sagas;
  }

pub data ResetOutcome : Type 0 where
  reset terminal not_found : ResetOutcome

-- `state IN (:...states)`
abbrev pub is_non_terminal : SagaState → Bool
is_non_terminal state = any (state_eq state) non_terminal_states

abbrev pub resettable : ℕ → ℕ → OrderSaga → Bool
resettable tenant_id order_id row = is_saga tenant_id order_id row && is_non_terminal row.state

unfoldable pub reset_reconcile_attempts : ℕ → ℕ → OrderAction ResetOutcome
unfolding find_by_order_id
reset_reconcile_attempts tenant_id order_id = do
  affected ← gets (λ db. any (resettable tenant_id order_id) db.sagas)
  modify λ db. record db {
    sagas =
        update_where (resettable tenant_id order_id) (λ row. record row { attempts = 0 }) db.sagas;
  }
  existing ← find_by_order_id tenant_id order_id
  pure (if affected then reset else elim existing [ none ↦ not_found | some _ ↦ terminal ])

abbrev pub candidate_of : OrderSaga → StrandedSagaCandidate
candidate_of row = record {
  order_id = row.order_id;
  tenant_id = row.tenant_id;
  state = row.state;
  updated_at = row.updated_at;
}

-- `saga.state IN (…)` and `saga.updated_at < :olderThan`, where `olderThan` is `now - timeoutMs`;
-- the timeout stands on the other side, since a difference of natural numbers stops at 0.
unfoldable pub find_non_terminal : ℕ → ℕ → OrderAction (List StrandedSagaCandidate)
find_non_terminal now timeout_ms = gets λ db.
    map candidate_of
      (keep (λ row. is_non_terminal row.state && ltb (row.updated_at + timeout_ms) now) db.sagas)

-- `row?.orderId`
abbrev pub order_id_of : Option IdempotencyKey → Option ℕ
order_id_of none = none
order_id_of (some row) = some row.order_id

abbrev pub claim_at : ℕ → ℕ → ℕ → OrderDb → Option ℕ
claim_at tenant_id user_id key db =
    order_id_of (find (is_key tenant_id user_id key) db.idempotency_keys)

unfoldable pub find_order_id : ℕ → ℕ → ℕ → OrderAction (Option ℕ)
find_order_id tenant_id user_id key = gets (claim_at tenant_id user_id key)

unfoldable pub save_key : ℕ → ℕ → ℕ → ℕ → OrderAction (Unit {0})
save_key tenant_id user_id key order_id = do
  taken ← gets (λ db. any (is_key tenant_id user_id key) db.idempotency_keys)
  throw_if taken unique_violation
  modify λ db.
      let row : IdempotencyKey = record {
        tenant_id = tenant_id;
        user_id = user_id;
        key = key;
        order_id = order_id;
      } in
      record db { idempotency_keys = db.idempotency_keys ++ row ∷ [] }

-- The tenant is that of the context that the call runs in.
unfoldable pub append : ℕ → OutboxCommandEntry → OrderAction (Unit {0})
append tenant_id entry = modify λ db.
    let row : OutboxRow = record { tenant_id = tenant_id; entry = entry } in
    record db { outbox = db.outbox ++ row ∷ [] }

-- `event_id` is the primary key of `processed_events`.
unfoldable pub mark_processed : ℕ → OrderAction (Unit {0})
mark_processed event = do
  taken ← gets (λ db. any (λ e. e == event) db.processed_events)
  throw_if taken (duplicate_event event)
  modify (λ db. record db { processed_events = db.processed_events ++ event ∷ [] })

abbrev pub is_duplicate : OrderError → Bool
is_duplicate (duplicate_event _) = true
is_duplicate _ = false

abbrev pub processed_event_store : ProcessedEventStore OrderDb OrderError
unfolding mark_processed
processed_event_store = record {
  mark_processed = mark_processed;
  is_duplicate = is_duplicate;
  has = λ db event. any (λ e. e == event) db.processed_events;
}
