-- ===== src/Inventory/Store.antt =====
-- The inventory service's database and the repositories over it: typeorm-stock.repository.ts and
-- typeorm-reservation.repository.ts of apps/inventory/src/infrastructure/persistence/repositories,
-- `append` and `markProcessed` of apps/inventory/src/infrastructure/outbox, and `Stock` and
-- `Reservation` of apps/inventory/src/domain. The timestamps, which nothing reads, are left out.
use food_delivery_api.Common.{
  ℕ, ◌+◌, ◌-◌, ◌&&◌, Bool, true, false, List, [], ◌∷◌, ◌++◌, any, keep, Result, ok, err, Action,
  ◌>>=◌, ◌>>◌, pure, throw_if, gets, modify, leb, ◌==◌,
}
use food_delivery_api.Common.Table.{update_where}
use food_delivery_api.Messaging.Idempotent.{ProcessedEventStore}
use food_delivery_api.Inventory.Errors.{
  InventoryError, invalid_reservation, unique_violation, duplicate_event,
}

pub record Stock : Type 0 where
  pub tenant_id : ℕ
  pub item_id : ℕ
  pub available : ℕ

pub data ReservationStatus : Type 0 where
  active released : ReservationStatus

pub record Reservation : Type 0 where
  pub id : ℕ
  pub tenant_id : ℕ
  pub order_id : ℕ
  pub item_id : ℕ
  pub qty : ℕ
  pub status : ReservationStatus

-- The replies to the order saga; a failure carries its reason.
pub data Reply : Type 0 where
  stock_reserved stock_reservation_failed stock_released : ℕ → Reply

pub record OutboxCommandEntry : Type 0 where
  pub aggregate_id : ℕ
  pub reply : Reply
  pub correlation_id : ℕ

pub record InventoryDb : Type 0 where
  pub stock : List Stock
  pub reservations : List Reservation
  pub outbox : List OutboxCommandEntry
  pub processed_events : List ℕ

abbrev pub InventoryAction : Type 0 → Type 0
InventoryAction A = Action InventoryDb InventoryError A

-- `status = 'ACTIVE'`
abbrev pub is_active : ReservationStatus → Bool
is_active active = true
is_active released = false

-- `tenant_id = :tenantId AND item_id = :itemId`, the primary key of `stock`.
abbrev pub is_stock : ℕ → ℕ → Stock → Bool
is_stock tenant_id item_id row = row.tenant_id == tenant_id && row.item_id == item_id

-- `where: { tenantId, orderId, status: 'ACTIVE' }`
abbrev pub is_active_of : ℕ → ℕ → Reservation → Bool
is_active_of tenant_id order_id row =
    row.tenant_id == tenant_id && row.order_id == order_id && is_active row.status

-- `Reservation.create`
unfoldable pub create : ℕ → ℕ → ℕ → ℕ → ℕ → Result InventoryError Reservation
create id tenant_id order_id item_id qty = elim (qty == 0) [
  | true ↦ err invalid_reservation
  | false ↦ ok (record {
    id = id;
    tenant_id = tenant_id;
    order_id = order_id;
    item_id = item_id;
    qty = qty;
    status = active;
  })
]

unfoldable pub find_active_by_order : ℕ → ℕ → InventoryAction (List Reservation)
find_active_by_order tenant_id order_id =
    gets (λ db. keep (is_active_of tenant_id order_id) db.reservations)

-- The unique index on the active rows: `(tenant_id, order_id, item_id) WHERE status = 'ACTIVE'`.
abbrev pub same_active : Reservation → Reservation → Bool
same_active r row =
    is_active row.status
    && row.tenant_id == r.tenant_id
    && row.order_id == r.order_id
    && row.item_id == r.item_id

-- The id is a fresh UUID, so `save` inserts.
unfoldable pub save : Reservation → InventoryAction Reservation
save reservation = do
  taken ← gets (λ db. any (same_active reservation) db.reservations)
  throw_if taken unique_violation
  modify (λ db. record db { reservations = db.reservations ++ reservation ∷ [] })
  pure reservation

-- `id = :id AND status = 'ACTIVE'`
abbrev pub is_active_id : ℕ → Reservation → Bool
is_active_id id row = row.id == id && is_active row.status

unfoldable pub release_if_active : Reservation → InventoryAction Bool
release_if_active reservation = do
  affected ← gets (λ db. any (is_active_id reservation.id) db.reservations)
  modify λ db. record db {
    reservations =
        update_where (is_active_id reservation.id) (λ row. record row { status = released })
          db.reservations;
  }
  pure affected

unfoldable pub find_by_item_ids : ℕ → List ℕ → InventoryAction (List Stock)
find_by_item_ids tenant_id item_ids = gets λ db.
    keep (λ row. row.tenant_id == tenant_id && any (λ id. row.item_id == id) item_ids) db.stock

-- `tenant_id = :tenantId AND item_id = :itemId AND available >= :byQty`
abbrev pub has_available : ℕ → ℕ → ℕ → Stock → Bool
has_available tenant_id item_id qty row = is_stock tenant_id item_id row && leb qty row.available

unfoldable pub decrement_if_available : ℕ → ℕ → ℕ → InventoryAction Bool
decrement_if_available tenant_id item_id qty = do
  affected ← gets (λ db. any (has_available tenant_id item_id qty) db.stock)
  modify λ db. record db {
    stock =
        update_where (has_available tenant_id item_id qty)
          (λ row. record row { available = row.available - qty }) db.stock;
  }
  pure affected

unfoldable pub increase_available : ℕ → ℕ → ℕ → InventoryAction (Unit {0})
increase_available tenant_id item_id qty = modify λ db. record db {
  stock =
      update_where (is_stock tenant_id item_id)
        (λ row. record row { available = row.available + qty }) db.stock;
}

unfoldable pub append : OutboxCommandEntry → InventoryAction (Unit {0})
append entry = modify (λ db. record db { outbox = db.outbox ++ entry ∷ [] })

-- `event_id` is the primary key of `processed_events`.
unfoldable pub mark_processed : ℕ → InventoryAction (Unit {0})
mark_processed event = do
  taken ← gets (λ db. any (λ e. e == event) db.processed_events)
  throw_if taken (duplicate_event event)
  modify (λ db. record db { processed_events = db.processed_events ++ event ∷ [] })

abbrev pub is_duplicate : InventoryError → Bool
is_duplicate (duplicate_event _) = true
is_duplicate _ = false

abbrev pub processed_event_store : ProcessedEventStore InventoryDb InventoryError
unfolding mark_processed
processed_event_store = record {
  mark_processed = mark_processed;
  is_duplicate = is_duplicate;
  has = λ db event. any (λ e. e == event) db.processed_events;
}
