-- ===== src/Order.antt =====
-- The order service (apps/order/src).
pub mod Status
pub mod SagaState
pub mod Errors
pub mod Item
pub mod Aggregate
pub mod Saga
pub mod Commands
pub mod Store
pub mod Menu
pub mod Place
pub mod Lifecycle
pub mod Replies
pub mod Reaper
pub mod Life
pub mod Tests
