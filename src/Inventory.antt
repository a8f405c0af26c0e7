-- ===== src/Inventory.antt =====
-- The inventory service, apps/inventory/src.
pub mod Errors
pub mod Items
pub mod Store
pub mod Reserve
pub mod Release
pub mod Commands
pub mod Tests
pub mod Units
