-- ===== src/Catalog.antt =====
-- apps/catalog.
pub mod Names
pub mod Restaurant
pub mod Item
pub mod Events
pub mod Store
pub mod Restaurants
pub mod Items
pub mod Commands
pub mod Versions
pub mod ReadModel
pub mod Tests
