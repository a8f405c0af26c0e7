-- ===== src/Inventory/Commands/Redelivery.antt =====
-- What a second delivery of a reservation command does.
