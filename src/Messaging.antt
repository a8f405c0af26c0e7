-- ===== src/Messaging.antt =====
-- libs/shared/messaging.
pub mod Envelope
pub mod Producer
pub mod DeadLetter
pub mod Relay
pub mod Consume
pub mod Idempotent
pub mod Tests
