-- ===== src/Payment.antt =====
-- apps/payment.
pub mod Charge
pub mod Tests
pub mod Gateway
pub mod Webhook
