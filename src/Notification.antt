-- ===== src/Notification.antt =====
-- app/modules/notification: the delivery of notifications by external channels, in leased attempts.
pub mod Model
pub mod Delivery
pub mod Attempts
pub mod Pass
mod Tests
pub mod Consume
pub mod Commands
pub mod Consumer
pub mod Receipts
pub mod Redelivery
