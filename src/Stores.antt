-- ===== src/Stores.antt =====
-- The package pubsub/stores.
pub mod Group
pub mod Subscriber
pub mod Examples
