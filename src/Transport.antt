-- ===== src/Transport.antt =====
-- The package pubsub/transport.
pub mod Topics
pub mod Messages
pub mod Auth
pub mod Sockets
pub mod Listeners
pub mod Publisher
pub mod Peers
pub mod Examples
