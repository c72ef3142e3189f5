-- ===== src/Prober.antt =====
-- The package prober: the agent that connects to its peers and exchanges messages with them.
pub mod Peers
pub mod Agent
pub mod Recipient
pub mod Connect
pub mod Handshake
pub mod Messaging
pub mod Services
pub mod Examples
