-- ===== src/Didcomm.antt =====
-- The package didcomm.
pub mod Did
pub mod Connection
pub mod Invitation
pub mod Discovery
pub mod Trips
pub mod Examples
