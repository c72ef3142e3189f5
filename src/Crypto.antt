-- ===== src/Crypto.antt =====
-- The package crypto.
pub mod Keys
pub mod Cipher
pub mod Packer
pub mod Examples
