-- ===== src/Domain.antt =====
-- The package domain: definitions.go, models/ and messages/.
mod Models
mod Messages
pub mod MsgType
pub mod Services
unfoldable pub use Models.*
pub use Messages.*
