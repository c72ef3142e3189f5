-- ===== src/Cli.antt =====
-- The package cli: the console, the commands of the menu, and the loop that reads them.
pub mod Console
pub mod Commands
pub mod Menu
pub mod Creation
mod Examples
