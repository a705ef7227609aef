-- ===== src/Cli.antt =====
-- The command line client, cli/.
pub mod Tools
pub mod State
pub mod Mine
pub mod Send
pub mod Info
pub mod List
pub mod Command
pub mod Main
