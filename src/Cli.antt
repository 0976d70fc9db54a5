-- ===== src/Cli.antt =====
-- crates/guardian-cli/src/main.rs: the parts of the commands that decide.
pub mod Hook
pub mod Brokered
pub mod Exec
pub mod Evaluation
pub mod Cockpit
pub mod Publish
pub mod Mcp
