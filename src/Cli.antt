-- ===== src/Cli.antt =====
-- The command line program, crates/adbrsync-cli/src.
pub mod Remote
pub mod Info
pub mod Destinations
pub mod Start
pub mod Run
mod Examples
