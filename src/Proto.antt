-- ===== src/Proto.antt =====
-- The adb protocol: crates/adb-proto/src.
pub mod Bytes
pub mod Error
pub mod Stream
pub mod Sync
pub mod Shell
pub mod Client
mod Examples
