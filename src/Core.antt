-- ===== src/Core.antt =====
-- The scan, plan and transfer engine, crates/adbrsync-core/src.
pub mod Entry
pub mod Filter
pub mod Digests
pub mod Plan
pub mod Fanout
pub mod Error
pub mod Checksum
pub mod Records
pub mod Scan
pub mod Destinations
pub mod LocalScan
pub mod Measure
pub mod Perf
pub mod Paths
pub mod Fetch
pub mod Pool
pub mod Removal
