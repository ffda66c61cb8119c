-- ===== src/Lib.antt =====
-- adbrsync copies a directory tree of an Android device, over the adb host protocol, to several
-- local directories at once, and leaves alone what is there already.
--
-- The parts and how they interact. The command line (Cli) names a source on a device and the
-- destinations. The client (Proto/Client) asks the adb server which device is meant and opens
-- services on it over streams (Proto/Stream). A shell command (Proto/Shell) walks the device tree,
-- and its output becomes entries (Core/Scan, Core/Records). The planner (Core/Plan) compares the
-- entries that the filter (Core/Filter) accepts with each destination, by size and time or by
-- digests (Core/Checksum, Core/Digests), and says what to transfer, where to, and what to delete.
-- A transfer runs a pool of workers over the planned files (Core/Pool). A worker receives each file
-- once (Proto/Sync) and writes it to all its destinations through a fan-out (Core/Fanout), under
-- temporary names beside the paths that safe_join makes (Core/Entry), and renames the files that are
-- complete (Core/Fetch, Core/Paths). Core/Destinations is what the transfer keeps of each destination,
-- and how it prepares them; Core/Removal deletes what the plan marks. Core/LocalScan reads the trees of
-- the destinations, and Core/Measure and Core/Perf say afterwards what the run has cost.
--
-- Files and sources:
--   Proto/Bytes, Proto/Sync      crates/adb-proto/src/sync.rs
--   Proto/Stream                 crates/adb-proto/src/stream.rs
--   Proto/Shell                  crates/adb-proto/src/shell.rs
--   Proto/Client                 crates/adb-proto/src/client.rs
--   Proto/Error                  crates/adb-proto/src/error.rs
--   Core/Entry                   crates/adbrsync-core/src/entry.rs
--   Core/Filter                  crates/adbrsync-core/src/filter.rs
--   Core/Plan                    crates/adbrsync-core/src/plan.rs
--   Core/Digests, Core/Checksum  crates/adbrsync-core/src/checksum.rs
--   Core/Records, Core/Scan      crates/adbrsync-core/src/scan.rs
--   Core/Error                   crates/adbrsync-core/src/error.rs
--   Core/Fanout, Core/Destinations, Core/Paths, Core/Fetch, Core/Pool, Core/Removal, Core/Measure
--                                crates/adbrsync-core/src/transfer.rs
--   Core/LocalScan               crates/adbrsync-core/src/scan.rs (scan_local)
--   Core/Perf                    crates/adbrsync-core/src/perf.rs
--   Cli/Remote                   crates/adbrsync-cli/src/args.rs, main.rs (classify)
--   Cli/Info                     crates/adbrsync-cli/src/info.rs, main.rs (resolve_info)
--   Cli/Destinations             crates/adbrsync-cli/src/main.rs (resolve_destinations)
--   Cli/Start                    crates/adbrsync-cli/src/main.rs (run, probe_source)
--   Cli/Run                      crates/adbrsync-cli/src/main.rs (run)
-- Functions, types and fields keep their names. Common holds lists, texts, signed numbers, sorting
-- and results over the native numbers.
--
-- How the code is modelled. Numbers are natural, with the wrap-around of u64 and i64 in a release
-- build written out where the code can reach it. A text is its bytes, a path the list of its
-- components, a hash map or set a function of its key. What `from_utf8_lossy` makes of bytes is a
-- parameter. Async code is the sequence of its calls: a connection is the bytes that the peer has
-- sent and how a read past them fails; what polling a file answers is a script, in order. The
-- operations of a fetch on the file system are a list, run on a store of contents; a run of the
-- pool is any sequence of the workers' steps. The patterns of globset, the SHA-256 of a file, the
-- shell of the device and what the file system says of a path are parameters.
--
-- Fuel. The loops of recv, list and run read bytes in each round and get more fuel than there are
-- bytes to read, so they end before it runs out. The loops of the planner, of the batches and of the
-- fan-out are by recursion on lists or on what is left of them.
--
-- Not modelled: the timers of the pool, the rates of a report and the samples' times (transfer.rs), the
-- JSON of the performance report (perf.rs), printing and progress (report.rs, progress.rs), parse_size
-- and the other options (args.rs), and the texts of messages. The f64 operations of what is modelled of
-- measure_cost and perf.rs are a parameter.
pub mod Cli
pub mod Common
pub mod Core
pub mod Proto
