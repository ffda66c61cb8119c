-- ===== src/Core/Fetch.antt =====
-- `fetch_one` of crates/adbrsync-core/src/transfer.rs: one file is read from the device and written
-- to every destination that needs it.
-- The file system is what it answers (`Host`) and what is done to it (a list of `FsOp`). The bytes
-- that the open files take are one operation for each file, at the end of the reading. Nothing else
-- changes the counters while this file is fetched.
pub mod Receiving
pub mod Store
pub mod Moves
pub mod Received
pub mod Clashes
pub mod Reports
pub mod Placed
pub mod Accounts
pub mod Atomic
mod Examples
pub mod Counting
use adbrsync.Common.{
  ℕ, zero, suc, ◌+◌, ◌-◌, ◌*◌, ◌%◌, ◌^◌, Bool, true, false, if◌then◌else◌, all, ◌==◌,
}
use adbrsync.Common.{List, [], ◌∷◌, ◌++◌, map, Option, none, some, length, get_elem?, is_nil}
use adbrsync.Common.Text.{Text, codes, is_empty, text_eq}
use adbrsync.Common.Int.{ℤ}
use adbrsync.Common.Result.{Result, ok, err}
use adbrsync.Proto.Error.{io, other}
use adbrsync.Proto.Error
use adbrsync.Proto.Stream.{Stream}
use adbrsync.Proto.Sync.{recv}
use adbrsync.Core.Entry.{FilePath, safe_join}
use adbrsync.Core.Plan.{TransferItem, add64}
use adbrsync.Core.Error.{CoreError, adb, io_failed}
use adbrsync.Core.Fanout.{Fanout, Answer, Flush, new, finish, flush_all}
use adbrsync.Core.Fanout.Output.{Sink, write_out}
use adbrsync.Core.Paths.{parent, temp_path_for}
use adbrsync.Core.Destinations.{DestStats, note_failure_of}

-- What the file system answers: an error's text, or none; and how the open files answer the polls
-- of each write, and of the flush.
pub record Host : Type 0 where
  pub create_dir_all : FilePath → Option Text
  pub create : FilePath → Option Text
  pub rename : FilePath → FilePath → Option Text
  pub set_mtime : FilePath → ℤ → Option Text
  pub polls : List (List (List Answer))
  pub flushes : List (List Flush)

-- What has been done to the file system. Directories are left out.
pub data FsOp : Type 0 where
  created : FilePath → FsOp
  wrote : FilePath → Text → FsOp
  renamed : FilePath → FilePath → FsOp
  removed : FilePath → FsOp

-- A destination that is written to: its index, the file's path there, and the temporary name.
pub record Target : Type 0 where
  pub dest : ℕ
  pub final_path : FilePath
  pub temp_path : FilePath

pub record FetchOutcome : Type 0 where
  pub bytes : ℕ
  pub failed : List (ℕ × Text)

-- What `fetch_one` returns and leaves, and what it has done to the file system, in order.
pub record Fetched : Type 0 where
  pub result : Result CoreError FetchOutcome
  pub stats : ℕ → DestStats
  pub counter : ℕ
  pub session : Stream
  pub ops : List FsOp

abbrev note_failures : List (ℕ × Text) → (ℕ → DestStats) → (ℕ → DestStats)
note_failures [] stats = stats
note_failures (f ∷ fs) stats = note_failures fs (note_failure_of f.0 stats []).0

-- The destinations as the files are settled, with what is reported of them.
pub record Settled : Type 0 where
  pub stats : ℕ → DestStats
  pub failed : List (ℕ × Text)
  pub written_off : List ℕ

-- The loop over what the fan-out reports of its files, by their positions.
unfoldable pub settle_writes : List Target → List (ℕ × Text) → Settled → Settled
settle_writes targets [] st = st
settle_writes targets (f ∷ fs) st = elim (get_elem? targets f.0) [
  | none ↦ settle_writes targets fs st
  | some t ↦
      let (stats, written_off) = note_failure_of t.dest st.stats st.written_off in
      settle_writes targets fs (record {
        stats = stats;
        failed = st.failed ++ (t.dest, f.1) ∷ [];
        written_off = written_off;
      })
]

unfoldable pub received_file : ℕ → ℕ → (ℕ → DestStats) → (ℕ → DestStats)
received_file dest bytes stats i =
    if i == dest
    then record (stats i) { files = add64 (stats i).files 1; bytes = add64 (stats i).bytes bytes }
    else stats i

abbrev pub give_up : ℕ → ℕ × Text
give_up i = (i, codes "giving up on this destination after 10 failures")

-- The bytes that the open files have taken are in the temporary files.
unfoldable pub writes : List Target → List (Option Text) → List FsOp
writes [] files = []
writes (t ∷ ts) [] = []
writes (t ∷ ts) (none ∷ files) = writes ts files
writes (t ∷ ts) (some c ∷ files) = wrote t.temp_path c ∷ writes ts files

abbrev pub creations : List Target → List FsOp
creations = map (λ t. created t.temp_path)

abbrev pub removals : List Target → List FsOp
removals = map (λ t. removed t.temp_path)

abbrev pub start : List Target → ℕ → Fanout
start targets counter = new (map (λ t. some []) targets) counter

module _ (lossy : Text → Text) (host : Host) where
  module _ (dests : ℕ → FilePath) (item : TransferItem) where
    -- One destination: what is opened, or why nothing is.
    unfoldable pub open_target : ℕ → Result Text Target
    unfolding parent temp_path_for
    open_target i = elim (safe_join (dests i) item.rel) [
      | none ↦ err (codes "refusing unsafe destination path")
      | some final_path ↦ elim (parent final_path) [
        | none ↦ err (codes "destination path has no parent")
        | some dir ↦ elim (host.create_dir_all dir) [
          | some m ↦ err m
          | none ↦ elim (host.create (temp_path_for lossy final_path)) [
            | some m ↦ err m
            | none ↦ ok (record {
              dest = i;
              final_path = final_path;
              temp_path = temp_path_for lossy final_path;
            })
          ]
        ]
      ]
    ]

    -- The loop over `item.targets`: the targets that are opened, and the failures.
    unfoldable pub open_targets : (ℕ → DestStats) → List ℕ → List Target × List (ℕ × Text)
    unfolding open_target
    open_targets stats [] = ([], [])
    open_targets stats (i ∷ is) =
        let (targets, failed) = open_targets stats is in
        if (stats i).disabled then (targets, failed) else elim (open_target i) [
          | ok t ↦ (t ∷ targets, failed)
          | err m ↦ (targets, (i, m) ∷ failed)
        ]

    module _ (preserve_mtime : Bool) where
      abbrev mtime_failures : Target → List (ℕ × Text)
      mtime_failures t =
          if preserve_mtime
          then (elim (host.set_mtime t.final_path item.mtime) [
            | none ↦ []
            | some m ↦ (t.dest, m) ∷ []
          ])
          else []

      -- One round of the loop that moves the files into place.
      unfoldable pub settle_one : ℕ → Target → Bool → Settled → List FsOp × Settled
      unfolding received_file
      settle_one bytes t false st = (removed t.temp_path ∷ [], st)
      settle_one bytes t true st = elim (host.rename t.temp_path t.final_path) [
        | some m ↦
            let (stats, written_off) = note_failure_of t.dest st.stats st.written_off in
            (
              removed t.temp_path ∷ [],
              record {
                stats = stats;
                failed = st.failed ++ (t.dest, m) ∷ [];
                written_off = written_off;
              },
            )
        | none ↦ (
          renamed t.temp_path t.final_path ∷ [],
          record st {
            stats = received_file t.dest bytes st.stats;
            failed = st.failed ++ mtime_failures t;
          },
        )
      ]

      unfoldable pub settle : ℕ → List Target → List Bool → Settled → List FsOp × Settled
      unfolding settle_one
      settle bytes [] opened st = ([], st)
      settle bytes (t ∷ ts) [] st = ([], st)
      settle bytes (t ∷ ts) (o ∷ opened) st =
          let (ops, st1) = settle_one bytes t o st in
          let (more, st2) = settle bytes ts opened st1 in (ops ++ more, st2)

      -- After `recv`.
      unfoldable pub conclude_fetch :
          List Target
          → List (ℕ × Text)
          → (ℕ → DestStats)
          → Result Error.Error ℕ × Sink × Stream
          → Fetched
      unfolding settle settle_writes writes
      conclude_fetch targets failed stats (err e, w, s) = record {
        result = err (adb e);
        stats = stats;
        counter = (w.fanout.counter + (2 ^ 64 - w.fanout.written)) % 2 ^ 64;
        session = s;
        ops = creations targets ++ (writes targets w.fanout.files ++ removals targets);
      }
      conclude_fetch targets failed stats (ok bytes, w, s) =
          let f = flush_all host.flushes w.fanout in
          let (opened, write_failures) = finish f in
          let st =
            settle_writes targets write_failures
              (record { stats = stats; failed = failed; written_off = [] }) in
          let (moves, st') = settle bytes targets opened st in
          record {
            result =
                ok (record { bytes = bytes; failed = st'.failed ++ map give_up st'.written_off });
            stats = st'.stats;
            counter = f.counter;
            session = s;
            ops = creations targets ++ (writes targets f.files ++ moves);
          }

      unfoldable pub fetch_one : (ℕ → DestStats) → ℕ → Stream → Fetched
      unfolding open_targets conclude_fetch
      fetch_one stats counter session =
          let (targets, failed) = open_targets stats item.targets in
          let noted = note_failures failed stats in
          if is_nil targets
          then record {
            result =
                if all (λ i. (noted i).disabled) item.targets
                then ok (record { bytes = 0; failed = [] })
                else err (io_failed (codes "no destination could be opened for writing"));
            stats = noted;
            counter = counter;
            session = session;
            ops = [];
          }
          else conclude_fetch targets failed noted (
              recv lossy write_out item.remote
                (record { fanout = start targets counter; polls = host.polls }) session)
