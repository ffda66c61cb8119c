-- ===== src/Core/Pool/Examples.antt =====
-- Three files over two workers: one gets no session, one file cannot be read.
use mathlib.Core.List.{Perm}
use adbrsync.Common.{ℕ, ◌+◌, ◌*◌, ◌≤◌, ◌≡◌, refl, true, none, List, [], ◌∷◌, ◌++◌, all, any, length}
use adbrsync.Common.Text.{codes}
use adbrsync.Common.Int.{pos}
use adbrsync.Common.Result.{ok, err}
use adbrsync.Proto.Error.{sync, protocol}
use adbrsync.Core.Entry.{FilePath}
use adbrsync.Core.Error.{adb}
use adbrsync.Core.Plan.{TransferItem}
use adbrsync.Core.Destinations.{DestStats, fresh}
use adbrsync.Core.Pool.{
  not_fetched, fewer_streams, Event, session, pull, fetch, run_pool, start_pool, stream_count,
}
use adbrsync.Core.Pool.Gathering.{TransferReport, run, gather, count_stream}
use adbrsync.Core.Pool.Once.{all_taken, run_pool-once}
use adbrsync.Core.Pool.Ends.{count_moves, run_pool-ends}
use adbrsync.Core.Pool.Complete.{is_ended, is_drained, all_handled, run_pool-complete}

abbrev file_of : ℕ → TransferItem
file_of n = record {
  rel = codes "f";
  remote = codes "/sdcard/f";
  size = n;
  mtime = pos 5;
  targets = 0 ∷ [];
}

abbrev files : List TransferItem
files = file_of 3 ∷ file_of 2 ∷ file_of 1 ∷ []

abbrev dests : List DestStats
dests = fresh ∷ []

abbrev fetched : ℕ → Event
fetched n = fetch (ok (record { bytes = n; failed = [] })) dests

abbrev events : List (ℕ × Event)
events =
    (0, session (ok tt))
    ∷ (0, pull)
    ∷ (1, session (err (adb protocol)))
    ∷ (0, fetched 3)
    ∷ (0, pull)
    ∷ (0, fetch (err (adb (sync (codes "/sdcard/f") (codes "denied")))) dests)
    ∷ (0, pull)
    ∷ (0, fetched 1)
    ∷ (0, pull)
    ∷ []

abbrev roots : List FilePath
roots = (codes "a" ∷ []) ∷ []

abbrev report : TransferReport
report = record {
  files = 2;
  bytes = 4;
  errors =
      record {
        rel = codes "f";
        dest = none;
        message = not_fetched (adb (sync (codes "/sdcard/f") (codes "denied")));
      }
      ∷ record { rel = codes "<streams>"; dest = none; message = fewer_streams 1 }
      ∷ [];
  streams = 1;
  samples = 3 ∷ 1 ∷ [];
  dests = record { root = codes "a" ∷ []; files = 0; bytes = 0; failures = 0 } ∷ [];
}

run_test : run 2 files roots dests events ≡ ok report
unfolding run gather count_stream
run_test = refl

run_pool-once_example :
    (let p = run_pool events (start_pool 2 files dests) in
      Perm (all_taken p.workers ++ p.shared.queue) files)
run_pool-once_example = run_pool-once 2 files dests events

run_pool-ends_example :
    count_moves events (start_pool 2 files dests)
    ≤ 4 * length files + 2 * stream_count 2 (length files)
run_pool-ends_example = run_pool-ends 2 files dests events

all_done : all is_ended (run_pool events (start_pool 2 files dests)).workers ≡ true
unfolding run_pool start_pool
all_done = refl

one_drained : any is_drained (run_pool events (start_pool 2 files dests)).workers ≡ true
unfolding run_pool start_pool
one_drained = refl

run_pool-complete_example :
    Perm (all_handled (run_pool events (start_pool 2 files dests)).workers) files
run_pool-complete_example = run_pool-complete 2 files dests events all_done one_drained
