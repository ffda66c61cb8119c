-- ===== src/Core/Pool/Gathering.antt =====
-- What `run` of crates/adbrsync-core/src/transfer.rs makes of its workers' results, and `run` itself
-- on a sequence of events. The measurements of the report are left out.
use adbrsync.Common.{ℕ, ◌+◌, ◌-◌, ◌==◌, ltb, if◌then◌else◌, is_nil, List, [], ◌∷◌, ◌++◌, map}
use adbrsync.Common.{Option, none, some, length}
use adbrsync.Common.Text.{codes}
use adbrsync.Common.Result.{Result, ok, err}
use adbrsync.Core.Entry.{FilePath}
use adbrsync.Core.Error.{CoreError, io_failed}
use adbrsync.Core.Plan.{TransferItem, add64}
use adbrsync.Core.Destinations.{DestStats}
use adbrsync.Core.Pool.{FileError, fewer_streams, WorkerResult, Event, run_pool, start_pool}
use adbrsync.Core.Pool.{stream_count}

pub record DestOutcome : Type 0 where
  pub root : FilePath
  pub files : ℕ
  pub bytes : ℕ
  pub failures : ℕ

pub record TransferReport : Type 0 where
  pub files : ℕ
  pub bytes : ℕ
  pub errors : List FileError
  pub streams : ℕ
  pub samples : List ℕ
  pub dests : List DestOutcome

unfoldable pub empty_report : TransferReport
empty_report = record { files = 0; bytes = 0; errors = []; streams = 0; samples = []; dests = [] }

pub record Gathered : Type 0 where
  pub files : ℕ
  pub bytes : ℕ
  pub errors : List FileError
  pub samples : List ℕ
  pub started : ℕ
  pub first_error : Option CoreError

-- `Option::or`
abbrev or_first : Option CoreError → CoreError → Option CoreError
or_first none e = some e
or_first (some d) e = some d

-- One round of the loop: a worker with a stream error has not started.
unfoldable pub count_stream : Option CoreError → Gathered → Gathered
count_stream none g = record g { started = g.started + 1 }
count_stream (some e) g = record g { first_error = or_first g.first_error e }

abbrev pub add_result : WorkerResult → Gathered → Gathered
add_result r g = record g {
  files = add64 g.files r.files;
  bytes = add64 g.bytes r.bytes;
  errors = g.errors ++ r.errors;
  samples = g.samples ++ r.samples;
}

-- The loop over the workers.
unfoldable pub gather : List WorkerResult → Gathered → Gathered
unfolding count_stream
gather [] g = g
gather (r ∷ rs) g = gather rs (add_result r (count_stream r.stream_error g))

abbrev pub nothing : Gathered
nothing = record {
  files = 0;
  bytes = 0;
  errors = [];
  samples = [];
  started = 0;
  first_error = none;
}

abbrev pub first_or_default : Option CoreError → CoreError
first_or_default none = io_failed (codes "no sync stream could be opened")
first_or_default (some e) = e

abbrev pub outcome_of : FilePath × DestStats → DestOutcome
outcome_of (root, d) = record {
  root = root;
  files = d.files;
  bytes = d.bytes;
  failures = d.failures;
}

-- `dests` has each root with what is kept of it.
unfoldable pub report_of :
    ℕ → List WorkerResult → List (FilePath × DestStats) → Result CoreError TransferReport
unfolding gather
report_of streams results dests =
    let g = gather results nothing in
    if g.started == 0
    then err (first_or_default g.first_error)
    else ok (record {
      files = g.files;
      bytes = g.bytes;
      errors =
          g.errors
          ++ (if ltb g.started streams
              then record {
                rel = codes "<streams>";
                dest = none;
                message = fewer_streams (streams - g.started);
              }
                ∷ []
              else []);
      streams = g.started;
      samples = g.samples;
      dests = map outcome_of dests;
    })

abbrev pub zip_dests : List FilePath → List DestStats → List (FilePath × DestStats)
zip_dests [] ds = []
zip_dests (r ∷ rs) [] = []
zip_dests (r ∷ rs) (d ∷ ds) = (r, d) ∷ zip_dests rs ds

-- `run`, where the workers take these steps; they all have ended when it reports.
unfoldable pub run :
    ℕ
    → List TransferItem
    → List FilePath
    → List DestStats
    → List (ℕ × Event)
    → Result CoreError TransferReport
unfolding report_of run_pool start_pool
run streams transfers roots dests events =
    if is_nil transfers
    then ok empty_report
    else let p = run_pool events (start_pool streams transfers dests) in
      report_of (stream_count streams (length transfers)) (map (λ w. w.result) p.workers)
        (zip_dests roots p.shared.dests)
