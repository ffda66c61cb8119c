-- ===== src/Core/Pool.antt =====
-- `run` of crates/adbrsync-core/src/transfer.rs: workers that pull files from one queue.
-- A run of the pool is a sequence of events, in any order of the workers. An event is one worker's
-- next step with what the outside answers it: a session, a test and pull of the queue, or a fetch,
-- whose effect on the destinations is part of the answer. Times, and what is made of them, are left
-- out.
pub mod Gathering
pub mod Once
pub mod Ends
pub mod Complete
pub mod Report
mod Examples
use adbrsync.Common.{ℕ, zero, suc, ◌+◌, min, max, Bool, true, false, all, if◌then◌else◌, ◌==◌, ltb}
use adbrsync.Common.{List, [], ◌∷◌, ◌++◌, map, Option, none, some, length, get_elem?, set, sum_of}
use adbrsync.Common.Text.{Text, codes}
use adbrsync.Common.Result.{Result, ok, err}
use adbrsync.Core.Error.{CoreError, io_failed}
use adbrsync.Core.Plan.{TransferItem, add64}
use adbrsync.Core.Destinations.{DestStats, breaks_stream}
use adbrsync.Core.Fetch.{FetchOutcome}

-- The message of an error that is reported of one destination or of the whole file.
pub data Complaint : Type 0 where
  not_written : Text → Complaint
  not_fetched : CoreError → Complaint
  stream_lost : CoreError → Complaint
  fewer_streams : ℕ → Complaint

-- `dest` stands in the `rel` of a file that one destination did not get.
pub record FileError : Type 0 where
  pub rel : Text
  pub dest : Option ℕ
  pub message : Complaint

-- Of a sample, the size.
pub record WorkerResult : Type 0 where
  pub files : ℕ
  pub bytes : ℕ
  pub errors : List FileError
  pub samples : List ℕ
  pub stream_error : Option CoreError

abbrev pub no_result : WorkerResult
no_result = record { files = 0; bytes = 0; errors = []; samples = []; stream_error = none }

abbrev pub stream_failed : CoreError → WorkerResult
stream_failed e = record no_result { stream_error = some e }

-- How a worker's loop ends: no session, none again after a broken one, no destination left, no file
-- left.
pub data Ending : Type 0 where
  refused lost given_up drained : Ending

-- What a worker does next: open its first session, test and pull, fetch a file, open a session
-- again, nothing.
pub data Phase : Type 0 where
  opening : Phase
  idle : Phase
  fetching : TransferItem → Phase
  reopening : Phase
  ended : Ending → Phase

-- `handled` is what the worker has fetched or failed to fetch, in order.
pub record Worker : Type 0 where
  pub phase : Phase
  pub result : WorkerResult
  pub handled : List TransferItem

-- What the workers share.
pub record Shared : Type 0 where
  pub queue : List TransferItem
  pub dests : List DestStats
  pub files_done : ℕ

pub data Event : Type 0 where
  session : Result CoreError (Unit {0}) → Event
  pull : Event
  fetch : Result CoreError FetchOutcome → List DestStats → Event

abbrev missed : TransferItem → ℕ × Text → FileError
missed item f = record { rel = item.rel; dest = some f.0; message = not_written f.1 }

-- The session of the worker that gets `r`.
unfoldable pub on_open : Result CoreError (Unit {0}) → Worker → Worker
on_open (ok u) w = record w { phase = idle }
on_open (err e) w = record w { phase = ended refused; result = stream_failed e }

unfoldable pub on_reopen : Result CoreError (Unit {0}) → Worker → Worker
on_reopen (ok u) w = record w { phase = idle }
on_reopen (err e) w = record w {
  phase = ended lost;
  result = record w.result {
    errors =
        w.result.errors
        ++ record { rel = codes "<stream>"; dest = none; message = stream_lost e } ∷ [];
  };
}

-- The head of the loop, with the queue.
unfoldable pub pop_front : List TransferItem → Shared → Worker → Shared × Worker
pop_front [] sh w = (sh, record w { phase = ended drained })
pop_front (item ∷ rest) sh w = (record sh { queue = rest }, record w { phase = fetching item })

unfoldable pub on_pull : Shared → Worker → Shared × Worker
unfolding pop_front
on_pull sh w =
    if all (λ d. d.disabled) sh.dests
    then (sh, record w { phase = ended given_up })
    else pop_front sh.queue sh w

-- The body of the loop, after the fetch of `item`.
unfoldable pub on_fetch : TransferItem → Result CoreError FetchOutcome → Worker → Worker
unfolding breaks_stream
on_fetch item (ok fetched) w = record w {
  phase = idle;
  result = record w.result {
    files = add64 w.result.files 1;
    bytes = add64 w.result.bytes fetched.bytes;
    errors = w.result.errors ++ map (missed item) fetched.failed;
    samples = w.result.samples ++ fetched.bytes ∷ [];
  };
  handled = w.handled ++ item ∷ [];
}
on_fetch item (err e) w = record w {
  phase = if breaks_stream e then reopening else idle;
  result = record w.result {
    errors =
        w.result.errors ++ record { rel = item.rel; dest = none; message = not_fetched e } ∷ [];
  };
  handled = w.handled ++ item ∷ [];
}

-- A worker's next step. An event that its phase does not wait for is no step.
unfoldable pub worker_step : Phase → Event → Shared → Worker → Shared × Worker
unfolding on_open on_reopen on_pull on_fetch
worker_step opening (session r) sh w = (sh, on_open r w)
worker_step reopening (session r) sh w = (sh, on_reopen r w)
worker_step idle pull sh w = on_pull sh w
worker_step (fetching item) (fetch r dests) sh w =
    (record sh { dests = dests; files_done = add64 sh.files_done 1 }, on_fetch item r w)
worker_step phase event sh w = (sh, w)

pub record Pool : Type 0 where
  pub shared : Shared
  pub workers : List Worker

-- One event of the worker at `i`.
unfoldable pub pool_step : ℕ × Event → Pool → Pool
unfolding worker_step
pool_step (i, event) p = elim (get_elem? p.workers i) [
  | none ↦ p
  | some w ↦
      let (sh, v) = worker_step w.phase event p.shared w in
      record { shared = sh; workers = set p.workers i v }
]

unfoldable pub run_pool : List (ℕ × Event) → Pool → Pool
unfolding pool_step
run_pool [] p = p
run_pool (e ∷ es) p = run_pool es (pool_step e p)

unfoldable pub repeat_worker : ℕ → List Worker
repeat_worker zero = []
repeat_worker (suc n) =
    record { phase = opening; result = no_result; handled = [] } ∷ repeat_worker n

-- `clamp(1, transfers.len())`, of a plan with transfers.
abbrev pub stream_count : ℕ → ℕ → ℕ
stream_count streams transfers = min (max streams 1) transfers

unfoldable pub start_pool : ℕ → List TransferItem → List DestStats → Pool
unfolding repeat_worker
start_pool streams transfers dests = record {
  shared = record { queue = transfers; dests = dests; files_done = 0 };
  workers = repeat_worker (stream_count streams (length transfers));
}
