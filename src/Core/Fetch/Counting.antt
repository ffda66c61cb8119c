-- ===== src/Core/Fetch/Counting.antt =====
-- The byte counter across `fetch_one`.
use adbrsync.Common.{ℕ, ◌+◌, ◌%◌, ◌^◌, ◌<◌, ◌≡◌, refl, arith, Bool, true, false, is_nil, map}
use adbrsync.Common.{List, [], some, inl, inr, Bool-cases, if◌then◌else◌}
use adbrsync.Common.Text.{Text}
use adbrsync.Common.Result.{Result, ok, err}
use adbrsync.Proto.Stream.{Stream}
use adbrsync.Proto.Sync.{recv}
use adbrsync.Proto.Sync.Outputs.{take_in, RecvPost}
use adbrsync.Core.Entry.{FilePath}
use adbrsync.Core.Error.{CoreError}
use adbrsync.Core.Plan.{TransferItem}
use adbrsync.Core.Fanout.{fail}
use adbrsync.Core.Fanout.Flushed.{flush_all-keeps}
use adbrsync.Core.Fanout.Output.{write_out}
use adbrsync.Core.Destinations.{DestStats}
use adbrsync.Core.Fetch.{Host, Target, FetchOutcome, open_targets, conclude_fetch, fetch_one}
use adbrsync.Core.Fetch.Receiving.{IsReceiving, IsCounted}
use adbrsync.Core.Fetch.Received.{Received, received}

-- The counter has grown by the bytes of a file that was fetched, and is as it was after a failure.
abbrev pub Counts : ℕ → Result CoreError FetchOutcome → ℕ → Type 0
Counts counter (ok o) after = after ≡ (counter + o.bytes) % 2 ^ 64
Counts counter (err e) after = after ≡ counter

module _ (lossy : Text → Text) (host : Host) (dests : ℕ → FilePath) (item : TransferItem)
    (preserve_mtime : Bool) (stats : ℕ → DestStats) (counter : ℕ) (session : Stream) where
  conclude-Counts :
      (ts : List Target) (failed : List (ℕ × Text)) (noted : ℕ → DestStats) (o : Received)
      → counter < 2 ^ 64
      → RecvPost lossy write_out
          (IsReceiving (map (λ t. some []) ts) counter)
          (IsCounted counter)
          (recv lossy take_in item.remote [] session)
          o
      → (let r = conclude_fetch lossy host dests item preserve_mtime ts failed noted o in
          Counts counter r.result r.counter)
  unfolding conclude_fetch RecvPost fail
  conclude-Counts ts failed noted (err e, w, s) u64 h = omega (arith, h)
  conclude-Counts ts failed noted (ok n, w, s) u64 (t, g, e) =
      flush_all-keeps (λ f. f.counter ≡ (counter + n) % 2 ^ 64) (λ pos m f h. h) host.flushes
        w.fanout (omega (arith, g.counted, g.written))

  none_opened :
      counter < 2 ^ 64
      → (b : Bool) (m : CoreError)
      → Counts counter (if b then ok (record { bytes = 0; failed = [] }) else err m) counter
  none_opened u64 true m = omega (arith, u64)
  none_opened u64 false m = refl

  -- The byte counter grows by the bytes of a file that is fetched, and is as it was after a fetch
  -- that fails.
  pub fetch_one-Counts :
      counter < 2 ^ 64
      → (let r = fetch_one lossy host dests item preserve_mtime stats counter session in
          Counts counter r.result r.counter)
  unfolding fetch_one
  fetch_one-Counts u64 =
      let ts = (open_targets lossy host dests item stats item.targets).0 in
      elim (Bool-cases (is_nil ts)) [
        | inl e ↦ rw (fetch_one, e) (none_opened u64 _ _)
        | inr e ↦
            rw (fetch_one, e)
              (conclude-Counts ts _ _ _ u64
                (received lossy host item.remote counter session ts u64))
      ]
