-- ===== src/Core/Fetch/Atomic.antt =====
-- No reader ever sees part of a file that `fetch_one` puts in its place.
use adbrsync.Common.{ℕ, ◌^◌, ◌<◌, ◌≡◌, ◌≢◌, refl, ◌∙◌, ap, Bool, is_nil, map}
use adbrsync.Common.{List, [], ◌++◌, Option, none, some, inl, inr, ◌⊎◌, All, Bool-cases}
use adbrsync.Common.{All-append}
use adbrsync.Common.Text.{Text}
use adbrsync.Common.Result.{Result, ok, err}
use adbrsync.Proto.Error
use adbrsync.Proto.Stream.{Stream}
use adbrsync.Proto.Sync.{recv}
use adbrsync.Proto.Sync.Outputs.{take_in, RecvPost}
use adbrsync.Core.Entry.{FilePath}
use adbrsync.Core.Plan.{TransferItem}
use adbrsync.Core.Fanout.{flush_all, finish}
use adbrsync.Core.Fanout.Output.{write_out}
use adbrsync.Core.Destinations.{DestStats}
use adbrsync.Core.Fetch.{Host, FsOp, Target, open_targets, conclude_fetch, fetch_one}
use adbrsync.Core.Fetch.{creations, removals, writes}
use adbrsync.Core.Paths.{file_name}
use adbrsync.Core.Fetch.Clashes.{
  temp_suffix, RootsApart, NamesEntry, open_targets-TempsSpare, open_targets-AllApart,
}
use adbrsync.Core.Fetch.Receiving.{IsReceiving, IsCounted}
use adbrsync.Core.Fetch.Received.{Received, received, flush-AllTaken}
use adbrsync.Core.Fetch.Store.{Fs, run, Always, Spares, Always-append, Always-weaken, Always-spared}
use adbrsync.Core.Fetch.Store.{run-spared}
use adbrsync.Core.Fetch.Moves.{TempsSpare, AllApart, Ready, Whole, settle-Always, writes-Ready}
use adbrsync.Core.Fetch.Moves.{creations-Spares, removals-Spares, writes-Spares}

-- The file as the device sends it, if it sends all of it.
abbrev pub whole : Result Error.Error ℕ × Text × Stream → Option Text
whole (ok n, t, s) = some t
whole (err e, t, s) = none

unfoldable pub sent : (Text → Text) → Text → Stream → Option Text
unfolding recv
sent lossy remote session = whole (recv lossy take_in remote [] session)

module _ (lossy : Text → Text) (host : Host) (dests : ℕ → FilePath) (item : TransferItem)
    (preserve_mtime : Bool) (stats : ℕ → DestStats) (counter : ℕ) (session : Stream) where
  abbrev targets : List Target
  targets = (open_targets lossy host dests item stats item.targets).0

  module _ (p : FilePath) (fs : Fs) where
    Seen : Fs → Type 0
    Seen g =
        (g p ≡ fs p) ⊎ ((t : Text) × (sent lossy item.remote session ≡ some t) × (g p ≡ some t))

    seen :
        (t : Text)
        → sent lossy item.remote session ≡ some t
        → (g : Fs) → Whole p (fs p) t g
        → Seen g
    unfolding Seen
    seen t e g (inl h) = inl h
    seen t e g (inr h) = inr (t, e, h)

    spared-Whole :
        (t : Text) (os : List FsOp) (g : Fs)
        → g p ≡ fs p
        → All (Spares p) os
        → Always (Whole p (fs p) t) os g
    spared-Whole t os g e h =
        Always-weaken (λ x. x p ≡ fs p) (Whole p (fs p) t) os g (λ x k. inl k)
          (Always-spared p (fs p) os g e h)

    conclude-Seen :
        (ts : List Target) (failed : List (ℕ × Text)) (noted : ℕ → DestStats) (o : Received)
        → TempsSpare p ts
        → AllApart ts
        → RecvPost lossy write_out
            (IsReceiving (map (λ t. some []) ts) counter)
            (IsCounted counter)
            (recv lossy take_in item.remote [] session)
            o
        → Always Seen (conclude_fetch lossy host dests item preserve_mtime ts failed noted o).ops fs
    unfolding conclude_fetch RecvPost sent Seen finish
    conclude-Seen ts failed noted (err e, w, s) spare apart h =
        Always-weaken (λ g. g p ≡ fs p) Seen _ fs (λ g x. inl x)
          (Always-spared p (fs p) _ fs refl (
            All-append (Spares p) (creations ts) _ (creations-Spares p ts spare) (
              All-append (Spares p) (writes ts w.fanout.files) (removals ts)
                (writes-Spares p ts w.fanout.files spare) (removals-Spares p ts spare))))
    conclude-Seen ts failed noted (ok n, w, s) spare apart (t, g, e) =
        let f = flush_all host.flushes w.fanout in
        let taken = flush-AllTaken host t ts w.fanout g.taken in
        let before = run (writes ts f.files) (run (creations ts) fs) in
        let ready : Ready t ts (finish f).0 before =
          writes-Ready t ts f.files (run (creations ts) fs) taken apart in
        Always-weaken (Whole p (fs p) t) Seen _ fs (seen t (ap whole e)) (
          Always-append (Whole p (fs p) t) (creations ts) _ fs
            (spared-Whole t (creations ts) fs refl (creations-Spares p ts spare))
            (Always-append (Whole p (fs p) t) (writes ts f.files) _ (run (creations ts) fs)
              (spared-Whole t (writes ts f.files) (run (creations ts) fs) same_created
                (writes-Spares p ts f.files spare))
              (settle-Always lossy host dests item preserve_mtime n t p (fs p) ts (finish f).0 _
                before spare apart ready
                (inl (
                  run-spared p (writes ts f.files) _ (writes-Spares p ts f.files spare)
                  ∙ same_created)))))
      where
        same_created : run (creations ts) fs p ≡ fs p
        same_created = run-spared p (creations ts) fs (creations-Spares p ts spare)

  -- While a file is fetched, and wherever that stops, every path whose name does not end in
  -- .adbrsync-tmp holds what it held before or the whole file as the device sends it, if none of
  -- the destinations lies in another.
  pub fetch_one-atomic :
      (p : FilePath) (fs : Fs)
      → counter < 2 ^ 64
      → NamesEntry item.rel
      → RootsApart dests item.targets
      → ((n : Text) → file_name p ≢ some (n ++ temp_suffix))
      → Always
          (λ g.
            (g p ≡ fs p)
            ⊎ ((t : Text) × (sent lossy item.remote session ≡ some t) × (g p ≡ some t)))
          (fetch_one lossy host dests item preserve_mtime stats counter session).ops
          fs
  unfolding fetch_one Seen Always
  fetch_one-atomic p fs u64 named apart plain =
      let spare = open_targets-TempsSpare lossy host dests item stats item.targets p plain in
      let clear = open_targets-AllApart lossy host dests item stats item.targets named apart in
      elim (Bool-cases (is_nil targets)) [
        | inl e ↦ rw (fetch_one, e) (inl refl)
        | inr e ↦
            rw (fetch_one, e)
              (conclude-Seen p fs targets _ _ _ spare clear
                (received lossy host item.remote counter session targets u64))
      ]
