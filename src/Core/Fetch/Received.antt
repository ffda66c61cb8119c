-- ===== src/Core/Fetch/Received.antt =====
-- What is known of the output once `recv` has read a file into it.
use adbrsync.Common.{ℕ, zero, suc, ◌^◌, ◌<◌, ◌≢◌, refl, arith, map, List, [], ◌∷◌}
use adbrsync.Common.{Option, none, some, get_elem?}
use adbrsync.Common.Text.{Text}
use adbrsync.Common.Result.{Result}
use adbrsync.Proto.Error
use adbrsync.Proto.Stream.{Stream}
use adbrsync.Proto.Sync.{recv}
use adbrsync.Proto.Sync.Outputs.{take_in, RecvPost, recv_post}
use adbrsync.Core.Fanout.{Fanout, new, fail, flush_all}
use adbrsync.Core.Fanout.Progress.{AllTaken}
use adbrsync.Core.Fanout.Flushed.{flush_all-keeps, AllTaken-set}
use adbrsync.Core.Fanout.Named.{IsNamed, fail-IsNamed}
use adbrsync.Core.Fanout.Output.{Sink, write_out}
use adbrsync.Core.Fetch.{Host, Target, start}
use adbrsync.Core.Fetch.Receiving.{IsReceiving, IsCounted, write_out-StepPost, AllTaken-nothing}

abbrev pub Received : Type 0
Received = Result Error.Error ℕ × Sink × Stream

module _ (lossy : Text → Text) (host : Host) (remote : Text) (counter : ℕ) (session : Stream) where
  start-IsNamed : (ts : List Target) (n : ℕ) → IsNamed (start ts n)
  unfolding new
  start-IsNamed ts n i h = absurd (none_closed ts i h)
    where
      none_closed :
          (ts : List Target) (i : ℕ)
          → get_elem? {A = Option Text} (map (λ t. some []) ts) i ≢ some none
      none_closed [] i k = ground arith
      none_closed (t ∷ ts) zero k = ground arith
      none_closed (t ∷ ts) (suc i) k = none_closed ts i k

  -- What is known of the output after `recv`.
  pub received :
      (ts : List Target)
      → counter < 2 ^ 64
      → RecvPost lossy write_out
          (IsReceiving (map (λ t. some []) ts) counter)
          (IsCounted counter)
          (recv lossy take_in remote [] session)
          (recv lossy write_out remote
            (record { fanout = start ts counter; polls = host.polls })
            session)
  unfolding new
  received ts u64 =
      recv_post lossy write_out (IsReceiving (map (λ t. some []) ts) counter) (IsCounted counter)
        (λ c n t w g. write_out-StepPost lossy (map (λ x. some []) ts) counter n t w g c)
        (λ n t w g. g.counted) remote _ session
        (record {
          taken = AllTaken-nothing (map (λ t. some []) ts);
          counted = omega (arith, u64);
          written = refl;
          idle = refl;
          named = start-IsNamed ts counter;
        })

-- A flush only closes files.
pub flush-AllTaken :
    (host : Host) (t : Text) (ts : List Target) (f : Fanout)
    → AllTaken t (map (λ x. some []) ts) f.files
    → AllTaken t (map (λ x. some []) ts) (flush_all host.flushes f).files
unfolding fail
flush-AllTaken host t ts f h =
    flush_all-keeps (λ g. AllTaken t (map (λ x. some []) ts) g.files)
      (λ pos m g k. AllTaken-set t pos (map (λ x. some []) ts) g.files k) host.flushes f h

pub flush-IsNamed : (host : Host) (f : Fanout) → IsNamed f → IsNamed (flush_all host.flushes f)
flush-IsNamed host f h = flush_all-keeps IsNamed fail-IsNamed host.flushes f h
