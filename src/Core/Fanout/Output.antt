-- ===== src/Core/Fanout/Output.antt =====
-- `write_all` of tokio on the fan-out, as `recv` calls it.
use adbrsync.Common.{ℕ, zero, suc, ◌*◌, if◌then◌else◌, ◌==◌, List, [], ◌∷◌, ◌++◌, length}
use adbrsync.Common.Text.{Text, is_empty}
use adbrsync.Common.Result.{Result, ok, err}
use adbrsync.Proto.Error.{io, other}
use adbrsync.Proto.Error
use adbrsync.Core.Fanout.{Fanout, Poll, ready, pending, Answer, took, drive}

-- The fan-out as an output, with the answers of its files: a list of polls for each write.
pub record Sink : Type 0 where
  pub fanout : Fanout
  pub polls : List (List (List Answer))

-- Answers that take all that is offered.
unfoldable pub plenty : ℕ → ℕ → List Answer
plenty n zero = []
plenty n (suc k) = took n ∷ plenty n k

-- `write_all` on the fan-out: nothing is written of no bytes, and else one write takes all of them.
-- Past the given polls every file takes what it is offered, so the write is always ready.
abbrev pub outcome : Poll (Result Text ℕ) → Result Error.Error (Unit {0})
outcome (ready (ok n)) = if n == 0 then err (io other) else ok tt
outcome (ready (err m)) = err (io other)
outcome pending = err (io other)

abbrev pub next_polls : List (List (List Answer)) → List (List Answer)
next_polls [] = []
next_polls (polls ∷ more) = polls

abbrev pub later_polls : List (List (List Answer)) → List (List (List Answer))
later_polls [] = []
later_polls (polls ∷ more) = more

abbrev pub all_polls : Text → Sink → List (List Answer)
all_polls bytes w =
    next_polls w.polls ++ plenty (length bytes) (length w.fanout.files * length bytes) ∷ []

unfoldable pub write_out : Text → Sink → Result Error.Error (Unit {0}) × Sink
unfolding plenty
write_out bytes w = if is_empty bytes then (ok tt, w) else (
  outcome (drive bytes (all_polls bytes w) w.fanout).0,
  record { fanout = (drive bytes (all_polls bytes w) w.fanout).1; polls = later_polls w.polls },
)
