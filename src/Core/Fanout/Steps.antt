-- ===== src/Core/Fanout/Steps.antt =====
-- One round of the loop of `poll_write` keeps what the fan-out promises.
use native.Mathlib.Numerals.{add-one}
use adbrsync.Common.{ℕ, suc, ◌+◌, ◌<◌, ◌≤◌, ◌≡◌, refl, ap, ◌∙◌, arith}
use adbrsync.Common.{min, true, false, List, [], ◌∷◌, ◌++◌, none, some, inl, inr}
use adbrsync.Common.{length, set, take, drop, ◌==◌}
use adbrsync.Common.{length-append, length-set, Bool-cases}
use adbrsync.Common.Text.{Text}
use adbrsync.Core.Fanout.{Fanout, Answer, took, failed, is_open, fail, answer}
use adbrsync.Core.Fanout.{writable, next_file, write_loop}
use adbrsync.Core.Fanout.{zero_write}
use adbrsync.Core.Fanout.Progress.{Progress, entry_at, open_count}
use adbrsync.Core.Fanout.Progress.{Progress-next, Progress-took, Progress-failed}
use adbrsync.Core.Fanout.Progress.{open_count-set-some, open_count-set-none}

-- `f` has come this far with `bytes` from files `xs`; what is not its business is as in `f₀`.
pub record IsUnderWay (bytes : Text) (f₀ f : Fanout) : Type 0 where
  pub stashed : f.stash ≡ bytes
  pub progress : Progress bytes f.at f.off f₀.files f.files
  pub same_length : length f.files ≡ length f₀.files
  pub accounted : length f.failures + open_count f.files ≡ length f₀.failures + open_count f₀.files
  pub same_counter : f.counter ≡ f₀.counter
  pub same_written : f.written ≡ f₀.written

pub not_writable :
    (f : Fanout)
    → writable f ≡ none
    → is_open (entry_at f.files f.at) ≡ true
    → length f.stash ≤ f.off
not_writable f h k = ground arith

pub writable_lem :
    (f : Fanout) (c : Text)
    → writable f ≡ some c
    → (entry_at f.files f.at ≡ some c) × (f.off < length f.stash)
writable_lem f c h = ground arith

module _ (bytes : Text) (f₀ f : Fanout) (w : IsUnderWay bytes f₀ f) where
  pub next_file-IsUnderWay : writable f ≡ none → IsUnderWay bytes f₀ (next_file f)
  next_file-IsUnderWay closed = record {
    stashed = w.stashed;
    progress = rw add-one (
        Progress-next bytes f.at f.off f₀.files f.files
          (λ k. omega (arith, ap length w.stashed, not_writable f closed k)) w.progress);
    same_length = w.same_length;
    accounted = w.accounted;
    same_counter = w.same_counter;
    same_written = w.same_written;
  }

  fail-IsUnderWay :
      (c message : Text)
      → entry_at f.files f.at ≡ some c
      → IsUnderWay bytes f₀ (fail f.at message f)
  unfolding fail
  fail-IsUnderWay c message e = record {
    stashed = w.stashed;
    progress = Progress-failed bytes f.at f.off f₀.files f.files w.progress;
    same_length = length-set f.files f.at none ∙ w.same_length;
    accounted = omega (
      arith,
      w.accounted,
      open_count-set-none f.files f.at c e,
      length-append f.failures ((f.at, message) ∷ []),
    );
    same_counter = w.same_counter;
    same_written = w.same_written;
  }

  took-IsUnderWay :
      (c : Text) (m : ℕ)
      → entry_at f.files f.at ≡ some c
      → IsUnderWay bytes f₀ (record f {
        files = set f.files f.at (some (c ++ take m (drop f.off f.stash)));
        off = f.off + m;
      })
  took-IsUnderWay c m e = record {
    stashed = w.stashed;
    progress = rw (w.stashed) (Progress-took bytes f.at f.off m c f₀.files f.files e w.progress);
    same_length = length-set f.files f.at _ ∙ w.same_length;
    accounted = omega (arith, w.accounted, open_count-set-some f.files f.at c _ e);
    same_counter = w.same_counter;
    same_written = w.same_written;
  }

  pub answer-IsUnderWay :
      (c : Text) (a : Answer) → writable f ≡ some c → IsUnderWay bytes f₀ (answer c a f)
  unfolding answer
  answer-IsUnderWay c (failed message) h = fail-IsUnderWay c message (writable_lem f c h).0
  answer-IsUnderWay c (took n) h = elim (Bool-cases (min n (length (drop f.off f.stash)) == 0)) [
    | inl e ↦ rw e (fail-IsUnderWay c zero_write (writable_lem f c h).0)
    | inr e ↦ rw e (took-IsUnderWay c _ (writable_lem f c h).0)
  ]

-- The three ways that a round of the loop goes.
pub loop_passes :
    (left : ℕ) (answers : List Answer) (f : Fanout)
    → writable f ≡ none
    → write_loop (suc left) answers f ≡ write_loop left answers (next_file f)
unfolding write_loop
loop_passes left [] f e = ground (arith, e)
loop_passes left (a ∷ answers) f e = ground (arith, e)

pub loop_waits :
    (left : ℕ) (f : Fanout) (c : Text)
    → writable f ≡ some c
    → write_loop (suc left) [] f ≡ (false, f)
unfolding write_loop
loop_waits left f c e = ground (arith, e)

pub loop_answers :
    (left : ℕ) (a : Answer) (answers : List Answer) (f : Fanout) (c : Text)
    → writable f ≡ some c
    → write_loop (suc left) (a ∷ answers) f ≡ write_loop (suc left) answers (answer c a f)
unfolding write_loop
loop_answers left a answers f c e = ground (arith, e)

pub answer-at : (c : Text) (a : Answer) (f : Fanout) → (answer c a f).at ≡ f.at
unfolding answer
answer-at c (took n) f = ground arith
answer-at c (failed message) f = refl

pub length-answer :
    (c : Text) (a : Answer) (f : Fanout) → length (answer c a f).files ≡ length f.files
unfolding answer
length-answer c (failed message) f = length-set f.files f.at none
length-answer c (took n) f = ground (
  arith,
  length-set f.files f.at none,
  length-set f.files f.at
      (some (c ++ take (min n (length (drop f.off f.stash))) (drop f.off f.stash))),
)
