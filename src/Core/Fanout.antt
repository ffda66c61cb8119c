-- ===== src/Core/Fanout.antt =====
-- `Fanout` of crates/adbrsync-core/src/transfer.rs: one written chunk goes to every open file.
-- An open file is the bytes that it has taken. What polling a file answers is the environment's:
-- a poll of the fan-out is given the answers of its file polls, in order, and the file that is
-- polled after the last answer is not ready. A file that takes a write takes at most the bytes that
-- it is offered, as `AsyncWrite` documents. The counter is shared with other streams, which only
-- add to it and subtract from it; here it is what this fan-out makes of it.
pub mod Progress
pub mod Steps
pub mod Termination
pub mod Delivery
pub mod Flushed
pub mod Named
pub mod Output
mod Examples
use adbrsync.Common.{ℕ, zero, suc, ◌+◌, ◌-◌, ◌%◌, ◌^◌, min, Bool, true, false, ◌&&◌, not, ltb, leb}
use adbrsync.Common.{List, [], ◌∷◌, ◌++◌, map, Option, none, some, if◌then◌else◌, ◌==◌, length}
use adbrsync.Common.{get_elem?, set, take, drop, all}
use adbrsync.Common.Text.{Text, codes, is_empty}
use adbrsync.Common.Result.{Result, ok, err}
use adbrsync.Core.Plan.{add64}

pub data Poll {ℓ} (A : Type ℓ) : Type ℓ where
  ready : A → Poll A
  pending : Poll A

-- The answer of a file that is ready.
pub data Answer : Type 0 where
  took : ℕ → Answer
  failed : Text → Answer

pub record Fanout : Type 0 where
  pub files : List (Option Text)
  pub failures : List (ℕ × Text)
  pub stash : Text
  pub at : ℕ
  pub off : ℕ
  pub counter : ℕ
  pub written : ℕ

unfoldable pub new : List (Option Text) → ℕ → Fanout
new files counter = record {
  files = files;
  failures = [];
  stash = [];
  at = 0;
  off = 0;
  counter = counter;
  written = 0;
}

abbrev pub is_open : Option Text → Bool
is_open none = false
is_open (some c) = true

unfoldable pub all_closed : Fanout → Bool
all_closed f = all (λ x. not (is_open x)) f.files

unfoldable pub fail : ℕ → Text → Fanout → Fanout
fail pos message f = record f {
  files = set f.files pos none;
  failures = f.failures ++ (pos, message) ∷ [];
}

unfoldable pub finish : Fanout → List Bool × List (ℕ × Text)
finish f = (map is_open f.files, f.failures)

abbrev pub gone : Text
gone = codes "every destination failed"

abbrev pub zero_write : Text
zero_write = codes "write returned zero bytes"

-- The bytes that the file at `pos` has taken, if it is open.
abbrev pub file_at : Fanout → ℕ → Option Text
file_at f pos = elim (get_elem? f.files pos) [ none ↦ none | some x ↦ x ]

-- One answer of the file at `f.at`, which has taken `c` and is offered the chunk from `f.off`.
unfoldable pub answer : Text → Answer → Fanout → Fanout
unfolding fail
answer c (took n) f =
    let m = min n (length (drop f.off f.stash)) in
    if m == 0 then fail f.at zero_write f else record f {
      files = set f.files f.at (some (c ++ take m (drop f.off f.stash)));
      off = f.off + m;
    }
answer c (failed message) f = fail f.at message f

abbrev pub next_file : Fanout → Fanout
next_file f = record f { at = f.at + 1; off = 0 }

-- The file to offer bytes to, if the loop does not pass it over.
abbrev pub writable : Fanout → Option Text
writable f = if ltb f.off (length f.stash) then file_at f f.at else none

-- The `while` loop: `left` files have not been passed. `false` is a return of `Pending`.
unfoldable pub write_loop : ℕ → List Answer → Fanout → Bool × Fanout
write_loop zero answers f = (true, f)
write_loop (suc left) [] f = elim (writable f) [
  | none ↦ write_loop left [] (next_file f)
  | some c ↦ (false, f)
]
write_loop (suc left) (a ∷ answers) f = elim (writable f) [
  | none ↦ write_loop left (a ∷ answers) (next_file f)
  | some c ↦ write_loop (suc left) answers (answer c a f)
]

-- A poll with an empty stash takes the data; one with a full stash resumes.
abbrev pub stash_data : Text → Fanout → Fanout
stash_data bytes f = if is_empty f.stash then record f { stash = bytes; at = 0; off = 0 } else f

-- After the loop.
unfoldable pub conclude : Bool → Fanout → Poll (Result Text ℕ) × Fanout
unfolding all_closed
conclude false f = (pending, f)
conclude true f = if all_closed f then (ready (err gone), f) else (
  ready (ok (length f.stash)),
  record f {
    stash = [];
    counter = add64 f.counter (length f.stash);
    written = add64 f.written (length f.stash);
  },
)

unfoldable pub poll_write : Text → List Answer → Fanout → Poll (Result Text ℕ) × Fanout
unfolding write_loop conclude answer
poll_write bytes answers f =
    let g = stash_data bytes f in
    let (done, h) = write_loop (length g.files - g.at) answers g in conclude done h

-- A caller polls with the same data until it is ready; each poll has its own answers.
unfoldable pub drive : Text → List (List Answer) → Fanout → Poll (Result Text ℕ) × Fanout
drive bytes [] f = (pending, f)
drive bytes (answers ∷ polls) f =
    let (p, g) = poll_write bytes answers f in
    elim p [ ready r ↦ (ready r, g) | pending ↦ drive bytes polls g ]

-- The answer of a file that has been flushed, or could not be.
pub data Flush : Type 0 where
  flushed : Flush
  not_flushed : Text → Flush

-- One answer of the file at `pos`.
unfoldable pub flush_answer : ℕ → Flush → Fanout → Fanout
unfolding fail
flush_answer pos flushed f = f
flush_answer pos (not_flushed message) f = fail pos message f

-- The `for` loop from `pos` on, with `left` files to come. `false` is a return of `Pending`.
unfoldable pub flush_loop : ℕ → ℕ → List Flush → Fanout → Bool × Fanout
unfolding flush_answer
flush_loop zero pos answers f = (true, f)
flush_loop (suc left) pos [] f = elim (file_at f pos) [
  | none ↦ flush_loop left (pos + 1) [] f
  | some c ↦ (false, f)
]
flush_loop (suc left) pos (a ∷ answers) f = elim (file_at f pos) [
  | none ↦ flush_loop left (pos + 1) (a ∷ answers) f
  | some c ↦ flush_loop left (pos + 1) answers (flush_answer pos a f)
]

unfoldable pub conclude_flush : Bool → Fanout → Poll (Result Text (Unit {0})) × Fanout
unfolding all_closed
conclude_flush false f = (pending, f)
conclude_flush true f = if all_closed f then (ready (err gone), f) else (ready (ok tt), f)

unfoldable pub poll_flush : List Flush → Fanout → Poll (Result Text (Unit {0})) × Fanout
unfolding flush_loop conclude_flush
poll_flush answers f =
    let (done, g) = flush_loop (length f.files) 0 answers f in conclude_flush done g

-- `sink.flush().await`, of which only the fan-out is used. Past the given polls every file is
-- flushed, which changes nothing.
unfoldable pub flush_all : List (List Flush) → Fanout → Fanout
unfolding poll_flush
flush_all [] f = f
flush_all (answers ∷ polls) f =
    let (p, g) = poll_flush answers f in elim p [ ready r ↦ g | pending ↦ flush_all polls g ]
