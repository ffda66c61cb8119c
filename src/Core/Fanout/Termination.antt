-- ===== src/Core/Fanout/Termination.antt =====
-- The loop of `poll_write` ends: enough answers of its files make a poll ready.
use adbrsync.Common.{ℕ, zero, suc, ◌+◌, ◌-◌, ◌*◌, ◌<◌, ◌≤◌, ◌≡◌, ◌≢◌, refl, ap, arith, true, false}
use adbrsync.Common.{List, [], ◌∷◌, Option, none, some, inl, inr, length, min, drop, ◌==◌, ◌⊎◌}
use adbrsync.Common.{Option-cases, Bool-cases, length-drop, set}
use adbrsync.Common.Text.{Text}
use adbrsync.Core.Fanout.{Fanout, pending, Answer, took, failed, writable, write_loop, answer}
use adbrsync.Core.Fanout.{zero_write, fail, next_file, conclude, stash_data, poll_write}
use adbrsync.Core.Fanout.Progress.{entry_at}
use adbrsync.Core.Fanout.Steps.{writable_lem, loop_passes, loop_answers}

entry-set-none : (xs : List (Option Text)) (i : ℕ) → entry_at (set xs i none) i ≡ none
entry-set-none [] i = refl
entry-set-none (x ∷ xs) zero = refl
entry-set-none (x ∷ xs) (suc i) = entry-set-none xs i

-- An answer either moves on by at least a byte, or closes the file, which is then passed over.
abbrev Moves : Fanout → Fanout → Type 0
Moves f g = ((f.off < g.off) × (g.off ≤ length f.stash)) ⊎ (writable g ≡ none)

fail-Moves : (f : Fanout) (message : Text) → Moves f (fail f.at message f)
unfolding fail
fail-Moves f message = inr (ground (arith, entry-set-none f.files f.at))

answer-Moves : (c : Text) (a : Answer) (f : Fanout) → writable f ≡ some c → Moves f (answer c a f)
unfolding answer
answer-Moves c (failed message) f h = fail-Moves f message
answer-Moves c (took n) f h = elim (Bool-cases (min n (length (drop f.off f.stash)) == 0)) [
  | inl e ↦ rw e (fail-Moves f zero_write)
  | inr e ↦
      rw e (inl (ground (arith, e), ground (arith, writable_lem f c h, length-drop f.off f.stash)))
]

answer-stash : (c : Text) (a : Answer) (f : Fanout) → (answer c a f).stash ≡ f.stash
unfolding answer
answer-stash c (took n) f = ground arith
answer-stash c (failed message) f = refl

passed_left :
    (left : ℕ) (answers : List Answer) (f : Fanout)
    → f.off ≤ length f.stash
    → length answers + 0 < left * length f.stash
    → length answers + f.off < suc left * length f.stash
passed_left left answers f h k = omega arith

-- A loop that returns `Pending` has used fewer answers than there are bytes to hand out.
stuck-left :
    (left : ℕ) (answers : List Answer) (f : Fanout)
    → f.off ≤ length f.stash
    → (write_loop left answers f).0 ≡ false
    → length answers + f.off < left * length f.stash
stuck-left zero answers f h e = unfold write_loop in cc
stuck-left (suc left) [] f h e = elim (Option-cases (writable f)) [
  | inl n ↦
      passed_left left [] f h
        (stuck-left left [] (next_file f) (omega arith) (rw (loop_passes left [] f n) at e))
  | inr (c, k) ↦ omega (arith, writable_lem f c k)
]
stuck-left (suc left) (a ∷ answers) f h e = elim (Option-cases (writable f)) [
  | inl n ↦ passed_left left (a ∷ answers) f h (
      stuck-left left (a ∷ answers) (next_file f) (omega arith)
        (rw (loop_passes left (a ∷ answers) f n) at e))
  | inr (c, k) ↦
      let g : Fanout = answer c a f in
      let e' : (write_loop (suc left) answers g).0 ≡ false =
        rw (loop_answers left a answers f c k) at e in
      let same = ap length (answer-stash c a f) in
      let same_more = ap (λ (t : ℕ). left * t) same in
      elim (answer-Moves c a f k) [
        | inl (more, fits) ↦ omega (
          arith,
          same,
          same_more,
          writable_lem f c k,
          stuck-left (suc left) answers g (omega (arith, same)) e',
        )
        | inr n ↦ omega (
          arith,
          same,
          same_more,
          writable_lem f c k,
          stuck-left left answers (next_file g) (omega arith)
              (rw (loop_passes left answers g n) at e'),
        )
      ]
]

conclude-ready : (g : Fanout) → (conclude true g).0 ≢ pending
unfolding conclude
conclude-ready g e = ground arith

-- A poll is ready once its files have given as many answers as there are bytes to hand out: the
-- chunk times the number of files. So the loop does not spin.
pub poll_write-ready :
    (bytes : Text) (answers : List Answer) (f : Fanout)
    → f.stash ≡ []
    → length f.files * length bytes ≤ length answers
    → (poll_write bytes answers f).0 ≢ pending
unfolding poll_write
poll_write-ready bytes answers f fresh enough e =
    let begun : Fanout = record f { stash = bytes; at = 0; off = 0 } in
    let taken_in : stash_data bytes f ≡ begun = rw fresh in
    let e' : (conclude (write_loop (length f.files - 0) answers begun).0
          (write_loop (length f.files - 0) answers begun).1).0
        ≡ pending =
      rw taken_in at e in
    let none_passed : length f.files - 0 ≡ length f.files = omega arith in
    let all_left = ap (λ (t : ℕ). t * length bytes) none_passed in
    elim (Bool-cases (write_loop (length f.files - 0) answers begun).0) [
      | inl done ↦ conclude-ready (write_loop (length f.files - 0) answers begun).1 (rw done at e')
      | inr stopped ↦
          omega
            (arith, all_left, stuck-left (length f.files - 0) answers begun (omega arith) stopped)
    ]
