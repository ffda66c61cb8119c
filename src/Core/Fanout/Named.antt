-- ===== src/Core/Fanout/Named.antt =====
-- Every file that the fan-out has closed has left its position among the failures.
use adbrsync.Common.{Bool, ℕ, zero, suc, ◌-◌, ◌≡◌, refl, arith, true, false, List, [], ◌∷◌}
use adbrsync.Common.{
  Option, none, some, inl, inr, ◌⊎◌, length, get_elem?, set, any, any-append, ◌==◌,
}
use adbrsync.Common.{drop, min, Option-cases, Bool-cases}
use adbrsync.Common.Text.{Text, is_empty}
use adbrsync.Common.Result.{Result}
use adbrsync.Core.Fanout.{
  Fanout, Poll, ready, pending, Answer, took, failed, fail, answer, writable,
}
use adbrsync.Core.Fanout.{zero_write, next_file, write_loop, all_closed, conclude, stash_data}
use adbrsync.Core.Fanout.{poll_write, drive}

abbrev pub IsNamed : Fanout → Type 0
IsNamed f = (i : ℕ) → get_elem? f.files i ≡ some none → any (λ x. x.0 == i) f.failures ≡ true

closed-set-some :
    (xs : List (Option Text)) (pos : ℕ) (d : Text) (i : ℕ)
    → get_elem? (set xs pos (some d)) i ≡ some none
    → get_elem? xs i ≡ some none
closed-set-some [] pos d i h = h
closed-set-some (x ∷ xs) zero d zero h = cc
closed-set-some (x ∷ xs) zero d (suc i) h = h
closed-set-some (x ∷ xs) (suc pos) d zero h = h
closed-set-some (x ∷ xs) (suc pos) d (suc i) h = closed-set-some xs pos d i h

closed-set-none :
    (xs : List (Option Text)) (pos i : ℕ)
    → get_elem? (set xs pos none) i ≡ some none
    → (pos ≡ i) ⊎ (get_elem? xs i ≡ some none)
closed-set-none [] pos i h = inr h
closed-set-none (x ∷ xs) zero zero h = inl refl
closed-set-none (x ∷ xs) zero (suc i) h = inr h
closed-set-none (x ∷ xs) (suc pos) zero h = inr h
closed-set-none (x ∷ xs) (suc pos) (suc i) h = elim (closed-set-none xs pos i h) [
  | inl e ↦ inl (omega arith)
  | inr e ↦ inr e
]

pub fail-IsNamed : (pos : ℕ) (m : Text) (f : Fanout) → IsNamed f → IsNamed (fail pos m f)
unfolding fail
fail-IsNamed pos m f h i k = elim (closed-set-none f.files pos i k) [
  | inl e ↦ ground (arith, any-append (λ x. x.0 == i) f.failures ((pos, m) ∷ []), e)
  | inr e ↦ ground (arith, any-append (λ x. x.0 == i) f.failures ((pos, m) ∷ []), h i e)
]

answer-IsNamed : (c : Text) (a : Answer) (f : Fanout) → IsNamed f → IsNamed (answer c a f)
unfolding answer
answer-IsNamed c (failed m) f h = fail-IsNamed f.at m f h
answer-IsNamed c (took n) f h = elim (Bool-cases (min n (length (drop f.off f.stash)) == 0)) [
  | inl e ↦ rw e (fail-IsNamed f.at zero_write f h)
  | inr e ↦ rw e (λ i k. h i (closed-set-some f.files f.at _ i k))
]

write_loop-IsNamed :
    (left : ℕ) (answers : List Answer) (f : Fanout)
    → IsNamed f
    → IsNamed (write_loop left answers f).1
unfolding write_loop
write_loop-IsNamed zero answers f h = h
write_loop-IsNamed (suc left) [] f h = elim (Option-cases (writable f)) [
  | inl e ↦ rw (write_loop, e) (write_loop-IsNamed left [] (next_file f) h)
  | inr (c, e) ↦ rw (write_loop, e) h
]
write_loop-IsNamed (suc left) (a ∷ answers) f h = elim (Option-cases (writable f)) [
  | inl e ↦ rw (write_loop, e) (write_loop-IsNamed left (a ∷ answers) (next_file f) h)
  | inr (c, e) ↦
      rw (write_loop, e)
        (write_loop-IsNamed (suc left) answers (answer c a f) (answer-IsNamed c a f h))
]

conclude-IsNamed : (done : Bool) (f : Fanout) → IsNamed f → IsNamed (conclude done f).1
unfolding conclude
conclude-IsNamed false f h = h
conclude-IsNamed true f h = elim (Bool-cases (all_closed f)) [ inl e ↦ rw e h | inr e ↦ rw e h ]

stash_data-IsNamed : (bytes : Text) (f : Fanout) → IsNamed f → IsNamed (stash_data bytes f)
stash_data-IsNamed bytes f h = elim (Bool-cases (is_empty f.stash)) [
  | inl e ↦ rw e h
  | inr e ↦ rw e h
]

poll_write-IsNamed :
    (bytes : Text) (answers : List Answer) (f : Fanout)
    → IsNamed f
    → IsNamed (poll_write bytes answers f).1
unfolding poll_write
poll_write-IsNamed bytes answers f h =
    let g = stash_data bytes f in
    conclude-IsNamed (write_loop (length g.files - g.at) answers g).0 _
      (write_loop-IsNamed (length g.files - g.at) answers g (stash_data-IsNamed bytes f h))

drive_rest-IsNamed :
    (bytes : Text) (polls : List (List Answer)) (o : Poll (Result Text ℕ) × Fanout)
    → IsNamed o.1
    → IsNamed (drive bytes polls o.1).1
    → IsNamed
        (elim (o.0) as (λ x. Poll (Result Text ℕ) × Fanout) [
          | ready r ↦ (ready r, o.1)
          | pending ↦ drive bytes polls (o.1)
        ]).1
drive_rest-IsNamed bytes polls (ready r, g) h k = h
drive_rest-IsNamed bytes polls (pending, g) h k = k

-- However the files answer, a write names the files that it closes.
pub drive-IsNamed :
    (bytes : Text) (polls : List (List Answer)) (f : Fanout)
    → IsNamed f
    → IsNamed (drive bytes polls f).1
unfolding drive
drive-IsNamed bytes [] f h = h
drive-IsNamed bytes (answers ∷ polls) f h =
    let k = poll_write-IsNamed bytes answers f h in
    drive_rest-IsNamed bytes polls (poll_write bytes answers f) k
      (drive-IsNamed bytes polls (poll_write bytes answers f).1 k)
