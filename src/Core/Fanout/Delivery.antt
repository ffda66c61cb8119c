-- ===== src/Core/Fanout/Delivery.antt =====
-- What polling a fan-out delivers, whatever the files answer and however often they are not ready.
use adbrsync.Common.{
  ℕ, zero, suc, ◌+◌, ◌-◌, ◌≤◌, ◌≡◌, ◌≢◌, refl, arith, Bool, true, false, List, [], ◌∷◌,
}
use adbrsync.Common.{inl, inr, length, Option-cases, Bool-cases}
use adbrsync.Common.Text.{Text}
use adbrsync.Common.Result.{Result, ok, err}
use adbrsync.Core.Plan.{add64}
use adbrsync.Core.Fanout.{Fanout, Poll, ready, pending, Answer, writable, write_loop, all_closed}
use adbrsync.Core.Fanout.{answer, next_file, stash_data, conclude, poll_write, drive, gone}
use adbrsync.Core.Fanout.Progress.{AllTaken, open_count, Progress-start, Progress-end}
use adbrsync.Core.Fanout.Steps.{IsUnderWay, next_file-IsUnderWay, answer-IsUnderWay}
use adbrsync.Core.Fanout.Steps.{loop_passes, loop_waits, loop_answers, answer-at, length-answer}

-- What a finished write of `bytes` has done since `f₀`: each file is closed, or has taken exactly
-- `bytes` once; every file that was closed has left its reason; and the write succeeds, and is
-- counted once however many files took it, exactly if some file is still open.
pub record Delivered (bytes : Text) (f₀ : Fanout) (r : Result Text ℕ) (g : Fanout) : Type 0 where
  pub taken : AllTaken bytes f₀.files g.files
  pub accounted : length g.failures + open_count g.files ≡ length f₀.failures + open_count f₀.files
  pub succeeds :
      all_closed g ≡ false
      → (r ≡ ok (length bytes))
        × (g.counter ≡ add64 f₀.counter (length bytes))
        × (g.written ≡ add64 f₀.written (length bytes))
        × (g.stash ≡ [])
  pub fails :
      all_closed g ≡ true → (r ≡ err gone) × (g.counter ≡ f₀.counter) × (g.written ≡ f₀.written)

module _ (bytes : Text) (f₀ : Fanout) where
  -- After the loop, finished or not.
  record IsPaused (o : Bool × Fanout) : Type 0 where
    under_way : IsUnderWay bytes f₀ o.1
    inside : o.1.at ≤ length o.1.files
    passed : o.0 ≡ true → length o.1.files ≤ o.1.at

  loop-IsPaused :
      (left : ℕ) (answers : List Answer) (f : Fanout)
      → f.at + left ≡ length f.files
      → IsUnderWay bytes f₀ f
      → IsPaused (write_loop left answers f)
  loop-IsPaused zero answers f h w =
      unfold write_loop in record { under_way = w; inside = omega arith; passed = λ e. omega arith }
  loop-IsPaused (suc left) [] f h w = elim (Option-cases (writable f)) [
    | inl e ↦
        rw (loop_passes left [] f e)
          (loop-IsPaused left [] (next_file f) (omega arith) (next_file-IsUnderWay bytes f₀ f w e))
    | inr (c, e) ↦
        rw (loop_waits left f c e)
          (record { under_way = w; inside = omega arith; passed = λ t. cc })
  ]
  loop-IsPaused (suc left) (a ∷ answers) f h w = elim (Option-cases (writable f)) [
    | inl e ↦ rw (loop_passes left (a ∷ answers) f e) (
        loop-IsPaused left (a ∷ answers) (next_file f) (omega arith)
          (next_file-IsUnderWay bytes f₀ f w e))
    | inr (c, e) ↦ rw (loop_answers left a answers f c e) (
        loop-IsPaused (suc left) answers (answer c a f)
          (omega (arith, answer-at c a f, length-answer c a f))
          (answer-IsUnderWay bytes f₀ f w c a e))
  ]

  -- A poll that is not ready keeps the chunk and has counted nothing; one that is ready has
  -- delivered.
  PollPost : Poll (Result Text ℕ) × Fanout → Type 0
  PollPost (pending, g) = IsUnderWay bytes f₀ g × (g.at ≤ length g.files)
  PollPost (ready r, g) = Delivered bytes f₀ r g

  conclude-PollPost : (done : Bool) (g : Fanout) → IsPaused (done, g) → PollPost (conclude done g)
  unfolding PollPost conclude
  conclude-PollPost false g p = (p.under_way, p.inside)
  conclude-PollPost true g p = elim (Bool-cases (all_closed g)) [
    | inl e ↦ rw e (record {
      taken = all_taken;
      accounted = p.under_way.accounted;
      succeeds = λ o. cc;
      fails = λ o. (refl, p.under_way.same_counter, p.under_way.same_written);
    })
    | inr e ↦ rw e (record {
      taken = all_taken;
      accounted = p.under_way.accounted;
      succeeds = λ o. ground (arith, p.under_way);
      fails = λ o. cc;
    })
  ]
    where
      all_taken : AllTaken bytes f₀.files g.files
      all_taken =
          Progress-end bytes g.at g.off f₀.files g.files (p.passed refl) p.under_way.progress

  resume-PollPost :
      (answers : List Answer) (f : Fanout)
      → bytes ≢ []
      → IsUnderWay bytes f₀ f
      → f.at ≤ length f.files
      → PollPost (poll_write bytes answers f)
  unfolding poll_write
  resume-PollPost answers f some_data w h =
      let kept : stash_data bytes f ≡ f = ground (arith, some_data, w.stashed) in
      rw kept (
        conclude-PollPost (write_loop (length f.files - f.at) answers f).0
          (write_loop (length f.files - f.at) answers f).1
          (loop-IsPaused (length f.files - f.at) answers f (omega arith) w))

  first-PollPost : (answers : List Answer) → f₀.stash ≡ [] → PollPost (poll_write bytes answers f₀)
  unfolding poll_write
  first-PollPost answers fresh =
      let begun : Fanout = record f₀ { stash = bytes; at = 0; off = 0 } in
      let taken_in : stash_data bytes f₀ ≡ begun = rw fresh in
      rw taken_in (
        conclude-PollPost (write_loop (length f₀.files - 0) answers begun).0
          (write_loop (length f₀.files - 0) answers begun).1
          (loop-IsPaused (length f₀.files - 0) answers begun (omega arith) (record {
            stashed = refl;
            progress = Progress-start bytes f₀.files;
            same_length = refl;
            accounted = refl;
            same_counter = refl;
            same_written = refl;
          })))

  -- A further poll follows only one that was not ready.
  drive_rest :
      (polls : List (List Answer)) (o : Poll (Result Text ℕ) × Fanout)
      → PollPost o
      → ((g : Fanout)
          → IsUnderWay bytes f₀ g
          → g.at ≤ length g.files
          → PollPost (drive bytes polls g))
      → PollPost (elim (o.0) [ ready r ↦ (ready r, o.1) | pending ↦ drive bytes polls (o.1) ])
  unfolding PollPost
  drive_rest polls (ready r, g) p ih = p
  drive_rest polls (pending, g) p ih = ih g p.0 p.1

  resume-drive :
      (polls : List (List Answer)) (f : Fanout)
      → bytes ≢ []
      → IsUnderWay bytes f₀ f
      → f.at ≤ length f.files
      → PollPost (drive bytes polls f)
  unfolding drive
  resume-drive [] f some_data w h = unfold PollPost in (w, h)
  resume-drive (answers ∷ polls) f some_data w h =
      drive_rest polls (poll_write bytes answers f) (resume-PollPost answers f some_data w h)
        (λ g. resume-drive polls g some_data)

  first-drive :
      (answers : List Answer) (polls : List (List Answer))
      → bytes ≢ []
      → f₀.stash ≡ []
      → PollPost (drive bytes (answers ∷ polls) f₀)
  unfolding drive
  first-drive answers polls some_data fresh =
      drive_rest polls (poll_write bytes answers f₀) (first-PollPost answers fresh)
        (λ g. resume-drive polls g some_data)

-- However the files answer, and however often the write has to be resumed: a write of `bytes` that
-- becomes ready has delivered them.
pub drive-Delivered :
    (bytes : Text) (polls : List (List Answer)) (f : Fanout) (r : Result Text ℕ) (g : Fanout)
    → bytes ≢ []
    → f.stash ≡ []
    → drive bytes polls f ≡ (ready r, g)
    → Delivered bytes f r g
unfolding PollPost
drive-Delivered bytes [] f r g some_data fresh e = unfold drive in cc
drive-Delivered bytes (answers ∷ polls) f r g some_data fresh e =
    rw e at (first-drive bytes f answers polls some_data fresh)

-- As long as a write of `bytes` has not become ready, nothing of it is counted.
pub drive_uncounted :
    (bytes : Text) (polls : List (List Answer)) (f g : Fanout)
    → bytes ≢ []
    → f.stash ≡ []
    → drive bytes polls f ≡ (pending, g)
    → (g.counter ≡ f.counter) × (g.written ≡ f.written)
unfolding PollPost
drive_uncounted bytes [] f g some_data fresh e = unfold drive in ground arith
drive_uncounted bytes (answers ∷ polls) f g some_data fresh e =
    let paused : PollPost bytes f (pending, g) =
      rw e at (first-drive bytes f answers polls some_data fresh) in
    (paused.0.same_counter, paused.0.same_written)
