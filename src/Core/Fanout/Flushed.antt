-- ===== src/Core/Fanout/Flushed.antt =====
-- A flush does to a fan-out only what `fail` does.
use adbrsync.Common.{ℕ, zero, suc, ◌+◌, Bool, true, false, List, [], ◌∷◌, Option, none, inl, inr}
use adbrsync.Common.{length, set, Option-cases, Bool-cases}
use adbrsync.Common.Text.{Text}
use adbrsync.Common.Result.{Result}
use adbrsync.Core.Fanout.{
  Fanout, Flush, flushed, not_flushed, fail, flush_answer, flush_loop, file_at,
}
use adbrsync.Core.Fanout.{Poll, ready, pending, conclude_flush, poll_flush, flush_all, all_closed}
use adbrsync.Core.Fanout.Progress.{AllTaken}

module _ (P : Fanout → Type 0)
    (closing : (pos : ℕ) (m : Text) (f : Fanout) → P f → P (fail pos m f)) where
  flush_answer-keeps : (pos : ℕ) (a : Flush) (f : Fanout) → P f → P (flush_answer pos a f)
  unfolding flush_answer
  flush_answer-keeps pos flushed f h = h
  flush_answer-keeps pos (not_flushed m) f h = closing pos m f h

  flush_loop-keeps :
      (left pos : ℕ) (answers : List Flush) (f : Fanout) → P f → P (flush_loop left pos answers f).1
  unfolding flush_loop
  flush_loop-keeps zero pos answers f h = h
  flush_loop-keeps (suc left) pos [] f h = elim (Option-cases (file_at f pos)) [
    | inl e ↦ rw (flush_loop, e) (flush_loop-keeps left (pos + 1) [] f h)
    | inr (c, e) ↦ rw (flush_loop, e) h
  ]
  flush_loop-keeps (suc left) pos (a ∷ answers) f h = elim (Option-cases (file_at f pos)) [
    | inl e ↦ rw (flush_loop, e) (flush_loop-keeps left (pos + 1) (a ∷ answers) f h)
    | inr (c, e) ↦
        rw (flush_loop, e)
          (flush_loop-keeps left (pos + 1) answers (flush_answer pos a f)
            (flush_answer-keeps pos a f h))
  ]

  conclude_flush-keeps : (done : Bool) (f : Fanout) → P f → P (conclude_flush done f).1
  unfolding conclude_flush
  conclude_flush-keeps false f h = h
  conclude_flush-keeps true f h = elim (Bool-cases (all_closed f)) [
    | inl e ↦ rw e h
    | inr e ↦ rw e h
  ]

  poll_flush-keeps : (answers : List Flush) (f : Fanout) → P f → P (poll_flush answers f).1
  unfolding poll_flush
  poll_flush-keeps answers f h =
      conclude_flush-keeps (flush_loop (length f.files) 0 answers f).0 _
        (flush_loop-keeps (length f.files) 0 answers f h)

  flush_rest-keeps :
      (polls : List (List Flush)) (p : Poll (Result Text (Unit {0}))) (g : Fanout)
      → P g
      → P (flush_all polls g)
      → P (elim p [ ready r ↦ g | pending ↦ flush_all polls g ])
  flush_rest-keeps polls (ready r) g h k = h
  flush_rest-keeps polls pending g h k = k

  -- What closing a file keeps, a flush keeps.
  pub flush_all-keeps : (polls : List (List Flush)) (f : Fanout) → P f → P (flush_all polls f)
  unfolding flush_all
  flush_all-keeps [] f h = h
  flush_all-keeps (answers ∷ polls) f h =
      let k = poll_flush-keeps answers f h in
      flush_rest-keeps polls (poll_flush answers f).0 _ k (flush_all-keeps polls _ k)

-- A closed file has nothing to show for what the others have taken.
pub AllTaken-set :
    (t : Text) (i : ℕ) (xs ys : List (Option Text))
    → AllTaken t xs ys
    → AllTaken t xs (set ys i none)
AllTaken-set t i [] [] h = tt
AllTaken-set t i [] (y ∷ ys) h = absurd h
AllTaken-set t i (x ∷ xs) [] h = absurd h
AllTaken-set t zero (x ∷ xs) (y ∷ ys) h = (tt, h.1)
AllTaken-set t (suc i) (x ∷ xs) (y ∷ ys) h = (h.0, AllTaken-set t i xs ys h.1)
