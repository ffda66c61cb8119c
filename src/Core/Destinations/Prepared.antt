-- ===== src/Core/Destinations/Prepared.antt =====
-- Which destinations a run goes on with.
use adbrsync.Common.{ℕ, zero, suc, ◌+◌, ◌<◌, ◌≤◌, ◌≡◌, refl, arith, Bool, true, false, any, ◌==◌}
use adbrsync.Common.{List, [], ◌∷◌, get_elem?, length, Option, some, inl, inr}
use adbrsync.Common.Text.{Text}
use adbrsync.Common.Result.{Result, ok, err, Result-cases}
use adbrsync.Core.Entry.{FilePath}
use adbrsync.Core.Error.{CoreError}
use adbrsync.Core.Destinations.{prepare_dest, failed_dests, create_dirs}

abbrev pub is_err : Result CoreError (Unit {0}) → Bool
is_err (ok u) = false
is_err (err e) = true

module _ (create_dir_all : FilePath → Option Text) (dirs : List Text) where
  failed_dests-later :
      (i k : ℕ) (dests : List FilePath)
      → k < i
      → any (λ f. f.0 == k) (failed_dests create_dir_all dirs i dests) ≡ false
  unfolding failed_dests
  failed_dests-later i k [] h = refl
  failed_dests-later i k (d ∷ dests) h = elim (Result-cases (prepare_dest create_dir_all dirs d)) [
    | inl (u, e) ↦ ground (arith, e, h, failed_dests-later (i + 1) k dests)
    | inr (x, e) ↦ ground (arith, e, h, failed_dests-later (i + 1) k dests)
  ]

  failed_dests-at :
      (i k m : ℕ) (dests : List FilePath) (d : FilePath)
      → m ≡ i + k
      → get_elem? dests k ≡ some d
      → any (λ f. f.0 == m) (failed_dests create_dir_all dirs i dests)
        ≡ is_err (prepare_dest create_dir_all dirs d)
  unfolding failed_dests
  failed_dests-at i k m [] d e h = ground (arith, h)
  failed_dests-at i zero m (x ∷ dests) d e h =
      elim (Result-cases (prepare_dest create_dir_all dirs x)) [
        | inl (u, q) ↦ ground (arith, e, q, h, failed_dests-later (i + 1) m dests)
        | inr (y, q) ↦ ground (arith, e, q, h)
      ]
  failed_dests-at i (suc k) m (x ∷ dests) d e h =
      elim (Result-cases (prepare_dest create_dir_all dirs x)) [
        | inl (u, q) ↦ ground (arith, e, q, h, failed_dests-at (i + 1) k m dests d)
        | inr (y, q) ↦ ground (arith, e, q, h, failed_dests-at (i + 1) k m dests d)
      ]

  length-failed_dests :
      (i : ℕ) (dests : List FilePath)
      → length (failed_dests create_dir_all dirs i dests) ≤ length dests
  unfolding failed_dests
  length-failed_dests i [] = omega arith
  length-failed_dests i (x ∷ dests) = elim (Result-cases (prepare_dest create_dir_all dirs x)) [
    | inl (u, q) ↦ ground (arith, q, length-failed_dests (i + 1) dests)
    | inr (y, q) ↦ ground (arith, q, length-failed_dests (i + 1) dests)
  ]

  -- Where the directories are created, the destinations that are reported are those that could not be
  -- prepared, whatever became of the others, and at least one could be.
  pub create_dirs-any :
      (dests : List FilePath) (failed : List (ℕ × CoreError)) (k : ℕ) (d : FilePath)
      → create_dirs create_dir_all dirs dests ≡ ok failed
      → get_elem? dests k ≡ some d
      → (any (λ f. f.0 == k) failed ≡ is_err (prepare_dest create_dir_all dirs d))
        × (length failed < length dests)
  unfolding create_dirs
  create_dirs-any dests failed k d h e =
      ground
        (arith, h, e, failed_dests-at 0 k k dests d (omega arith) e, length-failed_dests 0 dests)
