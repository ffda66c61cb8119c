-- ===== src/Core/Destinations.antt =====
-- What crates/adbrsync-core/src/transfer.rs keeps of each destination, how it prepares and clears
-- them, and how it opens sessions. What the file system and the server answer is given.
pub mod Failures
pub mod Prepared
mod Examples
use adbrsync.Common.{ℕ, zero, suc, ◌+◌, ◌%◌, ◌^◌, Bool, true, false, not, ◌&&◌, ◌==◌, if◌then◌else◌}
use adbrsync.Common.{List, [], ◌∷◌, ◌++◌, Option, none, some, length, is_nil}
use adbrsync.Common.Text.{Text, codes}
use adbrsync.Common.Result.{Result, ok, err, ◌>>=◌}
use adbrsync.Proto.Error.{sync}
use adbrsync.Proto.Error
use adbrsync.Core.Entry.{FilePath, safe_join}
use adbrsync.Core.Plan.{add64}
use adbrsync.Core.Error.{CoreError, adb, io_failed, unsafe_path}

pub record DestStats : Type 0 where
  pub files : ℕ
  pub bytes : ℕ
  pub failures : ℕ
  pub disabled : Bool

abbrev pub dest_failure_limit : ℕ
dest_failure_limit = 10

abbrev pub fresh : DestStats
fresh = record { files = 0; bytes = 0; failures = 0; disabled = false }

-- Each call is one step: the counter is added to, and only the count that is the limit swaps the
-- flag.
unfoldable pub note_failure : DestStats → Bool × DestStats
note_failure d =
    let count = add64 d.failures 1 in
    if count == dest_failure_limit
    then (not d.disabled, record d { failures = count; disabled = true })
    else (false, record d { failures = count })

unfoldable pub disable : DestStats → DestStats
disable d = record d { disabled = true }

-- The function of the same name that works on all destinations: `written_off` is added to.
unfoldable pub note_failure_of : ℕ → (ℕ → DestStats) → List ℕ → (ℕ → DestStats) × List ℕ
unfolding note_failure
note_failure_of dest stats written_off =
    let (gave_up, d) = note_failure (stats dest) in
    (
      λ i. if i == dest then d else stats i,
      if gave_up then written_off ++ dest ∷ [] else written_off,
    )

unfoldable pub breaks_stream : CoreError → Bool
breaks_stream (adb (sync path reason)) = false
breaks_stream (adb e) = true
breaks_stream (io_failed m) = true
breaks_stream e = false

-- Opening a session, given what each attempt gives; `left` attempts remain after this one. The waits
-- between them are left out.
unfoldable pub open_attempts {ℓ} :
    {S : Type ℓ} → (ℕ → Result Error.Error S) → ℕ → ℕ → Result CoreError S
open_attempts attempt n zero = elim (attempt n) [ ok s ↦ ok s | err e ↦ err (adb e) ]
open_attempts attempt n (suc left) = elim (attempt n) [
  | ok s ↦ ok s
  | err e ↦ open_attempts attempt (n + 1) left
]

unfoldable pub open_session {ℓ} : {S : Type ℓ} → (ℕ → Result Error.Error S) → Result CoreError S
unfolding open_attempts
open_session attempt = open_attempts attempt 0 2

-- What `create_dir_all` of a path answers: an error's text, or none.
module _ (create_dir_all : FilePath → Option Text) where
  abbrev pub made : FilePath → Result CoreError (Unit {0})
  made path = elim (create_dir_all path) [ none ↦ ok tt | some m ↦ err (io_failed m) ]

  -- `?` on `safe_join`.
  abbrev pub joined : FilePath → Text → Result CoreError FilePath
  joined dest rel = elim (safe_join dest rel) [ none ↦ err (unsafe_path rel) | some p ↦ ok p ]

  unfoldable pub make_dirs : FilePath → List Text → Result CoreError (Unit {0})
  make_dirs dest [] = ok tt
  make_dirs dest (rel ∷ rels) = joined dest rel >>= λ path. made path >>= λ u. make_dirs dest rels

  unfoldable pub prepare_dest : List Text → FilePath → Result CoreError (Unit {0})
  unfolding make_dirs
  prepare_dest dirs dest = made dest >>= λ u. make_dirs dest dirs

  -- The destinations that fail, each with its index.
  unfoldable pub failed_dests : List Text → ℕ → List FilePath → List (ℕ × CoreError)
  unfolding prepare_dest
  failed_dests dirs i [] = []
  failed_dests dirs i (dest ∷ dests) =
      let rest = failed_dests dirs (i + 1) dests in
      elim (prepare_dest dirs dest) [ ok u ↦ rest | err e ↦ (i, e) ∷ rest ]

  unfoldable pub create_dirs : List Text → List FilePath → Result CoreError (List (ℕ × CoreError))
  unfolding failed_dests
  create_dirs dirs dests =
      let failed = failed_dests dirs 0 dests in
      if length failed == length dests
      then err (io_failed (codes "no destination could be prepared"))
      else ok failed
