-- ===== src/Core/Destinations/Examples.antt =====
-- Two destinations, of which one is read-only, and the theorems on them.
use adbrsync.Common.{◌≡◌, arith, true, List, [], ◌∷◌, Option, none, some}
use adbrsync.Common.{if◌then◌else◌}
use adbrsync.Common.Text.{Text, codes, text_eq}
use adbrsync.Core.Entry.{FilePath}
use adbrsync.Core.Destinations.{fresh}
use adbrsync.Core.Destinations.Failures.{note_times, note_times_lem}

note_times_lem_example :
    note_times 11 fresh ≡ (1, record { files = 0; bytes = 0; failures = 11; disabled = true })
note_times_lem_example = note_times_lem 11 (omega arith)

abbrev read_only : FilePath → Option Text
read_only [] = none
read_only (c ∷ path) = if text_eq c (codes "ro") then some (codes "read-only") else none

abbrev drives : List FilePath
drives = (codes "ro" ∷ []) ∷ (codes "rw" ∷ []) ∷ []
