-- ===== src/Cli/Examples.antt =====
-- Command lines, and the theorems on them.
use adbrsync.Common.{refl, true, false, if◌then◌else◌, List, [], ◌∷◌, Option}
use adbrsync.Common.{none, ◌||◌}
use adbrsync.Common.Text.{Text, codes, text_eq, split}
use adbrsync.Core.Entry.{FilePath}
use adbrsync.Cli.Remote.{RemoteSpec, parse_remote}
use adbrsync.Cli.Info.{InfoFlags}
use adbrsync.Cli.Destinations.{Found, directory, absent, DestArgs, resolve_destinations}
use adbrsync.Cli.Destinations.Apart.{Apart, resolve_destinations-Apart}

abbrev quiet : InfoFlags
quiet = record { progress = 2; stats = 0; name = 1 }

-- Two drives, of which the second is away.
abbrev drives : Text → Found
drives raw = if text_eq raw (codes "a") || text_eq raw (codes "b") then directory else absent

abbrev args : DestArgs
args = record {
  dests = codes "a" ∷ codes "x" ∷ codes "b" ∷ [];
  mkpath = false;
  skip_missing_dest = true;
}

abbrev created : Text → Option Text
created raw = none

abbrev in_mnt : Text → FilePath
in_mnt raw = codes "mnt" ∷ raw ∷ []

abbrev source : RemoteSpec
source = record { serial = none; path = codes "/sdcard/DCIM"; trailing_slash = false }

abbrev places : List FilePath
places =
    (codes "mnt" ∷ codes "a" ∷ codes "DCIM" ∷ [])
    ∷ (codes "mnt" ∷ codes "b" ∷ codes "DCIM" ∷ [])
    ∷ []

resolve_destinations-Apart_example : Apart (in_mnt (codes "a")) (in_mnt (codes "b"))
unfolding resolve_destinations parse_remote text_eq split
resolve_destinations-Apart_example =
    resolve_destinations-Apart drives created args in_mnt in_mnt source false places
      (codes "x" ∷ []) 0 1 (codes "a") (codes "b") refl refl refl refl
