-- ===== src/Core/Checksum/Examples.antt =====
-- Two paths in a batch, and the theorems on them.
use adbrsync.Common.{◌≡◌, List, [], ◌∷◌, All, Option, some, none}
use adbrsync.Common.Text.{Text, codes}
use adbrsync.Common.Int.{pos}
use adbrsync.Common.Result.{Result, ok}
use adbrsync.Core.Entry.{FilePath, file, RemoteEntry, LocalEntry}
use adbrsync.Core.Error.{CoreError}
use adbrsync.Core.Checksum.{device_digests}
use adbrsync.Core.Checksum.Batches.{Fits, concat, run_batches, device_digests_batches}

abbrev paths : List Text
paths = codes "/sd/a" ∷ codes "/sd/it's" ∷ []

-- A device that prints nothing.
abbrev silent : Text → Result CoreError Text
silent command = ok []

device_digests_batches_example :
    (bs : List (List Text)) × All Fits bs
    × (concat bs ≡ paths)
    × (device_digests silent paths ≡ run_batches silent bs (λ path. none))
device_digests_batches_example = device_digests_batches silent paths

abbrev entry : RemoteEntry
entry = record {
  rel = codes "a";
  remote = codes "/sd/a";
  kind = file;
  size = 1;
  mtime = pos 1;
  mode = 0o644;
}

abbrev hash : FilePath → Option Text
hash path = some (codes "00")

abbrev absent : Text → Option LocalEntry
absent rel = none
