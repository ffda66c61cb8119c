-- ===== src/Core/LocalScan.antt =====
-- `scan_local` of crates/adbrsync-core/src/scan.rs: the entries of a destination's tree. What `walkdir` and
-- the file system answer are given, in the order of the walk; `lossy` is `to_string_lossy`.
pub mod Paths
pub mod Backslash
mod Examples
use adbrsync.Common.{ℕ, ◌/◌, ◌^◌, Bool, true, false, not, List, [], ◌∷◌, Option, none, some, ◌==◌}
use adbrsync.Common.{if◌then◌else◌}
use adbrsync.Common.Int.{ℤ, pos, negsuc, wrap_i64}
use adbrsync.Common.Text.{Text, text_eq, join}
use adbrsync.Common.Result.{Result, ok, err, ◌>>=◌, map_err}
use adbrsync.Core.Entry.{FilePath, EntryKind, file, dir, symlink, LocalEntry}
use adbrsync.Core.Error.{CoreError, local_scan}

-- `modified` is in nanoseconds from 1970 on.
pub record FileMeta : Type 0 where
  pub is_dir : Bool
  pub is_symlink : Bool
  pub len : ℕ
  pub modified : Option ℤ

-- An entry that the walk yields, with what its metadata are or why they cannot be read.
pub record Found : Type 0 where
  pub path : FilePath
  pub metadata : Result Text FileMeta

abbrev pub kind_of : FileMeta → EntryKind
kind_of meta = if meta.is_dir then dir else if meta.is_symlink then symlink else file

-- `duration_since(UNIX_EPOCH)`, which fails before 1970, and `as_secs() as i64`
abbrev secs_since : ℤ → ℤ
secs_since (pos n) = wrap_i64 (pos (n / 10 ^ 9))
secs_since (negsuc n) = pos 0

abbrev pub mtime_secs : FileMeta → ℤ
mtime_secs meta = elim meta.modified [ none ↦ pos 0 | some t ↦ secs_since t ]

-- `Path::strip_prefix`
unfoldable pub strip_path : FilePath → FilePath → Option FilePath
strip_path [] path = some path
strip_path (c ∷ root) [] = none
strip_path (c ∷ root) (d ∷ path) =
    let rest = strip_path root path in if text_eq c d then rest else none

abbrev or_path : Option FilePath → FilePath → FilePath
or_path none path = path
or_path (some p) path = p

-- `replace('\\', "/")`
unfoldable pub to_slashes : Text → Text
to_slashes [] = []
to_slashes (c ∷ s) = (if c == 92 then b'/' else c) ∷ to_slashes s

module _ (lossy : Text → Text) (root : FilePath) where
  unfoldable pub rel_of : FilePath → Text
  unfolding strip_path to_slashes
  rel_of path = to_slashes (lossy (join b'/' (or_path (strip_path root path) path)))

  -- The body of the loop over the walk.
  unfoldable pub local_entry : Result Text Found → Result CoreError LocalEntry
  unfolding rel_of
  local_entry item = map_err local_scan item >>= λ found.
      map_err local_scan found.metadata >>= λ meta. ok (record {
        rel = rel_of found.path;
        path = found.path;
        kind = kind_of meta;
        size = meta.len;
        mtime = mtime_secs meta;
      })

  unfoldable pub local_entries : List (Result Text Found) → Result CoreError (List LocalEntry)
  unfolding local_entry
  local_entries [] = ok []
  local_entries (item ∷ items) = local_entry item >>= λ e. local_entries items >>= λ es. ok (e ∷ es)

  -- `exists` is what `root.exists()` says.
  unfoldable pub scan_local : Bool → List (Result Text Found) → Result CoreError (List LocalEntry)
  unfolding local_entries
  scan_local exists items = if not exists then ok [] else local_entries items
