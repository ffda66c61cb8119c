-- ===== src/Core/Removal.antt =====
-- `apply_deletions` of crates/adbrsync-core/src/transfer.rs, over any file system.
pub mod Accounts
mod Examples
use adbrsync.Common.{List, [], ◌∷◌, ◌++◌, Option, none, some}
use adbrsync.Common.Text.{Text}
use adbrsync.Core.Entry.{FilePath}

-- What `fs::metadata` says of a path; it follows symbolic links.
pub data Metadata : Type 0 where
  directory : Metadata
  other : Metadata
  not_found : Metadata
  unreadable : Text → Metadata

-- The calls, on the states of a file system. A removal answers an error's text, or none.
pub record Disk {ℓ} (S : Type ℓ) : Type ℓ where
  pub metadata : FilePath → S → Metadata
  pub remove_dir : FilePath → S → Option Text × S
  pub remove_file : FilePath → S → Option Text × S

module _ {ℓ} {S : Type ℓ} (disk : Disk S) where
  -- The `match` on the metadata: `none` is `continue`.
  unfoldable pub attempt : Metadata → FilePath → S → Option (Option Text) × S
  attempt directory path s = let (r, t) = disk.remove_dir path s in (some r, t)
  attempt other path s = let (r, t) = disk.remove_file path s in (some r, t)
  attempt not_found path s = (none, s)
  attempt (unreadable m) path s = (some (some m), s)

  -- A failure is reported with its path.
  abbrev pub complaint : FilePath → Option (Option Text) → List (FilePath × Text)
  complaint path none = []
  complaint path (some none) = []
  complaint path (some (some m)) = (path, m) ∷ []

  unfoldable pub apply_deletions : List FilePath → S → List (FilePath × Text) × S
  unfolding attempt
  apply_deletions [] s = ([], s)
  apply_deletions (path ∷ paths) s =
      let (outcome, t) = attempt (disk.metadata path s) path s in
      let (errors, u) = apply_deletions paths t in (complaint path outcome ++ errors, u)
