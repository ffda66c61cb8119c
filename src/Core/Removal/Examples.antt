-- ===== src/Core/Removal/Examples.antt =====
-- Deletions on a file system that holds what is said of each path.
use adbrsync.Common.{◌≡◌, refl, [], ◌∷◌, ◌⊎◌, none, if◌then◌else◌, inl, inr}
use adbrsync.Common.{Bool-cases}
use adbrsync.Common.Text.{codes, text_eq}
use adbrsync.Core.Entry.{FilePath, path_eq, path_eq_iff}
use adbrsync.Core.Removal.{Metadata, directory, other, not_found, Disk, apply_deletions}
use adbrsync.Core.Removal.Accounts.{DiskLaws, Reported, apply_deletions-accounts}

abbrev Store : Type 0
Store = FilePath → Metadata

abbrev clear : FilePath → Store → Store
clear p s q = if path_eq q p then not_found else s q

abbrev disk : Disk Store
disk = record {
  metadata = λ p s. s p;
  remove_dir = λ p s. (none, clear p s);
  remove_file = λ p s. (none, clear p s);
}

clear_gone : (p : FilePath) (s : Store) → clear p s p ≡ not_found
clear_gone p s = rw ((path_eq_iff p p).1 refl) refl

clear_creates_none : (p q : FilePath) (s : Store) → s q ≡ not_found → clear p s q ≡ not_found
clear_creates_none p q s h = elim (Bool-cases (path_eq q p)) [ inl e ↦ rw e refl | inr e ↦ rw e h ]

laws : DiskLaws disk
laws = record {
  dir_gone = λ p s h. clear_gone p s;
  file_gone = λ p s h. clear_gone p s;
  dir_creates_none = clear_creates_none;
  file_creates_none = clear_creates_none;
}

abbrev old_file : FilePath
old_file = codes "a" ∷ codes "old" ∷ codes "f" ∷ []

abbrev old_dir : FilePath
old_dir = codes "a" ∷ codes "old" ∷ []

abbrev before : Store
before p = if path_eq p old_dir then directory else other

apply_deletions-accounts_example :
    Reported old_dir (apply_deletions disk (old_file ∷ old_dir ∷ []) before).0
    ⊎ (disk.metadata old_dir (apply_deletions disk (old_file ∷ old_dir ∷ []) before).1 ≡ not_found)
unfolding path_eq text_eq
apply_deletions-accounts_example =
    apply_deletions-accounts disk laws (old_file ∷ old_dir ∷ []) old_dir before refl
