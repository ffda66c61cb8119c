-- ===== src/Core/Removal/Accounts.antt =====
-- Every path that is to be deleted is gone or reported.
use adbrsync.Common.{◌≡◌, refl, arith, true, List, [], ◌∷◌, ◌++◌, ◌⊎◌, inl, inr}
use adbrsync.Common.{none, any, any-append, Option-cases, Bool-cases}
use adbrsync.Common.Text.{Text}
use adbrsync.Core.Entry.{FilePath, path_eq, path_eq_iff}
use adbrsync.Core.Removal.{
  Metadata, directory, other, not_found, unreadable, Disk, attempt, complaint,
}
use adbrsync.Core.Removal.{apply_deletions}

-- A failure is reported of the path.
abbrev pub Reported : FilePath → List (FilePath × Text) → Type 0
Reported p errors = any (λ e. path_eq e.0 p) errors ≡ true

Reported-self : (p : FilePath) (m : Text) → Reported p ((p, m) ∷ [])
Reported-self p m = ground (arith, (path_eq_iff p p).1 refl)

Reported-first :
    (p : FilePath) (xs ys : List (FilePath × Text)) → Reported p xs → Reported p (xs ++ ys)
Reported-first p xs ys h = ground (arith, any-append (λ e. path_eq e.0 p) xs ys)

Reported-last :
    (p : FilePath) (xs ys : List (FilePath × Text)) → Reported p ys → Reported p (xs ++ ys)
Reported-last p xs ys h = ground (arith, any-append (λ e. path_eq e.0 p) xs ys)

-- What a file system documents: a removal that succeeds leaves nothing at the path, and
-- a removal creates nothing.
pub record DiskLaws {ℓ} {S : Type ℓ} (disk : Disk S) : Type ℓ where
  pub dir_gone :
      (p : FilePath) (s : S)
      → (disk.remove_dir p s).0 ≡ none
      → disk.metadata p (disk.remove_dir p s).1 ≡ not_found
  pub file_gone :
      (p : FilePath) (s : S)
      → (disk.remove_file p s).0 ≡ none
      → disk.metadata p (disk.remove_file p s).1 ≡ not_found
  pub dir_creates_none :
      (p q : FilePath) (s : S)
      → disk.metadata q s ≡ not_found
      → disk.metadata q (disk.remove_dir p s).1 ≡ not_found
  pub file_creates_none :
      (p q : FilePath) (s : S)
      → disk.metadata q s ≡ not_found
      → disk.metadata q (disk.remove_file p s).1 ≡ not_found

module _ {ℓ} {S : Type ℓ} (disk : Disk S) (laws : DiskLaws disk) where
  attempt_creates_none :
      (m : Metadata) (p q : FilePath) (s : S)
      → disk.metadata q s ≡ not_found
      → disk.metadata q (attempt disk m p s).1 ≡ not_found
  unfolding attempt
  attempt_creates_none directory p q s h = laws.dir_creates_none p q s h
  attempt_creates_none other p q s h = laws.file_creates_none p q s h
  attempt_creates_none not_found p q s h = h
  attempt_creates_none (unreadable m) p q s h = h

  deletions_create_none :
      (paths : List FilePath) (q : FilePath) (s : S)
      → disk.metadata q s ≡ not_found
      → disk.metadata q (apply_deletions disk paths s).1 ≡ not_found
  unfolding apply_deletions
  deletions_create_none [] q s h = h
  deletions_create_none (p ∷ ps) q s h =
      deletions_create_none ps q _ (attempt_creates_none (disk.metadata p s) p q s h)

  -- The attempt at a path removes what is there, or is reported.
  attempt_settles :
      (m : Metadata) (p : FilePath) (s : S)
      → disk.metadata p s ≡ m
      → Reported p (complaint disk p (attempt disk m p s).0)
        ⊎ (disk.metadata p (attempt disk m p s).1 ≡ not_found)
  unfolding attempt
  attempt_settles directory p s h = elim (Option-cases (disk.remove_dir p s).0) [
    | inl e ↦ inr (laws.dir_gone p s e)
    | inr (m, e) ↦ inl (rw e (Reported-self p m))
  ]
  attempt_settles other p s h = elim (Option-cases (disk.remove_file p s).0) [
    | inl e ↦ inr (laws.file_gone p s e)
    | inr (m, e) ↦ inl (rw e (Reported-self p m))
  ]
  attempt_settles not_found p s h = inr h
  attempt_settles (unreadable m) p s h = inl (Reported-self p m)

  abbrev IsSettled : FilePath → List FilePath → S → Type 0
  IsSettled p paths s =
      Reported p (apply_deletions disk paths s).0
      ⊎ (disk.metadata p (apply_deletions disk paths s).1 ≡ not_found)

  first_settles : (p : FilePath) (ps : List FilePath) (s : S) → IsSettled p (p ∷ ps) s
  unfolding apply_deletions
  first_settles p ps s =
      let tried = attempt disk (disk.metadata p s) p s in
      elim (attempt_settles (disk.metadata p s) p s refl) [
        | inl r ↦ inl (Reported-first p (complaint disk p tried.0) _ r)
        | inr g ↦ inr (deletions_create_none ps p _ g)
      ]

  -- Every path that is to be deleted is reported, or nothing is found there afterwards, if the
  -- file system's removals do what they document.
  pub apply_deletions-accounts :
      (paths : List FilePath) (p : FilePath) (s : S)
      → any (path_eq p) paths ≡ true
      → Reported p (apply_deletions disk paths s).0
        ⊎ (disk.metadata p (apply_deletions disk paths s).1 ≡ not_found)
  unfolding apply_deletions
  apply_deletions-accounts [] p s h = cc
  apply_deletions-accounts (q ∷ qs) p s h = elim (Bool-cases (path_eq p q)) [
    | inl e ↦ rw ((path_eq_iff p q).0 e) (first_settles q qs s)
    | inr e ↦ elim (apply_deletions-accounts qs p _ (ground arith)) [
      | inl r ↦
          inl (Reported-last p (complaint disk q (attempt disk (disk.metadata q s) q s).0) _ r)
      | inr g ↦ inr g
    ]
  ]
