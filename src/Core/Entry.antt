-- ===== src/Core/Entry.antt =====
-- crates/adbrsync-core/src/entry.rs: entries of the two trees, and `safe_join`.
pub mod Confined
mod Examples
use adbrsync.Common.{ℕ, Bool, true, false, ◌&&◌, ◌||◌, not, List, [], ◌∷◌, ◌++◌, Option, none, some}
use adbrsync.Common.{if◌then◌else◌, ◌==◌, keep, ◌≡◌, ◌≢◌, ◌↔◌, ◌⊎◌, inl, inr, refl, arith}
use adbrsync.Common.Int.{ℤ}
use adbrsync.Common.Text.{Text, codes, text_eq, text_eq_iff, is_empty, contains, split}

pub data EntryKind : Type 0 where
  file dir symlink : EntryKind

-- A path is the list of its components. The root of an absolute path is the empty list.
abbrev pub FilePath : Type 0
FilePath = List Text

-- An `i64` is a whole number of seconds; `size` is below 2 ^ 64.
pub record RemoteEntry : Type 0 where
  pub rel : Text
  pub remote : Text
  pub kind : EntryKind
  pub size : ℕ
  pub mtime : ℤ
  pub mode : ℕ

pub record LocalEntry : Type 0 where
  pub rel : Text
  pub path : FilePath
  pub kind : EntryKind
  pub size : ℕ
  pub mtime : ℤ

-- The tests of the loop's `match`: the parts that are skipped, and those that are refused.
abbrev pub is_skipped : Text → Bool
is_skipped part = is_empty part || text_eq part (codes ".")

abbrev pub is_refused : Text → Bool
is_refused part = text_eq part (codes "..") || contains part 0

-- The loop over `rel.split('/')`. Pushing a part with no slash adds one component.
push_parts : FilePath → List Text → Option FilePath
push_parts out [] = some out
push_parts out (part ∷ parts) = elim (is_skipped part) [
  | true ↦ push_parts out parts
  | false ↦ elim (is_refused part) [ true ↦ none | false ↦ push_parts (out ++ part ∷ []) parts ]
]

unfoldable pub safe_join : FilePath → Text → Option FilePath
unfolding push_parts
safe_join root rel = if is_empty rel then some root else push_parts root (split b'/' rel)

-- `Path::join`: an absolute path replaces the root, and components are compared without `.` parts.
unfoldable pub path_join : FilePath → Text → FilePath
path_join root [] = root
path_join root (c ∷ rel) =
    let parts = keep (λ p. not (is_skipped p)) (split b'/' (c ∷ rel)) in
    if c == b'/' then parts else root ++ parts

-- Whether two paths are the same.
unfoldable pub path_eq : FilePath → FilePath → Bool
path_eq [] [] = true
path_eq [] (c ∷ b) = false
path_eq (d ∷ a) [] = false
path_eq (d ∷ a) (c ∷ b) = text_eq d c && path_eq a b

pub path_eq_iff : (a b : FilePath) → (path_eq a b ≡ true) ↔ (a ≡ b)
unfolding path_eq
path_eq_iff [] [] = ground arith
path_eq_iff [] (c ∷ b) = ground arith
path_eq_iff (d ∷ a) [] = ground arith
path_eq_iff (d ∷ a) (c ∷ b) = ground (arith, path_eq_iff a b, text_eq_iff d c)

pub path_ne : (a b : FilePath) → path_eq a b ≡ false → a ≢ b
path_ne a b h e = ground (arith, (path_eq_iff a b).1 e)

-- `Path::starts_with`, by components.
unfoldable pub is_below : FilePath → FilePath → Bool
is_below a [] = true
is_below [] (c ∷ b) = false
is_below (d ∷ a) (c ∷ b) = text_eq d c && is_below a b

is_below-cons : (d : Text) (a b : FilePath) → is_below (d ∷ a) (d ∷ b) ≡ is_below a b
unfolding is_below
is_below-cons d a b = rw ((text_eq_iff d d).1 refl) refl

-- If a path lies in two directories, one of them lies in the other.
pub is_below_both :
    (a b r s : FilePath) → a ++ r ≡ b ++ s → (is_below a b ≡ true) ⊎ (is_below b a ≡ true)
unfolding is_below
is_below_both a [] r s h = inl (below_root a)
  where
    below_root : (x : FilePath) → is_below x [] ≡ true
    below_root [] = refl
    below_root (c ∷ x) = refl
is_below_both [] (c ∷ b) r s h = inr refl
is_below_both (d ∷ a) (c ∷ b) r s h =
    let same : d ≡ c = cc in
    let rest : a ++ r ≡ b ++ s = cc in
    rw (same, is_below-cons c a b, is_below-cons c b a) (is_below_both a b r s rest)
