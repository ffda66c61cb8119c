-- ===== src/Core/Entry/Confined.antt =====
-- `safe_join` never leaves the root: what it refuses, and what it returns.
use adbrsync.Common.{true, false, ◌&&◌, not, List, [], ◌∷◌, ◌++◌, none, some}
use adbrsync.Common.{◌≡◌, refl, sym, ap, ◌∙◌, ◌↔◌, arith, append-nil, append_assoc}
use adbrsync.Common.{any, all, keep, All, if◌then◌else◌, Bool-cases, inl, inr}
use adbrsync.Common.Text.{Text, codes, text_eq, text_eq_iff, is_empty, contains, split, join}
use adbrsync.Common.Text.{split-append, split_single, split-ne-nil}
use adbrsync.Core.Entry.{FilePath, is_skipped, is_refused, push_parts, safe_join}

-- A component that names an entry of its directory.
abbrev pub IsNormal : Text → Type 0
IsNormal part =
    (is_empty part ≡ false)
    × (text_eq part (codes ".") ≡ false)
    × (text_eq part (codes "..") ≡ false)
    × (contains part 0 ≡ false)
    × (contains part b'/' ≡ false)

push_parts_lem :
    (out : FilePath) (parts : List Text)
    → push_parts out parts ≡ (
        if any (λ p. not (is_skipped p) && is_refused p) parts
        then none
        else some (out ++ keep (λ p. not (is_skipped p)) parts))
unfolding push_parts
push_parts_lem out [] = ap some (sym (append-nil out))
push_parts_lem out (p ∷ ps) = ground (
  arith,
  push_parts_lem out ps,
  push_parts_lem (out ++ p ∷ []) ps,
  append_assoc out (p ∷ []) (keep (λ p. not (is_skipped p)) ps),
)

-- The parts between the slashes hold no slash.
pub split-All : (s : Text) → All (λ p. contains p b'/' ≡ false) (split b'/' s)
unfolding split contains
split-All [] = (refl, tt)
split-All (c ∷ s) =
    let (p, ps, e) = split-ne-nil b'/' s in
    let ih : All (λ p. contains p b'/' ≡ false) (p ∷ ps) = rw e at (split-All s) in
    rw e (ground (arith, ih))

-- What is left of the parts when none of them is refused.
keep-All :
    (parts : List Text)
    → All (λ p. contains p b'/' ≡ false) parts
    → any (λ p. not (is_skipped p) && is_refused p) parts ≡ false
    → All IsNormal (keep (λ p. not (is_skipped p)) parts)
keep-All [] h none_refused = tt
keep-All (p ∷ ps) h none_refused = ground (arith, keep-All ps)

-- Whatever the device sends, a path that `safe_join` returns lies under the root: it is the root
-- followed by components that each name an entry (not empty, `.`, `..`, and no NUL or slash).
pub safe_join-confined :
    (root : FilePath) (rel : Text) (p : FilePath)
    → safe_join root rel ≡ some p
    → (parts : List Text) × (p ≡ root ++ parts) × All IsNormal parts
unfolding safe_join
safe_join-confined root [] p e = ([], ground (arith, append-nil root), tt)
safe_join-confined root (c ∷ rel) p e = (
  keep (λ p. not (is_skipped p)) (split b'/' (c ∷ rel)),
  ground (arith, push_parts_lem root (split b'/' (c ∷ rel))),
  keep-All (split b'/' (c ∷ rel)) (split-All (c ∷ rel))
      (ground (arith, push_parts_lem root (split b'/' (c ∷ rel)))),
)

-- If some part of the relative path names an entry, the path is not the root itself.
pub safe_join-named :
    (root : FilePath) (rel : Text) (p : FilePath)
    → all is_skipped (split b'/' rel) ≡ false
    → safe_join root rel ≡ some p
    → (part : Text) × (parts : FilePath) × (p ≡ root ++ part ∷ parts)
unfolding safe_join split
safe_join-named root [] p named e = ground (arith, named)
safe_join-named root (c ∷ rel) p named e =
    let (part, parts, k) = kept (split b'/' (c ∷ rel)) named in
    (part, parts, ground (arith, push_parts_lem root (split b'/' (c ∷ rel)), k))
  where
    kept :
        (ps : List Text)
        → all is_skipped ps ≡ false
        → (q : Text) × (qs : List Text) × (keep (λ x. not (is_skipped x)) ps ≡ q ∷ qs)
    kept [] h = cc
    kept (x ∷ xs) h = elim (Bool-cases (is_skipped x)) [
      | inl s ↦ let (q, qs, k) = kept xs (ground arith) in (q, qs, ground arith)
      | inr s ↦ (x, keep (λ y. not (is_skipped y)) xs, ground arith)
    ]

skipped-not_refused : (p : Text) → is_skipped p ≡ true → is_refused p ≡ false
unfolding text_eq contains
skipped-not_refused [] h = refl
skipped-not_refused (c ∷ p) h = ground (arith, text_eq_iff (c ∷ p) (codes "."))

any_refused :
    (parts : List Text) → any (λ p. not (is_skipped p) && is_refused p) parts ≡ any is_refused parts
any_refused [] = refl
any_refused (p ∷ ps) = ground (arith, any_refused ps, skipped-not_refused p)

-- A path is refused exactly when one of its parts is `..` or holds a NUL.
pub safe_join_refuses :
    (root : FilePath) (rel : Text)
    → (safe_join root rel ≡ none) ↔ (any is_refused (split b'/' rel) ≡ true)
unfolding safe_join split text_eq contains
safe_join_refuses root [] = ground arith
safe_join_refuses root (c ∷ rel) =
    ground (arith, push_parts_lem root (split b'/' (c ∷ rel)), any_refused (split b'/' (c ∷ rel)))

pub normal_parts :
    (parts : List Text)
    → All IsNormal parts
    → (any is_refused parts ≡ false) × (keep (λ p. not (is_skipped p)) parts ≡ parts)
normal_parts [] h = (refl, refl)
normal_parts (p ∷ ps) h = ground (arith, normal_parts ps)

pub split-join :
    (p : Text) (ps : List Text) → All IsNormal (p ∷ ps) → split b'/' (join b'/' (p ∷ ps)) ≡ p ∷ ps
unfolding join
split-join p [] h = split_single b'/' p h.0.4
split-join p (q ∷ qs) h =
    split-append b'/' p (join b'/' (q ∷ qs)) h.0.4 ∙ ap (λ t. p ∷ t) (split-join q qs h.1)

join_nonempty : (p : Text) (ps : List Text) → IsNormal p → is_empty (join b'/' (p ∷ ps)) ≡ false
unfolding join
join_nonempty [] [] h = cc
join_nonempty (c ∷ p) [] h = refl
join_nonempty [] (q ∷ qs) h = cc
join_nonempty (c ∷ p) (q ∷ qs) h = refl

-- Names joined by slashes come back as the components that they name.
pub safe_join-join :
    (root : FilePath) (parts : List Text)
    → All IsNormal parts
    → safe_join root (join b'/' parts) ≡ some (root ++ parts)
unfolding safe_join
safe_join-join root [] h = unfold join in ap some (sym (append-nil root))
safe_join-join root (p ∷ ps) h = ground (
  arith,
  join_nonempty p ps h.0,
  split-join p ps h,
  push_parts_lem root (p ∷ ps),
  any_refused (p ∷ ps),
  normal_parts (p ∷ ps) h,
)
