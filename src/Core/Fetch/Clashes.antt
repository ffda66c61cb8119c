-- ===== src/Core/Fetch/Clashes.antt =====
-- The paths that a fetch writes at do not clash.
use adbrsync.Common.{ℕ, ◌≡◌, ◌≢◌, refl, sym, ap, ◌∙◌, arith, false, List, [], ◌∷◌, ◌++◌, all}
use adbrsync.Common.{some, inl, inr, All, All-map, Bool-cases}
use adbrsync.Common.Text.{Text, codes, text_eq, split}
use adbrsync.Common.Result.{ok, Result-cases}
use adbrsync.Core.Entry.{FilePath, is_skipped, is_below, is_below_both, safe_join}
use adbrsync.Core.Entry.Confined.{safe_join-named}
use adbrsync.Core.Plan.{TransferItem}
use adbrsync.Core.Destinations.{DestStats}
use adbrsync.Core.Paths.{file_name, with_file_name, temp_path_for, shown_name}
use adbrsync.Core.Fetch.{Host, Target, open_target, open_targets}
use adbrsync.Core.Fetch.Moves.{TempsSpare, Apart, AllApart}

abbrev pub temp_suffix : Text
temp_suffix = codes ".adbrsync-tmp"

-- Replacing the name leaves the directories.
with_file_name-append :
    (root : FilePath) (c : Text) (cs : FilePath) (name : Text)
    → with_file_name (root ++ c ∷ cs) name ≡ root ++ with_file_name (c ∷ cs) name
unfolding with_file_name
with_file_name-append [] c cs name = refl
with_file_name-append (d ∷ []) c cs name = refl
with_file_name-append (d ∷ e ∷ root) c cs name =
    ap (λ p. d ∷ p) (with_file_name-append (e ∷ root) c cs name)

name_kept :
    (p : FilePath) (d : Text) (name : Text)
    → (c : Text) × (cs : FilePath) × (with_file_name (d ∷ p) name ≡ c ∷ cs)
unfolding with_file_name
name_kept [] d name = elim (Bool-cases (text_eq d (codes ".."))) [
  | inl e ↦ (d, name ∷ [], rw (with_file_name, e) refl)
  | inr e ↦ (name, [], rw (with_file_name, e) refl)
]
name_kept (e ∷ p) d name = (d, with_file_name (e ∷ p) name, refl)

file_name-with_file_name :
    (p : FilePath) (name : Text)
    → text_eq name (codes "..") ≡ false
    → file_name (with_file_name p name) ≡ some name
unfolding with_file_name file_name
file_name-with_file_name [] name h = rw (file_name, h) refl
file_name-with_file_name (c ∷ []) name h = elim (Bool-cases (text_eq c (codes ".."))) [
  | inl e ↦ rw (with_file_name, e) (rw (file_name, h) refl)
  | inr e ↦ rw (with_file_name, e) (rw (file_name, h) refl)
]
file_name-with_file_name (c ∷ d ∷ p) name h =
    let (x, xs, k) = name_kept p d name in rw k (rw k at (file_name-with_file_name (d ∷ p) name h))

not_dots : (s : Text) → text_eq (codes "." ++ (s ++ temp_suffix)) (codes "..") ≡ false
unfolding text_eq
not_dots [] = refl
not_dots (c ∷ []) = ground arith
not_dots (c ∷ d ∷ s) = ground arith

-- A temporary name ends in the suffix.
pub temp-file_name :
    (lossy : Text → Text) (p : FilePath)
    → (n : Text) × (file_name (temp_path_for lossy p) ≡ some (n ++ temp_suffix))
unfolding temp_path_for text_eq
temp-file_name lossy p = (
  codes "." ++ shown_name lossy (file_name p),
  file_name-with_file_name p (codes "." ++ (shown_name lossy (file_name p) ++ temp_suffix))
      (not_dots (shown_name lossy (file_name p))),
)

-- None of the destinations lies in another, or is the other.
abbrev pub RootsApart : (ℕ → FilePath) → List ℕ → Type 0
RootsApart dests [] = Unit
RootsApart dests (i ∷ is) =
    All (λ j. (is_below (dests i) (dests j) ≡ false) × (is_below (dests j) (dests i) ≡ false)) is
    × RootsApart dests is

-- The relative path names an entry below the root.
abbrev pub NamesEntry : Text → Type 0
NamesEntry rel = all is_skipped (split b'/' rel) ≡ false

abbrev Under : FilePath → FilePath → Type 0
Under root p = (rest : FilePath) × (p ≡ root ++ rest)

Under-temp :
    (lossy : Text → Text) (root : FilePath) (c : Text) (cs : FilePath) (p : FilePath)
    → p ≡ root ++ c ∷ cs
    → Under root (temp_path_for lossy p)
unfolding temp_path_for
Under-temp lossy root c cs p e =
    let name = codes "." ++ (shown_name lossy (file_name p) ++ temp_suffix) in
    (
      with_file_name (c ∷ cs) name,
      ap (λ q. with_file_name q name) e ∙ with_file_name-append root c cs name,
    )

Under-apart :
    (a b p q : FilePath)
    → is_below a b ≡ false
    → is_below b a ≡ false
    → Under a p
    → Under b q
    → q ≢ p
Under-apart a b p q h k (r, e) (s, d) same = elim (is_below_both a b r s (sym e ∙ sym same ∙ d)) [
  | inl x ↦ ground arith
  | inr x ↦ ground arith
]

module _ (lossy : Text → Text) (host : Host) (dests : ℕ → FilePath) (item : TransferItem) where
  -- Both paths of a target are in the destination.
  IsTargetOf : ℕ → Target → Type 0
  IsTargetOf i t =
      Under (dests i) t.final_path
      × Under (dests i) t.temp_path
      × (t.temp_path ≡ temp_path_for lossy t.final_path)

  final_and_temp :
      (i : ℕ) (t : Target)
      → open_target lossy host dests item i ≡ ok t
      → (safe_join (dests i) item.rel ≡ some t.final_path)
        × (t.temp_path ≡ temp_path_for lossy t.final_path)
  unfolding open_target
  final_and_temp i t e = ground arith

  open_target-IsTargetOf :
      NamesEntry item.rel
      → (i : ℕ) (t : Target) → open_target lossy host dests item i ≡ ok t
      → IsTargetOf i t
  unfolding IsTargetOf
  open_target-IsTargetOf named i t e =
      let (joined, temp) = final_and_temp i t e in
      let (part, parts, path) = safe_join-named (dests i) item.rel t.final_path named joined in
      let (rest, below) = Under-temp lossy (dests i) part parts t.final_path path in
      ((part ∷ parts, path), (rest, temp ∙ below), temp)

  open_targets-All :
      (P : Target → Type 0) (stats : ℕ → DestStats) (is : List ℕ)
      → All (λ i. (t : Target) → open_target lossy host dests item i ≡ ok t → P t) is
      → All P (open_targets lossy host dests item stats is).0
  unfolding open_targets
  open_targets-All P stats [] h = tt
  open_targets-All P stats (i ∷ is) h =
      let rest = open_targets-All P stats is h.1 in
      elim (Bool-cases (stats i).disabled) [
        | inl d ↦ rw (open_targets, d) rest
        | inr d ↦ elim (Result-cases (open_target lossy host dests item i)) [
          | inl (t, e) ↦ rw (open_targets, d, e) (h.0 t e, rest)
          | inr (m, e) ↦ rw (open_targets, d, e) rest
        ]
      ]

  -- A path that has no temporary name is spared until the file is complete.
  pub open_targets-TempsSpare :
      (stats : ℕ → DestStats) (is : List ℕ) (p : FilePath)
      → ((n : Text) → file_name p ≢ some (n ++ temp_suffix))
      → TempsSpare p (open_targets lossy host dests item stats is).0
  open_targets-TempsSpare stats is p plain =
      open_targets-All (λ t. p ≢ t.temp_path) stats is (for_all is)
    where
      for_all :
          (js : List ℕ)
          → All
              (λ i. (t : Target) → open_target lossy host dests item i ≡ ok t → p ≢ t.temp_path)
              js
      for_all [] = tt
      for_all (j ∷ js) = (
        λ t e same.
            let (n, k) = temp-file_name lossy t.final_path in
            plain n (ap file_name (same ∙ (final_and_temp j t e).1) ∙ k),
        for_all js,
      )

  -- The targets of destinations that lie apart do not clash.
  pub open_targets-AllApart :
      (stats : ℕ → DestStats) (is : List ℕ)
      → NamesEntry item.rel
      → RootsApart dests is
      → AllApart (open_targets lossy host dests item stats is).0
  unfolding open_targets IsTargetOf
  open_targets-AllApart stats [] named apart = tt
  open_targets-AllApart stats (i ∷ is) named apart =
      let rest = open_targets-AllApart stats is named apart.1 in
      elim (Bool-cases (stats i).disabled) [
        | inl d ↦ rw (open_targets, d) rest
        | inr d ↦ elim (Result-cases (open_target lossy host dests item i)) [
          | inl (t, e) ↦
              rw (open_targets, d, e)
                (
                  open_targets-All (Apart t) stats is (
                      All-map _ _ is
                        (λ j k u q.
                          let (tf, tt', tp) = open_target-IsTargetOf named i t e in
                          let (uf, ut, up) = open_target-IsTargetOf named j u q in
                          (
                            Under-apart (dests i) (dests j) _ _ k.0 k.1 tt' ut,
                            Under-apart (dests i) (dests j) _ _ k.0 k.1 tf ut,
                            Under-apart (dests i) (dests j) _ _ k.0 k.1 tf uf,
                          ))
                        apart.0),
                  rest,
                )
          | inr (m, e) ↦ rw (open_targets, d, e) rest
        ]
      ]
