-- ===== src/Cli/Destinations/Placed.antt =====
-- Where accepted destinations are placed.
use adbrsync.Common.{ℕ, zero, suc, ◌≡◌, refl, ap, sym, ◌∙◌, arith, Bool, true, false, not, ◌&&◌}
use adbrsync.Common.{◌==◌, List, [], ◌∷◌, ◌++◌, map, append-nil, append_assoc, Option, some, keep}
use adbrsync.Common.{get_elem?, All, Bool-cases, inl, inr, if◌then◌else◌}
use adbrsync.Common.Text.{
  Text, codes, text_eq, text_eq_iff, contains, is_empty, split, split_single,
}
use adbrsync.Common.Result.{ok}
use adbrsync.Core.Entry.{FilePath, is_skipped, is_below, is_below_both, path_join}
use adbrsync.Core.Entry.Confined.{split-All}
use adbrsync.Core.Scan.{last_part}
use adbrsync.Cli.Remote.{RemoteSpec}
use adbrsync.Cli.Destinations.{Found, DestArgs, placed, resolve_destinations}
use adbrsync.Cli.Destinations.Apart.{is_taken, resolve_destinations-ok, resolve_destinations-Apart}

below_rest : (a b : FilePath) → is_below a b ≡ true → (r : FilePath) × (a ≡ b ++ r)
unfolding is_below
below_rest a [] h = (a, refl)
below_rest [] (c ∷ b) h = cc
below_rest (d ∷ a) (c ∷ b) h =
    let (r, e) = below_rest a b (ground arith) in
    let same : d ≡ c = (text_eq_iff d c).0 (ground arith) in (r, rw (same, e) refl)

-- What stands in directories that are apart is apart.
below_suffixes :
    (a b s t : FilePath)
    → is_below a b ≡ false
    → is_below b a ≡ false
    → is_below (a ++ s) (b ++ t) ≡ false
below_suffixes a b s t h g = elim (Bool-cases (is_below (a ++ s) (b ++ t))) [
  | inr e ↦ e
  | inl e ↦
      let (r, same) = below_rest (a ++ s) (b ++ t) e in
      elim (is_below_both a b s (t ++ r) (same ∙ append_assoc b t r)) [ inl x ↦ cc | inr x ↦ cc ]
]

last_part-All : (P : Text → Type 0) (ps : List Text) → P [] → All P ps → P (last_part ps)
last_part-All P [] e h = e
last_part-All P (p ∷ []) e h = h.0
last_part-All P (p ∷ q ∷ ps) e h = last_part-All P (q ∷ ps) e h.1

-- The name of the source holds no slash.
name_of : RemoteSpec → Text
name_of source = last_part (split b'/' source.path)

name_of-slash : (source : RemoteSpec) → contains (name_of source) b'/' ≡ false
unfolding name_of
name_of-slash source =
    last_part-All (λ p. contains p b'/' ≡ false) (split b'/' source.path) (unfold contains in refl)
      (split-All source.path)

path_join-name :
    (root : FilePath) (name : Text)
    → contains name b'/' ≡ false
    → path_join root name ≡ root ++ keep (λ p. not (is_skipped p)) (name ∷ [])
unfolding path_join
path_join-name root [] h = sym (append-nil root)
path_join-name root (c ∷ s) h =
    let single = split_single b'/' (c ∷ s) h in
    let first : (c == b'/') ≡ false = unfold contains in ground arith in rw (first, single) refl

map_ext : (f g : Text → FilePath) (xs : List Text) → ((x : Text) → f x ≡ g x) → map f xs ≡ map g xs
map_ext f g [] h = refl
map_ext f g (x ∷ xs) h = rw (h x, map_ext f g xs h) refl

get_elem?-map_inv :
    (f : Text → FilePath) (xs : List Text) (i : ℕ) (y : FilePath)
    → get_elem? (map f xs) i ≡ some y
    → (x : Text) × (get_elem? xs i ≡ some x) × (f x ≡ y)
get_elem?-map_inv f [] i y h = cc
get_elem?-map_inv f (x ∷ xs) zero y h = (x, refl, cc)
get_elem?-map_inv f (x ∷ xs) (suc i) y h = get_elem?-map_inv f xs i y h

module _ (found : Text → Found) (create : Text → Option Text) (args : DestArgs)
    (path_of canonical : Text → FilePath) (source : RemoteSpec) (source_is_file : Bool) where
  -- The trailing-slash rule adds the same name, or none, to all.
  suffix : FilePath
  suffix =
      if not source.trailing_slash && not source_is_file && not (is_empty (name_of source))
      then keep (λ p. not (is_skipped p)) (name_of source ∷ [])
      else []

  placed-suffix :
      (roots : List Text)
      → placed found create args path_of canonical source source_is_file roots
        ≡ map (λ r. path_of r ++ suffix) roots
  unfolding placed suffix name_of
  placed-suffix roots =
      elim (Bool-cases
        (not source.trailing_slash && not source_is_file && not (is_empty (name_of source)))) [
          | inl e ↦
              rw e (map_ext _ _ roots (λ r. path_join-name (path_of r) _ (name_of-slash source)))
          | inr e ↦ rw e (map_ext _ _ roots (λ r. sym (append-nil (path_of r))))
        ]

  -- Of the places, none lies in another, if the destinations are given by their canonical paths.
  pub places_below :
      (places : List FilePath) (left : List Text) (i j : ℕ) (x y : FilePath)
      → resolve_destinations found create args path_of canonical source source_is_file
        ≡ ok (places, left)
      → ((raw : Text) → canonical raw ≡ path_of raw)
      → get_elem? places i ≡ some x
      → get_elem? places j ≡ some y
      → (i == j) ≡ false
      → is_below x y ≡ false
  places_below places left i j x y h same ex ey n =
      let roots = keep (is_taken found create args) args.dests in
      let put : places ≡ map (λ r. path_of r ++ suffix) roots =
        (resolve_destinations-ok found create args path_of canonical source source_is_file places
          left h).0
        ∙ placed-suffix roots in
      let (a, ea, fa) = get_elem?-map_inv (λ r. path_of r ++ suffix) roots i x (rw put at ex) in
      let (b, eb, fb) = get_elem?-map_inv (λ r. path_of r ++ suffix) roots j y (rw put at ey) in
      let apart =
        resolve_destinations-Apart found create args path_of canonical source source_is_file places
          left in
      let there = rw (same a, same b) at ((apart i j a b h ea eb n).1) in
      let back = rw (same a, same b) at ((apart j i b a h eb ea (ground arith)).1) in
      rw (← fa, ← fb) (below_suffixes (path_of a) (path_of b) suffix suffix there back)

  -- A source whose path ends in `..` places every accepted destination at `..` in the directory that
  -- was given, if it has no trailing slash and is no file.
  pub places-parent :
      (places : List FilePath) (left : List Text)
      → resolve_destinations found create args path_of canonical source source_is_file
        ≡ ok (places, left)
      → source.trailing_slash ≡ false
      → source_is_file ≡ false
      → last_part (split b'/' source.path) ≡ codes ".."
      → places
        ≡ map (λ r. path_of r ++ codes ".." ∷ []) (keep (is_taken found create args) args.dests)
  places-parent places left h open_end directory name =
      (resolve_destinations-ok found create args path_of canonical source source_is_file places left
        h).0
      ∙ placed-suffix _
      ∙ ap (λ s. map (λ r. path_of r ++ s) (keep (is_taken found create args) args.dests)) parent
    where
      parent : suffix ≡ codes ".." ∷ []
      parent =
          unfold suffix in unfold name_of in unfold text_eq in rw (open_end, directory, name) refl
