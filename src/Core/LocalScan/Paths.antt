-- ===== src/Core/LocalScan/Paths.antt =====
-- The paths of the entries of a destination, and the files that they name.
use adbrsync.Common.{ℕ, ◌≡◌, refl, ap, sym, ◌∙◌, arith, Bool, true, false, not, List, [], ◌∷◌, ◌++◌}
use adbrsync.Common.{some, keep, All, ◌==◌, inl, inr}
use adbrsync.Common.Text.{Text, text_eq_iff, contains, split, join}
use adbrsync.Common.Result.{Result, ok, err, ◌>>=◌, Result-cases}
use adbrsync.Core.Entry.{FilePath, LocalEntry, is_skipped, safe_join, path_join}
use adbrsync.Core.Entry.Confined.{IsNormal, split-join, normal_parts, safe_join-join}
use adbrsync.Core.Error.{CoreError}
use adbrsync.Core.LocalScan.{Found, strip_path, to_slashes, rel_of}
use adbrsync.Core.LocalScan.{local_entry, local_entries, scan_local}

pub strip_path-append : (root ps : FilePath) → strip_path root (root ++ ps) ≡ some ps
unfolding strip_path
strip_path-append [] ps = refl
strip_path-append (c ∷ root) ps = rw ((text_eq_iff c c).1 refl, strip_path-append root ps) refl

pub to_slashes_same : (s : Text) → contains s 92 ≡ false → to_slashes s ≡ s
unfolding to_slashes contains
to_slashes_same [] h = refl
to_slashes_same (c ∷ s) h = ground (arith, to_slashes_same s)

path_join-cons :
    (root : FilePath) (c : ℕ) (s : Text)
    → (c == b'/') ≡ false
    → path_join root (c ∷ s) ≡ root ++ keep (λ p. not (is_skipped p)) (split b'/' (c ∷ s))
unfolding path_join
path_join-cons root c s h = rw h refl

join_head :
    (p : Text) (ps : List Text)
    → IsNormal p
    → (c : ℕ) × (s : Text) × (join b'/' (p ∷ ps) ≡ c ∷ s) × ((c == b'/') ≡ false)
unfolding join contains
join_head [] ps h = cc
join_head (c ∷ p) [] h = (c, p, refl, ground arith)
join_head (c ∷ p) (q ∷ qs) h = (c, p ++ b'/' ∷ join b'/' (q ∷ qs), refl, ground arith)

path_join-join :
    (root : FilePath) (p : Text) (ps : List Text)
    → All IsNormal (p ∷ ps)
    → path_join root (join b'/' (p ∷ ps)) ≡ root ++ p ∷ ps
path_join-join root p ps h =
    let (c, s, e, first) = join_head p ps h.0 in
    let parts : keep (λ q. not (is_skipped q)) (split b'/' (c ∷ s)) ≡ p ∷ ps =
      rw (← e) (rw (split-join p ps h) ((normal_parts (p ∷ ps) h).1)) in
    rw e (path_join-cons root c s first ∙ ap (λ t. root ++ t) parts)

module _ (lossy : Text → Text) (root : FilePath) where
  -- The walk yields paths below its root, by the names of their components. Here the names hold no
  -- backslash and are texts.
  abbrev pub IsPlain : FilePath → Type 0
  IsPlain path =
      (p : Text) × (ps : List Text) × (path ≡ root ++ p ∷ ps)
      × All IsNormal (p ∷ ps)
      × (contains (join b'/' (p ∷ ps)) 92 ≡ false)
      × (lossy (join b'/' (p ∷ ps)) ≡ join b'/' (p ∷ ps))

  abbrev pub IsPlainItem : Result Text Found → Type 0
  IsPlainItem (ok found) = IsPlain found.path
  IsPlainItem (err e) = Unit {0}

  -- Both ways to join the relative path of an entry to the root lead back to the file.
  abbrev pub NamesItself : LocalEntry → Type 0
  NamesItself e = (safe_join root e.rel ≡ some e.path) × (path_join root e.rel ≡ e.path)

  rel_of_plain :
      (path : FilePath)
      → IsPlain path
      → (safe_join root (rel_of lossy root path) ≡ some path)
        × (path_join root (rel_of lossy root path) ≡ path)
  unfolding rel_of
  rel_of_plain path (p, ps, e, normal, plain, text) =
      rw (e, strip_path-append root (p ∷ ps), text, to_slashes_same _ plain)
        (safe_join-join root (p ∷ ps) normal, path_join-join root p ps normal)

  local_entries-cons :
      (item : Result Text Found) (items : List (Result Text Found))
      → local_entries lossy root (item ∷ items) ≡ (
          local_entry lossy root item >>= λ e. local_entries lossy root items >>= λ es. ok (e ∷ es))
  unfolding local_entries
  local_entries-cons item items = refl

  -- What holds of each entry that an item becomes holds of all that are returned.
  pub local_entries-All :
      (P : LocalEntry → Type 0) (Q : Result Text Found → Type 0)
      → ((item : Result Text Found) (e : LocalEntry)
          → Q item
          → local_entry lossy root item ≡ ok e
          → P e)
      → (items : List (Result Text Found)) (es : List LocalEntry) → All Q items
      → local_entries lossy root items ≡ ok es
      → All P es
  local_entries-All P Q step [] es h e =
      let same : es ≡ [] = unfold local_entries in cc in rw same tt
  local_entries-All P Q step (item ∷ items) es h e =
      elim (Result-cases (local_entry lossy root item)) [
        | inr (x, f) ↦ cc (rw (local_entries-cons item items, f) at e)
        | inl (first, f) ↦ elim (Result-cases (local_entries lossy root items)) [
          | inr (x, g) ↦ cc (rw (local_entries-cons item items, f, g) at e)
          | inl (rest, g) ↦
              let r = rw (local_entries-cons item items, f, g) at e in
              let same : first ∷ rest ≡ es = cc r in
              rw (← same) (step item first h.0 f, local_entries-All P Q step items rest h.1 g)
        ]
      ]

  pub scan_local-All :
      (P : LocalEntry → Type 0) (Q : Result Text Found → Type 0)
      → ((item : Result Text Found) (e : LocalEntry)
          → Q item
          → local_entry lossy root item ≡ ok e
          → P e)
      → (exists : Bool) (items : List (Result Text Found)) (es : List LocalEntry) → All Q items
      → scan_local lossy root exists items ≡ ok es
      → All P es
  scan_local-All P Q step true items es h e =
      local_entries-All P Q step items es h (unfold scan_local in e)
  scan_local-All P Q step false items es h e =
      let same : es ≡ [] = unfold scan_local in cc in rw same tt

  -- The entry of an item has its path, and the text of that for its name.
  pub local_entry-rel :
      (item : Result Text Found) (e : LocalEntry)
      → local_entry lossy root item ≡ ok e
      → (found : Found) × (item ≡ ok found)
        × (e.path ≡ found.path)
        × (e.rel ≡ rel_of lossy root found.path)
  unfolding local_entry
  local_entry-rel (err x) e h = cc
  local_entry-rel (ok found) e h = elim (Result-cases found.metadata) [
    | inr (x, f) ↦ cc (rw f at h)
    | inl (meta, f) ↦ let r = rw f at h in (found, refl, sym (ap path_or r), sym (ap rel_or r))
  ]
    where
      path_or : Result CoreError LocalEntry → FilePath
      path_or (ok x) = x.path
      path_or (err x) = []

      rel_or : Result CoreError LocalEntry → Text
      rel_or (ok x) = x.rel
      rel_or (err x) = []

  named_step :
      (item : Result Text Found) (e : LocalEntry)
      → IsPlainItem item
      → local_entry lossy root item ≡ ok e
      → NamesItself e
  named_step item e plain h =
      let (found, is_found, path, rel) = local_entry-rel item e h in
      let plain' : IsPlain found.path = rw is_found at plain in
      rw (path, rel) (rel_of_plain found.path plain')

  -- In a tree whose names hold no backslash and are texts, the relative path of each entry that is
  -- returned leads back to its file, both by `safe_join`, by which files are written, and by the
  -- join by which they are deleted.
  pub scan_local-named :
      (exists : Bool) (items : List (Result Text Found)) (es : List LocalEntry)
      → All IsPlainItem items
      → scan_local lossy root exists items ≡ ok es
      → All NamesItself es
  scan_local-named exists items es plain h =
      scan_local-All NamesItself IsPlainItem named_step exists items es plain h
