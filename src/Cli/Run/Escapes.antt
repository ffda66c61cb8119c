-- ===== src/Cli/Run/Escapes.antt =====
-- A name that begins with a backslash, which `scan_local` takes for the root of the file system.
use mathlib.Core.Path.{subst}
use native.Mathlib.Nat.{ℕ_set}
use mathlib.Core.List.{Mem}
use adbrsync.Common.{ℕ, ◌≡◌, refl, ap, sym, ◌∙◌, Bool, true, false, List, [], ◌∷◌, ◌++◌}
use adbrsync.Common.{any, some, get_elem?, All, ◌==◌, if◌then◌else◌}
use adbrsync.Common.Indexed.{mem-All}
use adbrsync.Common.Text.{Text, contains, split, join}
use adbrsync.Common.Result.{Result, ok}
use adbrsync.Core.Entry.{FilePath, LocalEntry, path_join}
use adbrsync.Core.Entry.Confined.{IsNormal, split-join, normal_parts}
use adbrsync.Core.Plan.Spec.{names}
use adbrsync.Core.Scan.{RemoteScan}
use adbrsync.Core.LocalScan.{Found, to_slashes, rel_of, scan_local}
use adbrsync.Core.LocalScan.Paths.{
  local_entry-rel, scan_local-All, to_slashes_same, strip_path-append,
}
use adbrsync.Cli.Remote.{is_file_probe}
use adbrsync.Cli.Run.{RunArgs, World, run}
use adbrsync.Cli.Run.Looking.{entries_of}
use adbrsync.Cli.Run.Cleaned.{OneEach, IsRemoved, run-cleans}

-- A component that names an entry and holds no backslash.
abbrev pub IsPlainName : Text → Type 0
IsPlainName part = IsNormal part × (contains part 92 ≡ false)

-- The name of one file: each of the parts after a backslash.
abbrev pub backslashed : List Text → Text
backslashed parts = join 92 ([] ∷ parts)

to_slashes-append : (s t : Text) → to_slashes (s ++ t) ≡ to_slashes s ++ to_slashes t
unfolding to_slashes
to_slashes-append [] t = refl
to_slashes-append (c ∷ s) t = ap (λ u. (if c == 92 then b'/' else c) ∷ u) (to_slashes-append s t)

to_slashes-join :
    (p : Text) (ps : List Text)
    → All IsPlainName (p ∷ ps)
    → to_slashes (join 92 (p ∷ ps)) ≡ join b'/' (p ∷ ps)
unfolding join to_slashes
to_slashes-join p [] h = to_slashes_same p h.0.1
to_slashes-join p (q ∷ qs) h =
    to_slashes-append p (92 ∷ join 92 (q ∷ qs))
    ∙ rw (to_slashes_same p h.0.1, to_slashes-join q qs h.1) refl

plain-IsNormal : (ps : List Text) → All IsPlainName ps → All IsNormal ps
plain-IsNormal [] h = tt
plain-IsNormal (p ∷ ps) h = (h.0.0, plain-IsNormal ps h.1)

module _ (lossy : Text → Text) (root : FilePath) (p : Text) (ps : List Text)
    (plain : All IsPlainName (p ∷ ps))
    (text : lossy (backslashed (p ∷ ps)) ≡ backslashed (p ∷ ps)) where
  rel_of-backslashed :
      rel_of lossy root (root ++ backslashed (p ∷ ps) ∷ []) ≡ b'/' ∷ join b'/' (p ∷ ps)
  unfolding rel_of join to_slashes
  rel_of-backslashed =
      rw (strip_path-append root (backslashed (p ∷ ps) ∷ []), text)
        (ap (λ t. b'/' ∷ t) (to_slashes-join p ps plain))

  -- The join ignores the root.
  path_join-absolute : path_join root (b'/' ∷ join b'/' (p ∷ ps)) ≡ p ∷ ps
  unfolding path_join split
  path_join-absolute =
      rw (split-join p ps (plain-IsNormal (p ∷ ps) plain))
        ((normal_parts (p ∷ ps) (plain-IsNormal (p ∷ ps) plain)).1)

text_set : IsSet Text
text_set = hlevel ℕ_set

abbrev Anything : Result Text Found → Type 0
Anything item = Unit {0}

All-Anything : (items : List (Result Text Found)) → All Anything items
All-Anything [] = tt
All-Anything (item ∷ items) = (tt, All-Anything items)

module _ (lossy : Text → Text) (root : FilePath) where
  abbrev OfPath : LocalEntry → Type 0
  OfPath e = e.rel ≡ rel_of lossy root e.path

  entry_rel :
      (exists : Bool) (items : List (Result Text Found)) (local : List LocalEntry)
      → scan_local lossy root exists items ≡ ok local
      → All OfPath local
  entry_rel exists items local h =
      scan_local-All lossy root OfPath Anything
        (λ item e any f.
          let (found, is, path, rel) = local_entry-rel lossy root item e f in
          rel ∙ ap (rel_of lossy root) (sym path))
        exists items local (All-Anything items) h

-- With --delete and outside a dry run, let a run end with an exit code, and let the scan of a
-- destination find a file in its top directory whose name is a backslash and parts with backslashes
-- between them, such that the filter accepts the relative path that scan_local gives it, which is that
-- of no considered device entry which the filter accepts. Then the run has asked for the removal of
-- the path of these parts from the root of the file system, if the parts are normal, the name is a
-- text, and the comparison of contents answers once for each destination.
pub absolute-IsRemoved :
    (args : RunArgs) (world : World) (lossy : Text → Text) (exists : Bool)
    (items : List (Result Text Found)) (remote : RemoteScan) (i : ℕ) (root : FilePath)
    (local : List LocalEntry) (entry : LocalEntry) (p : Text) (ps : List Text)
    (roots : List FilePath) (absent : List Text) (c : ℕ)
    → OneEach args world
    → world.destinations (is_file_probe world.probe) ≡ ok (roots, absent)
    → get_elem? roots i ≡ some root
    → world.scan_remote ≡ ok remote
    → world.scan_local root ≡ ok local
    → scan_local lossy root exists items ≡ ok local
    → Mem entry local
    → entry.path ≡ root ++ backslashed (p ∷ ps) ∷ []
    → All IsPlainName (p ∷ ps)
    → lossy (backslashed (p ∷ ps)) ≡ backslashed (p ∷ ps)
    → args.delete ≡ true
    → world.accepts entry.rel ≡ true
    → any (names world.accepts entry.rel) (entries_of args world remote) ≡ false
    → args.dry_run ≡ false
    → (run args world).result ≡ ok c
    → IsRemoved (run args world).actions (p ∷ ps)
absolute-IsRemoved args world lossy exists items remote i root local entry p ps roots absent c
      one_each placed at scanned walked read found path plain text asked accepted unwanted dry
      result =
    let rel : entry.rel ≡ b'/' ∷ join b'/' (p ∷ ps) =
      mem-All (OfPath lossy root) (text_set _ _) found
        (entry_rel lossy root exists items local read)
      ∙ ap (rel_of lossy root) path
      ∙ rel_of-backslashed lossy root p ps plain text in
    subst (IsRemoved (run args world).actions)
      (ap (path_join root) rel ∙ path_join-absolute lossy root p ps plain text)
      (run-cleans args world one_each remote i root local entry scanned walked found asked accepted
        unwanted roots absent c placed at dry result)
