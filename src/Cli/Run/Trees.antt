-- ===== src/Cli/Run/Trees.antt =====
-- Runs over destinations that are walked: one with a plain name, and one whose name begins with a
-- backslash.
use mathlib.Core.List.{mem-cons_self}
use adbrsync.Common.{
  ◌≡◌, refl, ap, sym, ◌∙◌, true, false, List, [], ◌∷◌, ◌++◌, some, length, length-map, All, map,
}
use adbrsync.Common.Text.{Text, codes, contains, split, text_eq, join}
use adbrsync.Common.Sort.{sort_by}
use adbrsync.Common.TextOrder.{dedup}
use adbrsync.Common.Int.{pos}
use adbrsync.Common.Result.{Result, ok}
use adbrsync.Core.Entry.{file, LocalEntry, FilePath, path_join}
use adbrsync.Core.Plan.{is_empty_plan, build}
use adbrsync.Core.Pool.Gathering.{empty_report}
use adbrsync.Core.Scan.{RemoteScan}
use adbrsync.Core.LocalScan.{Found, scan_local}
use adbrsync.Core.LocalScan.Paths.{IsPlainItem}
use adbrsync.Cli.Run.{World, run}
use adbrsync.Cli.Run.Cleaned.{OneEach, IsRemoved}
use adbrsync.Cli.Run.Named.{RemovesFound, run-RemovesFound, run-cleans_found}
use adbrsync.Cli.Run.Escapes.{backslashed, absolute-IsRemoved}
use adbrsync.Cli.Run.Examples.{photo, root, args, none_match, world}

abbrev as_is : Text → Text
as_is t = t

abbrev found : FilePath → Result Text Found
found path = ok (record {
  path = path;
  metadata =
      ok
        (record { is_dir = false; is_symlink = false; len = 10; modified = some (pos 1500000000) });
})

-- Each destination has one file of this name.
abbrev items_of : Text → FilePath → List (Result Text Found)
items_of name r = found (r ++ name ∷ []) ∷ []

abbrev walked : Text → World
walked name = record world { scan_local = λ r. scan_local as_is r true (items_of name r) }

abbrev entry_of : Text → Text → LocalEntry
entry_of name rel = record {
  rel = rel;
  path = root ++ name ∷ [];
  kind = file;
  size = 10;
  mtime = pos 1;
}

abbrev remote : RemoteScan
remote = record { root = codes "/sdcard"; entries = photo ∷ []; denied = [] }

one_each : (name : Text) → OneEach args (walked name)
one_each name es roots locals ds h =
    let same : map none_match roots ≡ ds = cc in sym (ap length same) ∙ length-map none_match roots

abbrev old : Text
old = codes "old"

old_plain : (r : FilePath) → All (IsPlainItem as_is r) (items_of old r)
unfolding contains text_eq join
old_plain r = ((old, [], refl, ((refl, refl, refl, refl, refl), tt), refl, refl), tt)

run-RemovesFound_example :
    All
      (RemovesFound args (walked old) as_is (λ r. true) (items_of old) (λ r. refl) old_plain)
      (run args (walked old)).actions
run-RemovesFound_example =
    run-RemovesFound args (walked old) as_is (λ r. true) (items_of old) (λ r. refl) old_plain

run-cleans_found_example : IsRemoved (run args (walked old)).actions (root ++ old ∷ [])
unfolding run is_empty_plan build sort_by contains dedup path_join split text_eq empty_report
    scan_local join
run-cleans_found_example =
    run-cleans_found args (walked old) as_is (λ r. true) (items_of old) (λ r. refl) old_plain
      (one_each old) remote 0 root (entry_of old old ∷ []) (entry_of old old) (root ∷ []) [] 0 refl
      refl refl refl mem-cons_self refl refl refl refl refl

-- A file named \etc\f
abbrev parts : List Text
parts = codes "etc" ∷ codes "f" ∷ []

absolute-IsRemoved_example : IsRemoved (run args (walked (backslashed parts))).actions parts
unfolding run is_empty_plan build sort_by contains dedup path_join split text_eq empty_report
    scan_local join
absolute-IsRemoved_example =
    let name = backslashed parts in
    absolute-IsRemoved args (walked name) as_is true (items_of name root) remote 0 root
      (entry_of name (codes "/etc/f") ∷ []) (entry_of name (codes "/etc/f")) (codes "etc")
      (codes "f" ∷ []) (root ∷ []) [] 0 (one_each name) refl refl refl refl refl mem-cons_self refl
      (((refl, refl, refl, refl, refl), refl), (((refl, refl, refl, refl, refl), refl), tt)) refl
      refl refl refl refl refl
