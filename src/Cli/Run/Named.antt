-- ===== src/Cli/Run/Named.antt =====
-- What `run` removes in destinations whose names hold no backslash and are texts: there an entry's
-- relative path leads back to its file.
use mathlib.Core.Path.{subst}
use mathlib.Core.List.{Mem}
use native.Mathlib.Nat.{ℕ_set}
use adbrsync.Common.{ℕ, ◌≡◌, sym, ◌∙◌, Bool, true, false, List, any, some, get_elem?, All, All-map}
use adbrsync.Common.Indexed.{mem-All}
use adbrsync.Common.Text.{Text}
use adbrsync.Common.Result.{Result, ok}
use adbrsync.Core.Entry.{FilePath, LocalEntry, path_join}
use adbrsync.Core.Plan.Spec.{names}
use adbrsync.Core.Scan.{RemoteScan}
use adbrsync.Core.LocalScan.{Found, scan_local}
use adbrsync.Core.LocalScan.Paths.{IsPlainItem, NamesItself, scan_local-named}
use adbrsync.Cli.Remote.{is_file_probe}
use adbrsync.Cli.Run.{RunArgs, World, Action, prepare, copy, remove_all, run}
use adbrsync.Cli.Run.Looking.{entries_of}
use adbrsync.Cli.Run.Removing.{IsSurplus, Removes, run-Removes}
use adbrsync.Cli.Run.Cleaned.{OneEach, IsRemoved, run-cleans}

pub path_set : IsSet FilePath
path_set = hlevel ℕ_set

module _ (args : RunArgs) (world : World) (lossy : Text → Text) (exists : FilePath → Bool)
    (items : FilePath → List (Result Text Found))
    (walks : (r : FilePath) → world.scan_local r ≡ scan_local lossy r (exists r) (items r))
    (plain : (r : FilePath) → All (IsPlainItem lossy r) (items r)) where
  entry_path :
      (root : FilePath) (local : List LocalEntry) (entry : LocalEntry)
      → world.scan_local root ≡ ok local
      → Mem entry local
      → path_join root entry.rel ≡ entry.path
  entry_path root local entry walked found =
      mem-All (λ (e : LocalEntry). path_join root e.rel ≡ e.path) (path_set _ _) found
        (All-map (NamesItself lossy root) _ local (λ e n. n.1)
          (scan_local-named lossy root (exists root) (items root) local (plain root)
            (sym (walks root) ∙ walked)))

  -- The path of an entry that the scan of a destination found and that is surplus.
  abbrev pub IsFound : FilePath → Type 0
  IsFound path = (s : IsSurplus args world path) × (path ≡ s.entry.path)

  abbrev pub RemovesFound : Action → Type 0
  RemovesFound (prepare p) = Unit {0}
  RemovesFound (copy p) = Unit {0}
  RemovesFound (remove_all paths) = (args.dry_run ≡ false) × All IsFound paths

  surplus-IsFound : (path : FilePath) → IsSurplus args world path → IsFound path
  surplus-IsFound path s = (s, s.named ∙ entry_path s.root s.local s.entry s.walked s.found)

  removes_found : (a : Action) → Removes args world a → RemovesFound a
  removes_found (prepare p) r = tt
  removes_found (copy p) r = tt
  removes_found (remove_all paths) r =
      (r.0, All-map (IsSurplus args world) IsFound paths surplus-IsFound r.1)

  -- Over destinations that scan_local has read, in which no name holds a backslash and all are texts,
  -- a run removes nothing in a dry run or without --delete. Whatever it removes is the path of an entry
  -- that the scan of one of its destinations found, that the filter accepts, and whose relative path
  -- is that of no considered device entry which the filter accepts.
  pub run-RemovesFound : All RemovesFound (run args world).actions
  run-RemovesFound =
      All-map (Removes args world) RemovesFound (run args world).actions removes_found
        (run-Removes args world)

  -- Over destinations that scan_local has read, in which no name holds a backslash and all are texts,
  -- with --delete and outside a dry run, a run that ends with an exit code has asked for the removal
  -- of the path of every entry of a destination's scan that the filter accepts and whose relative path
  -- is that of no considered device entry which the filter accepts, if the comparison of contents
  -- answers once for each destination.
  pub run-cleans_found :
      OneEach args world
      → (remote : RemoteScan) (i : ℕ) (root : FilePath) (local : List LocalEntry)
        (entry : LocalEntry) (roots : List FilePath) (absent : List Text) (c : ℕ)
      → world.destinations (is_file_probe world.probe) ≡ ok (roots, absent)
      → get_elem? roots i ≡ some root
      → world.scan_remote ≡ ok remote
      → world.scan_local root ≡ ok local
      → Mem entry local
      → args.delete ≡ true
      → world.accepts entry.rel ≡ true
      → any (names world.accepts entry.rel) (entries_of args world remote) ≡ false
      → args.dry_run ≡ false
      → (run args world).result ≡ ok c
      → IsRemoved (run args world).actions entry.path
  run-cleans_found one_each remote i root local entry roots absent c placed at scanned walked found
        asked accepted unwanted dry result =
      subst (IsRemoved (run args world).actions) (entry_path root local entry walked found) (
        run-cleans args world one_each remote i root local entry scanned walked found asked accepted
          unwanted roots absent c placed at dry result)
