-- ===== src/Core/LocalScan/Examples.antt =====
-- A destination with one plain file and one whose name holds a backslash.
use mathlib.Core.List.{Mem, mem-cons_self}
use adbrsync.Common.{◌==◌, ◌≡◌, refl, true, false, any, List, [], ◌∷◌, ◌++◌, none, some}
use adbrsync.Common.{All}
use adbrsync.Common.Text.{Text, codes, text_eq, contains, join}
use adbrsync.Common.Int.{pos}
use adbrsync.Common.Result.{Result, ok, err}
use adbrsync.Core.Entry.{FilePath, file, LocalEntry, RemoteEntry}
use adbrsync.Core.Error.{local_scan}
use adbrsync.Core.Plan.{PlanOptions, DestState, TransferItem, build}
use adbrsync.Core.Plan.Spec.{is_candidate}
use adbrsync.Core.LocalScan.{Found, scan_local}
use adbrsync.Core.LocalScan.Paths.{NamesItself, scan_local-named}
use adbrsync.Core.LocalScan.Backslash.{backslash-again}

abbrev root : FilePath
root = codes "backup" ∷ []

abbrev as_is : Text → Text
as_is t = t

abbrev found : FilePath → Result Text Found
found path = ok (record {
  path = path;
  metadata =
      ok
        (record { is_dir = false; is_symlink = false; len = 10; modified = some (pos 1500000000) });
})

abbrev plain_items : List (Result Text Found)
plain_items = found (root ++ codes "DCIM" ∷ codes "a" ∷ []) ∷ found (root ++ codes "b" ∷ []) ∷ []

abbrev entry : FilePath → Text → LocalEntry
entry path rel = record { rel = rel; path = path; kind = file; size = 10; mtime = pos 1 }

abbrev plain_entries : List LocalEntry
plain_entries =
    entry (root ++ codes "DCIM" ∷ codes "a" ∷ []) (codes "DCIM/a")
    ∷ entry (root ++ codes "b" ∷ []) (codes "b")
    ∷ []

plain_test : scan_local as_is root true plain_items ≡ ok plain_entries
unfolding scan_local join text_eq
plain_test = refl

missing_test : scan_local as_is root false plain_items ≡ ok []
unfolding scan_local
missing_test = refl

error_test :
    scan_local as_is root true (found root ∷ err (codes "denied") ∷ [])
    ≡ err (local_scan (codes "denied"))
unfolding scan_local
error_test = refl

-- The name x\y is one component.
abbrev slashed_items : List (Result Text Found)
slashed_items = found (root ++ (120 ∷ 92 ∷ 121 ∷ []) ∷ []) ∷ []

abbrev slashed_entries : List LocalEntry
slashed_entries = entry (root ++ (120 ∷ 92 ∷ 121 ∷ []) ∷ []) (codes "x/y") ∷ []

slashed_test : scan_local as_is root true slashed_items ≡ ok slashed_entries
unfolding scan_local join text_eq
slashed_test = refl

abbrev slashed : RemoteEntry
slashed = record {
  rel = 120 ∷ 92 ∷ 121 ∷ [];
  remote = codes "/sd/x";
  kind = file;
  size = 10;
  mtime = pos 1;
  mode = 0o644;
}

abbrev opts : PlanOptions
opts = record {
  delete = false;
  mtime_tolerance = pos 1;
  min_size = none;
  max_size = none;
  checksum = false;
}

abbrev dest : DestState
dest = record { root = root; local = slashed_entries; digests = record { matched = λ rel. false } }

scan_local-named_example : All (NamesItself as_is root) plain_entries
unfolding text_eq contains join
scan_local-named_example =
    scan_local-named as_is root true plain_items plain_entries
      (
        (
          codes "DCIM",
          codes "a" ∷ [],
          refl,
          ((refl, refl, refl, refl, refl), ((refl, refl, refl, refl, refl), tt)),
          refl,
          refl,
        ),
        ((codes "b", [], refl, ((refl, refl, refl, refl, refl), tt), refl, refl), tt),
      )
      plain_test

backslash-again_example : ∥ (
    (t : TransferItem) × Mem t (build (λ rel. true) (dest ∷ []) opts (slashed ∷ [])).transfers
    × (t.rel ≡ slashed.rel)
    × (any (λ k. k == 0) t.targets ≡ true)) ∥₁
unfolding is_candidate contains
backslash-again_example =
    backslash-again as_is root (λ rel. true) (dest ∷ []) opts (slashed ∷ []) slashed 0 dest true
      slashed_items mem-cons_self refl refl slashed_test refl
