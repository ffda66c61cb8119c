-- ===== src/Core/Scan/Complete.antt =====
-- A scan that is returned is whole.
use adbrsync.Common.{◌≡◌, arith, true, ◌||◌, List, [], ◌∷◌, ◌++◌, append-nil}
use adbrsync.Common.{append_assoc, Option, none, some, all, filter_map}
use adbrsync.Common.{Bool, if◌then◌else◌, Option-cases, false, inl, inr, drop}
use adbrsync.Common.Text.{Text, is_empty, split}
use adbrsync.Common.Words.{trim, lines}
use adbrsync.Common.Result.{ok, Result-cases}
use adbrsync.Core.Entry.{RemoteEntry}
use adbrsync.Core.Records.{parse_record}
use adbrsync.Core.Scan.{
  RemoteScan, is_denial, denied_paths, name_single, parse_all, read_walk, scan_output,
  strip_find_prefix,
}
use adbrsync.Proto.Shell.{ShellOutput}

-- A line that is blank or says that a path was denied, and nothing else.
abbrev pub is_harmless : Text → Bool
is_harmless l = is_empty (trim l) || is_denial (trim l)

abbrev pub denied_path : Text → Option Text
denied_path l = if is_empty (trim l) then none else some (strip_find_prefix (trim l))

denied_paths_complete :
    (ls denied out : List Text)
    → denied_paths denied ls ≡ ok out
    → (out ≡ denied ++ filter_map denied_path ls) × (all is_harmless ls ≡ true)
unfolding denied_paths
denied_paths_complete [] denied out h = ground (arith, h, append-nil denied)
denied_paths_complete (l ∷ ls) denied out h = ground (
  arith,
  h,
  denied_paths_complete ls denied out,
  denied_paths_complete ls (denied ++ strip_find_prefix (trim l) ∷ []) out,
  append_assoc denied (strip_find_prefix (trim l) ∷ []) (filter_map denied_path ls),
)

module _ (lossy : Text → Text) where
  -- What a record gives, if it is not empty.
  abbrev pub entry_of : Text → Text → Option RemoteEntry
  entry_of root r = if is_empty r then none else parse_record (lossy r) root

  abbrev pub is_read : Text → Text → Bool
  is_read root r = is_empty r || elim (parse_record (lossy r) root) [ none ↦ false | some e ↦ true ]

  parse_all_complete :
      (root : Text) (rs : List Text) (entries out : List RemoteEntry)
      → parse_all lossy root entries rs ≡ ok out
      → (out ≡ entries ++ filter_map (entry_of root) rs) × (all (is_read root) rs ≡ true)
  unfolding parse_all
  parse_all_complete root [] entries out h = ground (arith, h, append-nil entries)
  parse_all_complete root (r ∷ rs) entries out h =
      elim (Option-cases (parse_record (lossy r) root)) [
        | inl e ↦ ground (arith, h, e, parse_all_complete root rs entries out)
        | inr (x, e) ↦ ground (
          arith,
          h,
          e,
          parse_all_complete root rs entries out,
          parse_all_complete root rs (entries ++ x ∷ []) out,
          append_assoc entries (x ∷ []) (filter_map (entry_of root) rs),
        )
      ]

  read_walk_complete :
      (denied records : List Text) (scan : RemoteScan)
      → read_walk lossy denied records ≡ ok scan
      → (scan.denied ≡ denied)
        × (scan.entries ≡ name_single (filter_map (entry_of scan.root) (drop 1 records)))
        × (all (is_read scan.root) (drop 1 records) ≡ true)
  unfolding read_walk
  read_walk_complete denied [] scan h = ground (arith, h)
  read_walk_complete denied (root ∷ rs) scan h =
      elim (Result-cases (parse_all lossy (lossy root) [] rs)) [
        | inl (es, e) ↦
            let k = parse_all_complete (lossy root) rs [] es e in ground (arith, h, e, k.0, k.1)
        | inr (x, e) ↦ ground (arith, h, e)
      ]

  -- A scan that is returned is whole: every line on standard error is blank or a denial, whose path
  -- is reported, every record of the walk was read, and the entries are those of the records, in
  -- order, but for the name of a single file.
  pub scan_output_complete :
      (out : ShellOutput) (scan : RemoteScan)
      → scan_output lossy out ≡ ok scan
      → (all is_harmless (lines (lossy out.stderr)) ≡ true)
        × (scan.denied ≡ filter_map denied_path (lines (lossy out.stderr)))
        × (all (is_read scan.root) (drop 1 (split 0 out.stdout)) ≡ true)
        × (scan.entries
            ≡ name_single (filter_map (entry_of scan.root) (drop 1 (split 0 out.stdout))))
  unfolding scan_output
  scan_output_complete out scan h =
      elim (Result-cases (denied_paths [] (lines (lossy out.stderr)))) [
        | inr (x, e) ↦ ground (arith, h, e)
        | inl (denied, e) ↦
            let k = denied_paths_complete (lines (lossy out.stderr)) [] denied e in
            ground (arith, h, e, k.0, k.1, read_walk_complete denied (split 0 out.stdout) scan)
      ]
