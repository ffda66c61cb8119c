-- ===== src/Core/Scan/Examples.antt =====
-- A walk of one file and one denied directory, and the theorems on it.
use adbrsync.Common.{◌≡◌, refl, true, all, [], ◌∷◌, ◌++◌, filter_map, drop}
use adbrsync.Common.Text.{Text, codes, split, starts_with, strip_prefix, trim_start, trim_end}
use adbrsync.Common.Words.{lines, trim}
use adbrsync.Common.Int.{pos}
use adbrsync.Core.Entry.{file}
use adbrsync.Core.Records.{parse_record}
use adbrsync.Core.Scan.{RemoteScan, scan_output, name_single, contains_text}
use adbrsync.Core.Scan.Complete.{is_harmless, denied_path, is_read, entry_of, scan_output_complete}
use adbrsync.Proto.Shell.{ShellOutput}

abbrev as_is : Text → Text
as_is s = s

abbrev walk : ShellOutput
walk = record {
  stdout = codes "/sd" ++ 0 ∷ (codes "f|10|17.5|644|/sd/x" ++ 0 ∷ []);
  stderr = codes "find: '/sd/p': Permission denied";
  exit_code = pos 1;
}

abbrev scanned : RemoteScan
scanned = record {
  root = codes "/sd";
  entries =
      record {
        rel = codes "x";
        remote = codes "/sd/x";
        kind = file;
        size = 10;
        mtime = pos 17;
        mode = 0o644;
      }
      ∷ [];
  denied = codes "/sd/p" ∷ [];
}

scan_output_complete_example :
    (all is_harmless (lines walk.stderr) ≡ true)
    × (scanned.denied ≡ filter_map denied_path (lines walk.stderr))
    × (all (is_read as_is scanned.root) (drop 1 (split 0 walk.stdout)) ≡ true)
    × (scanned.entries
        ≡ name_single (filter_map (entry_of as_is scanned.root) (drop 1 (split 0 walk.stdout))))
unfolding scan_output parse_record lines split trim contains_text starts_with strip_prefix
    trim_start trim_end
scan_output_complete_example = scan_output_complete as_is walk scanned refl
