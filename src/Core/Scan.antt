-- ===== src/Core/Scan.antt =====
-- `scan_remote` of crates/adbrsync-core/src/scan.rs: what the walk of the device tree returns.
pub mod Complete
mod Examples
use adbrsync.Common.{ℕ, zero, suc, Bool, true, false, not, ◌&&◌, ◌||◌, ◌==◌, if◌then◌else◌}
use adbrsync.Common.{List, [], ◌∷◌, ◌++◌, Option, none, some, length, drop}
use adbrsync.Common.Text.{Text, codes, is_empty, split, starts_with, strip_prefix}
use adbrsync.Common.Text.{trim_start, trim_end}
use adbrsync.Common.Words.{trim, lines}
use adbrsync.Common.Int.{ℤ, pos, negsuc}
use adbrsync.Common.Result.{Result, ok, err, ◌>>=◌}
use adbrsync.Core.Entry.{EntryKind, file, dir, symlink, RemoteEntry}
use adbrsync.Core.Plan.{is_file}
use adbrsync.Core.Error.{CoreError, scan_failed}
use adbrsync.Core.Records.{parse_record}
use adbrsync.Core.Error.{adb}
use adbrsync.Common.Result.{map_err}
use adbrsync.Proto.Stream.{Stream}
use adbrsync.Proto.Client.{DeviceSelector}
use adbrsync.Proto.Shell.{ShellOutput, shell_quote, run}

pub record RemoteScan : Type 0 where
  pub root : Text
  pub entries : List RemoteEntry
  pub denied : List Text

-- `str::contains` of a text
unfoldable pub contains_text : Text → Text → Bool
contains_text [] p = is_empty p
contains_text (c ∷ s) p = starts_with (c ∷ s) p || contains_text s p

-- `rsplit_once` at a text: what stands before its last occurrence.
unfoldable pub before_last : Text → Text → Option Text
before_last [] p = if is_empty p then some [] else none
before_last (c ∷ s) p = elim (before_last s p) [
  | some t ↦ some (c ∷ t)
  | none ↦ if starts_with (c ∷ s) p then some [] else none
]

abbrev or_else : Option Text → Text → Text
or_else none t = t
or_else (some s) t = s

unfoldable pub strip_find_prefix : Text → Text
unfolding before_last
strip_find_prefix line =
    elim (before_last (or_else (strip_prefix line (codes "find: ")) line)
      (codes ": Permission denied")) [ none ↦ line | some path ↦ trim_end 39 (trim_start 39 path) ]

abbrev pub is_denial : Text → Bool
is_denial line = contains_text line (codes "Permission denied")

-- The loop over the lines of standard error.
unfoldable pub denied_paths : List Text → List Text → Result CoreError (List Text)
unfolding strip_find_prefix
denied_paths denied [] = ok denied
denied_paths denied (l ∷ ls) = elim (is_empty (trim l)) [
  | true ↦ denied_paths denied ls
  | false ↦ elim (is_denial (trim l)) [
    | true ↦ denied_paths (denied ++ strip_find_prefix (trim l) ∷ []) ls
    | false ↦ err (scan_failed (trim l))
  ]
]

-- `exit_code != 0 && denied.is_empty()`
abbrev pub failed_silently : ℤ → List Text → Bool
failed_silently (pos zero) denied = false
failed_silently code [] = true
failed_silently code (d ∷ ds) = false

-- The last part: `rsplit('/').next()`
abbrev pub last_part : List Text → Text
last_part [] = []
last_part (p ∷ []) = p
last_part (p ∷ q ∷ ps) = last_part (q ∷ ps)

-- A single file is named after itself.
unfoldable pub name_single : List RemoteEntry → List RemoteEntry
name_single [] = []
name_single (e ∷ []) =
    if is_file e.kind && is_empty e.rel
    then record e { rel = last_part (split b'/' e.remote) } ∷ []
    else e ∷ []
name_single (e ∷ f ∷ es) = e ∷ f ∷ es

-- The texts that `from_utf8_lossy` makes of bytes are the library's.
module _ (lossy : Text → Text) where
  -- The loop over the records after the root.
  unfoldable pub parse_all :
      Text → List RemoteEntry → List Text → Result CoreError (List RemoteEntry)
  parse_all root entries [] = ok entries
  parse_all root entries (r ∷ rs) = elim (is_empty r) [
    | true ↦ parse_all root entries rs
    | false ↦ elim (parse_record (lossy r) root) [
      | some e ↦ parse_all root (entries ++ e ∷ []) rs
      | none ↦ err (scan_failed (codes "unparsable record"))
    ]
  ]

  -- What follows the check of the exit code.
  unfoldable pub read_walk : List Text → List Text → Result CoreError RemoteScan
  unfolding parse_all name_single
  read_walk denied [] = err (scan_failed (codes "device walk produced no root"))
  read_walk denied (root ∷ records) =
      if is_empty (lossy root)
      then err (scan_failed (codes "device walk produced no root"))
      else (parse_all (lossy root) [] records >>= λ entries.
          ok (record { root = lossy root; entries = name_single entries; denied = denied }))

  unfoldable pub scan_output : ShellOutput → Result CoreError RemoteScan
  unfolding denied_paths read_walk
  scan_output out = denied_paths [] (lines (lossy out.stderr)) >>= λ denied.
      if failed_silently out.exit_code denied
      then err (scan_failed (codes "device walk exited with a status"))
      else read_walk denied (split 0 out.stdout)

unfoldable pub is_single_file : RemoteScan → Bool
is_single_file scan = elim scan.entries [
  | [] ↦ false
  | e ∷ es ↦ elim es [ [] ↦ is_file e.kind | f ∷ fs ↦ false ]
]

-- `str::replace` of a double quote by a single one.
abbrev quote_to_single : Text → Text
quote_to_single [] = []
quote_to_single (c ∷ s) = (if c == b'"' then 39 else c) ∷ quote_to_single s

unfoldable pub walk_command : Text → Text
walk_command root =
    codes "R=$(readlink -f "
    ++ shell_quote root
    ++ codes "); if [ -z \"$R\" ] || [ ! -e \"$R\" ]; then echo \"no such path: "
    ++ quote_to_single root
    ++ codes "\" >&2; exit 2; fi; printf '%s\\0' \"$R\"; find \"$R\" "
    ++ codes "\\( -type f -printf 'f|%s|%T@|%m|%p\\0' \\) "
    ++ codes "-o \\( -type d -printf 'd|%s|%T@|%m|%p\\0' \\) "
    ++ codes "-o \\( -type l -printf 'l|%s|%T@|%m|%p\\0' \\)"

-- The connection for the walk's command is the environment's.
unfoldable pub scan_remote :
    (Text → Text) → Option Stream → DeviceSelector → Text → Result CoreError RemoteScan
unfolding walk_command scan_output
scan_remote lossy connection selector root =
    map_err adb (run lossy connection selector (walk_command root)) >>= scan_output lossy
