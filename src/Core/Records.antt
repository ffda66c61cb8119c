-- ===== src/Core/Records.antt =====
-- `parse_record` and `parse_mtime` of crates/adbrsync-core/src/scan.rs: one record of the walk.
pub mod Fields
use adbrsync.Common.{ℕ, zero, suc, ◌+◌, ◌*◌, ◌-◌, ◌^◌, true, false, ◌&&◌, ◌||◌, ltb, leb, ◌==◌}
use adbrsync.Common.{if◌then◌else◌, [], ◌∷◌, Option, none, some}
use adbrsync.Common.Text.{Text, is_empty, starts_with, strip_prefix, trim_start}
use adbrsync.Common.Int.{ℤ, pos, negsuc}
use adbrsync.Common.Optional.{◌>>=◌}
use adbrsync.Core.Entry.{EntryKind, file, dir, symlink, RemoteEntry}

-- `str::parse` of an unsigned decimal, which may have a plus sign, and of octal digits: a value of
-- `bits` bits, or nothing.
unfoldable pub digits_of : ℕ → ℕ → ℕ → Text → Option ℕ
digits_of base bits n [] = some n
digits_of base bits n (c ∷ s) =
    if leb 48 c && ltb c (48 + base) && ltb (n * base + (c - 48)) (2 ^ bits)
    then digits_of base bits (n * base + (c - 48)) s
    else none

unfoldable pub parse_unsigned : ℕ → ℕ → Text → Option ℕ
unfolding digits_of
parse_unsigned base bits [] = none
parse_unsigned base bits (c ∷ s) =
    if c == b'+'
    then (if is_empty s then none else digits_of base bits 0 s)
    else digits_of base bits 0 (c ∷ s)

-- -n
abbrev negated : ℕ → ℤ
negated zero = pos 0
negated (suc n) = negsuc n

-- `str::parse::<i64>`: a plus or a minus sign may stand first.
unfoldable pub parse_i64 : Text → Option ℤ
unfolding parse_unsigned
parse_i64 [] = none
parse_i64 (c ∷ s) =
    if c == b'-'
    then (if is_empty s || starts_with s (b'+' ∷ []) then none else elim (parse_unsigned 10 64 s) [
      | none ↦ none
      | some n ↦ if leb n (2 ^ 63) then some (negated n) else none
    ])
    else elim (parse_unsigned 10 63 (c ∷ s)) [ none ↦ none | some n ↦ some (pos n) ]

-- `split_once` at a byte.
unfoldable pub split_once : ℕ → Text → Option (Text × Text)
split_once sep [] = none
split_once sep (c ∷ s) = elim (c == sep) [
  | true ↦ some ([], s)
  | false ↦ elim (split_once sep s) [ none ↦ none | some (a, b) ↦ some (c ∷ a, b) ]
]

unfoldable pub parse_mtime : Text → Option ℤ
unfolding parse_i64 split_once
parse_mtime raw = elim (split_once b'.' raw) [
  | none ↦ parse_i64 raw
  | some (secs, frac) ↦ parse_i64 secs
]

abbrev pub parse_kind : Text → Option EntryKind
parse_kind [] = none
parse_kind (c ∷ d ∷ s) = none
parse_kind (c ∷ []) =
    if c == b'f'
    then some file
    else if c == b'd'
    then some dir
    else if c == b'l'
    then some symlink
    else none

-- The relative path: what is left of `remote` after the root, if the root is a path prefix.
abbrev pub relative_to : Text → Text → Text
relative_to root remote = elim (strip_prefix remote root) [
  | none ↦ remote
  | some [] ↦ []
  | some (c ∷ rest) ↦ if c == b'/' then trim_start b'/' (c ∷ rest) else remote
]

-- `splitn(5, '|')` as four `split_once`: a missing part is a missing separator.
unfoldable pub parse_record : Text → Text → Option RemoteEntry
unfolding parse_unsigned parse_mtime split_once
parse_record text root = do
  (kind_text, rest1) ← split_once b'|' text
  kind ← parse_kind kind_text
  (size_text, rest2) ← split_once b'|' rest1
  size ← parse_unsigned 10 64 size_text
  (mtime_text, rest3) ← split_once b'|' rest2
  mtime ← parse_mtime mtime_text
  (mode_text, remote) ← split_once b'|' rest3
  mode ← parse_unsigned 8 32 mode_text
  some (record {
    rel = relative_to root remote;
    remote = remote;
    kind = kind;
    size = size;
    mtime = mtime;
    mode = mode;
  })
