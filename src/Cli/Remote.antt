-- ===== src/Cli/Remote.antt =====
-- `parse_remote` of crates/adbrsync-cli/src/args.rs and `classify` of main.rs: the source argument.
use adbrsync.Common.{ℕ, ◌≡◌, refl, arith, Bool, true, false, ◌&&◌, ◌||◌, ◌==◌, if◌then◌else◌}
use adbrsync.Common.{[], ◌∷◌, ◌++◌, Option, none, some}
use adbrsync.Common.Text.{Text, codes, text_eq, is_empty, starts_with, trim_end}
use adbrsync.Proto.Sync.{SyncStat, is_file}

pub record RemoteSpec : Type 0 where
  pub serial : Option Text
  pub path : Text
  pub trailing_slash : Bool

-- What stands before the last colon that a slash follows, and what follows it.
unfoldable pub split_spec : Text → Option (Text × Text)
split_spec [] = none
split_spec (c ∷ s) = elim (split_spec s) [
  | some (head, path) ↦ some (c ∷ head, path)
  | none ↦ if c == b':' && starts_with s (b'/' ∷ []) then some ([], s) else none
]

unfoldable pub normalize : Text → Text
normalize path = let trimmed = trim_end b'/' path in if is_empty trimmed then b'/' ∷ [] else trimmed

abbrev pub serial_named : Text → Option Text
serial_named head =
    if is_empty head || text_eq head (codes "device") || text_eq head (codes "adb")
    then none
    else some head

-- `ends_with` of a byte
unfoldable pub ends_with : Text → ℕ → Bool
ends_with [] c = false
ends_with (d ∷ []) c = d == c
ends_with (d ∷ e ∷ s) c = ends_with (e ∷ s) c

unfoldable pub spec_of : Text → Text → RemoteSpec
unfolding normalize ends_with
spec_of head path = record {
  serial = serial_named head;
  path = normalize path;
  trailing_slash = ends_with path b'/';
}

unfoldable pub parse_remote : Text → Option RemoteSpec
unfolding split_spec spec_of
parse_remote spec = elim (split_spec spec) [
  | none ↦ none
  | some (head, path) ↦ some (spec_of head path)
]

pub data SourceProbe : Type 0 where
  missing : SourceProbe
  file : SourceProbe
  other : SourceProbe

abbrev pub is_file_probe : SourceProbe → Bool
is_file_probe file = true
is_file_probe probe = false

unfoldable pub classify : SyncStat → SourceProbe
unfolding is_file
classify stat =
    if stat.error == 2 || (stat.error == 0 && stat.mode == 0)
    then missing
    else if is_file stat
    then file
    else other

-- Whether a colon with a slash after it stands in a text.
unfoldable pub has_separator : Text → Bool
has_separator [] = false
has_separator (c ∷ s) = (c == b':' && starts_with s (b'/' ∷ [])) || has_separator s

split_spec-none : (s : Text) → has_separator s ≡ false → split_spec s ≡ none
unfolding split_spec has_separator
split_spec-none [] h = refl
split_spec-none (c ∷ s) h = ground (arith, h, split_spec-none s)

split_spec-append :
    (head path : Text)
    → starts_with path (b'/' ∷ []) ≡ true
    → has_separator path ≡ false
    → split_spec (head ++ b':' ∷ path) ≡ some (head, path)
unfolding split_spec
split_spec-append [] path h k = ground (arith, h, split_spec-none path k)
split_spec-append (c ∷ head) path h k = ground (arith, split_spec-append head path h k)

-- An argument of a head, a colon and an absolute path without a further colon before a slash gives
-- that head and path, also where colons stand in the head.
pub parse_remote-append :
    (head path : Text)
    → starts_with path (b'/' ∷ []) ≡ true
    → has_separator path ≡ false
    → parse_remote (head ++ b':' ∷ path) ≡ some (spec_of head path)
unfolding parse_remote
parse_remote-append head path h k = ground (arith, split_spec-append head path h k)

-- An argument without a colon before a slash is no device path.
pub parse_remote-local : (s : Text) → has_separator s ≡ false → parse_remote s ≡ none
unfolding parse_remote
parse_remote-local s h = ground (arith, split_spec-none s h)
