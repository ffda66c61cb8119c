-- ===== src/Core/Checksum.antt =====
-- crates/adbrsync-core/src/checksum.rs: hashing on the device in batches, and which files match.
-- What one batch's command prints is the environment's, as a function of the command; hashing a
-- local file and joining paths to a spawned task's result are the libraries'.
pub mod Batches
pub mod Matching
mod Examples
use adbrsync.Common.{
  ℕ, ◌+◌, ◌*◌, ◌≡◌, Bool, true, false, ◌&&◌, ◌||◌, not, ltb, leb, ◌==◌, if◌then◌else◌,
}
use adbrsync.Common.{
  is_nil, List, [], ◌∷◌, ◌++◌, map, keep, filter_map, any, all, length, Option, none, some,
}
use adbrsync.Common.Text.{Text, codes, text_eq, split}
use adbrsync.Common.Words.{trim, lines}
use adbrsync.Common.Maps.{put, add}
use adbrsync.Common.Result.{Result, ok, err, ◌>>=◌}
use adbrsync.Core.Entry.{EntryKind, FilePath, RemoteEntry, LocalEntry, safe_join}
use adbrsync.Core.Digests.{Digests}
use adbrsync.Core.Plan.{is_file, index}
use adbrsync.Core.Error.{CoreError}
use adbrsync.Core.Error.{adb}
use adbrsync.Common.Result.{map_err}
use adbrsync.Proto.Stream.{Stream}
use adbrsync.Proto.Client.{DeviceSelector}
use adbrsync.Proto.Shell.{shell_quote, run}

abbrev pub max_command_bytes : ℕ
max_command_bytes = 16 * 1024

-- `str::split_once` at two spaces.
unfoldable pub split_once_two_spaces : Text → Option (Text × Text)
split_once_two_spaces [] = none
split_once_two_spaces (c ∷ []) = none
split_once_two_spaces (c ∷ d ∷ s) =
    if c == 32 && d == 32
    then some ([], s)
    else elim (split_once_two_spaces (d ∷ s)) [ none ↦ none | some (a, b) ↦ some (c ∷ a, b) ]

abbrev pub is_hexdigit : ℕ → Bool
is_hexdigit c = (leb 48 c && leb c 57) || (leb 97 c && leb c 102) || (leb 65 c && leb c 70)

-- `to_ascii_lowercase`
abbrev pub lowercase : Text → Text
lowercase = map (λ c. if leb 65 c && leb c 90 then c + 32 else c)

unfoldable pub parse_digest_line : Text → Option (Text × Text)
unfolding split_once_two_spaces
parse_digest_line line = elim (split_once_two_spaces line) [
  | none ↦ none
  | some (digest, path) ↦
      if length (trim digest) == 64 && all is_hexdigit (trim digest)
      then some (path, lowercase (trim digest))
      else none
]

unfoldable pub parse_sha256sum : Text → List (Text × Text)
unfolding parse_digest_line
parse_sha256sum text = filter_map parse_digest_line (lines text)

abbrev pub quoted_args : List Text → Text
quoted_args [] = []
quoted_args (p ∷ ps) = 32 ∷ shell_quote p ++ quoted_args ps

unfoldable pub batch_command : List Text → Text
batch_command batch = codes "sha256sum" ++ quoted_args batch

abbrev pub insert_all : List (Text × Text) → (Text → Option Text) → Text → Option Text
insert_all [] m = m
insert_all ((path, digest) ∷ ds) m = insert_all ds (put path digest m)

-- The text of a command's standard output, or the error that running it gave.
module _ (sh : Text → Result CoreError Text) where
  unfoldable pub run_batch :
      List Text → (Text → Option Text) → Result CoreError (Text → Option Text)
  unfolding parse_sha256sum batch_command
  run_batch batch digests =
      sh (batch_command batch) >>= λ stdout. ok (insert_all (parse_sha256sum stdout) digests)

  -- The loop over the paths: the batch so far, its size, and the digests so far.
  unfoldable pub digest_loop :
      List Text → List Text → ℕ → (Text → Option Text) → Result CoreError (Text → Option Text)
  unfolding run_batch
  digest_loop [] [] batch_bytes digests = ok digests
  digest_loop [] (p ∷ ps) batch_bytes digests = run_batch (p ∷ ps) digests
  digest_loop (path ∷ paths) batch batch_bytes digests =
      elim (not (is_nil batch) && ltb max_command_bytes (batch_bytes + (length path + 4))) [
        | true ↦ run_batch batch digests >>= digest_loop paths (path ∷ []) (length path + 4)
        | false ↦ digest_loop paths (batch ++ path ∷ []) (batch_bytes + (length path + 4)) digests
      ]

  unfoldable pub device_digests : List Text → Result CoreError (Text → Option Text)
  unfolding digest_loop
  device_digests paths = digest_loop paths [] 0 (λ path. none)

  -- A destination's root, its entries, and `local_digest`, which a file that cannot be read lacks.
  module _ (hash : FilePath → Option Text) (candidates : List RemoteEntry) where
    -- The digests of the candidates that a destination has, by their path on the device.
    abbrev pub local_digests :
        FilePath
        → (Text → Option LocalEntry)
        → List RemoteEntry
        → (Text → Option Text)
        → Text
        → Option Text
    local_digests root present [] m = m
    local_digests root present (e ∷ es) m = local_digests root present es (elim (present e.rel) [
      | none ↦ m
      | some l ↦ elim (safe_join root e.rel) [
        | none ↦ m
        | some path ↦ elim (hash path) [ none ↦ m | some d ↦ put e.remote d m ]
      ]
    ])

    -- Both digests are there and agree.
    abbrev pub digests_agree : Option Text → Option Text → Bool
    digests_agree none b = false
    digests_agree (some a) none = false
    digests_agree (some a) (some b) = text_eq a b

    abbrev pub match_all :
        (Text → Option Text) → (Text → Option Text) → List RemoteEntry → (Text → Bool) → Text → Bool
    match_all remote local [] matched = matched
    match_all remote local (e ∷ es) matched =
        match_all remote local es
          (if digests_agree (remote e.remote) (local e.remote) then add e.rel matched else matched)

    unfoldable pub compare_one :
        (Text → Option Text) → FilePath → (Text → Option LocalEntry) → Digests
    compare_one remote root present = record {
      matched =
          match_all remote (local_digests root present candidates (λ key. none)) candidates
            (λ rel. false);
    }

  abbrev is_present : Text → (Text → Option LocalEntry) → Bool
  is_present rel present = elim (present rel) [ none ↦ false | some l ↦ true ]

  -- Each destination is its root and its entries.
  unfoldable pub compare_many :
      (FilePath → Option Text)
      → List RemoteEntry
      → List (FilePath × List LocalEntry)
      → Result CoreError (List Digests)
  unfolding device_digests compare_one index
  compare_many hash remote dests =
      let present = map (λ d. index (keep (λ l. is_file l.kind) d.1)) dests in
      let candidates =
        keep (λ e. any (is_present e.rel) present) (keep (λ e. is_file e.kind) remote) in
      if is_nil candidates
      then ok (map (λ d. record { matched = λ rel. false }) dests)
      else (device_digests (map (λ e. e.remote) candidates) >>= λ digests. ok (
          map
            (λ d. compare_one hash candidates digests d.0 (index (keep (λ l. is_file l.kind) d.1)))
            dests))

-- `run_batch`'s shell: the connection of each command is the environment's.
abbrev pub shell_stdout :
    (Text → Text) → (Text → Option Stream) → DeviceSelector → Text → Result CoreError Text
shell_stdout lossy connect selector command =
    map_err adb (run lossy (connect command) selector command) >>= λ out. ok (lossy out.stdout)
