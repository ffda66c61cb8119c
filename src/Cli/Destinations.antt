-- ===== src/Cli/Destinations.antt =====
-- `resolve_destinations` of crates/adbrsync-cli/src/main.rs. What the file system says of a
-- destination is given: what stands at it, whether it can be created, the components of its path,
-- and its canonical path, which is the path itself where it has none.
pub mod Apart
pub mod Placed
pub mod Fetching
mod Examples
use adbrsync.Common.{ℕ, ◌+◌, Bool, true, false, not, ◌&&◌, ◌||◌, ◌==◌, if◌then◌else◌}
use adbrsync.Common.{is_nil, List, [], ◌∷◌, ◌++◌, map, Option, none, some}
use adbrsync.Common.Text.{Text, text_eq, is_empty, split}
use adbrsync.Common.Result.{Result, ok, err, ◌>>=◌}
use adbrsync.Core.Entry.{path_eq, is_below, FilePath, path_join}
use adbrsync.Core.Scan.{last_part}
use adbrsync.Cli.Remote.{RemoteSpec, parse_remote}

-- What `std::fs::metadata` says.
pub data Found : Type 0 where
  directory : Found
  other : Found
  absent : Found

pub data DestError : Type 0 where
  is_device_path : Text → DestError
  is_not_directory : Text → DestError
  cannot_create : Text → Text → DestError
  does_not_exist : List Text → DestError
  none_exists : List Text → DestError
  same_directory : ℕ → ℕ → DestError
  inside : ℕ → ℕ → DestError

pub record DestArgs : Type 0 where
  pub dests : List Text
  pub mkpath : Bool
  pub skip_missing_dest : Bool

-- The inner loop: `a` has the index `i`, and the list starts at the index `j`.
unfoldable pub conflict_with : ℕ → FilePath → ℕ → List FilePath → Option DestError
unfolding is_below path_eq
conflict_with i a j [] = none
conflict_with i a j (b ∷ bs) =
    let rest = conflict_with i a (j + 1) bs in
    if i == j
    then rest
    else if path_eq a b
    then some (same_directory (i + 1) (j + 1))
    else if is_below a b
    then some (inside (i + 1) (j + 1))
    else rest

-- The outer loop, from the index `i` on.
unfoldable pub first_conflict : List FilePath → ℕ → List FilePath → Option DestError
unfolding conflict_with
first_conflict all i [] = none
first_conflict all i (a ∷ rest) = elim (conflict_with i a 0 all) [
  | some e ↦ some e
  | none ↦ first_conflict all (i + 1) rest
]

-- The roots and the missing destinations so far.
abbrev pub Roots : Type 0
Roots = List Text × List Text

module _ (found : Text → Found) (create : Text → Option Text) (args : DestArgs) where
  -- One destination of the first loop.
  unfoldable pub take_dest : Text → Roots → Result DestError Roots
  take_dest raw (roots, missing) = elim (parse_remote raw) [
    | some spec ↦ err (is_device_path raw)
    | none ↦ elim (found raw) [
      | directory ↦ ok (roots ++ raw ∷ [], missing)
      | other ↦ err (is_not_directory raw)
      | absent ↦
          if args.mkpath
          then elim (create raw) [
            | none ↦ ok (roots ++ raw ∷ [], missing)
            | some message ↦ err (cannot_create raw message)
          ]
          else ok (roots, missing ++ raw ∷ [])
    ]
  ]

  unfoldable pub take_dests : List Text → Roots → Result DestError Roots
  unfolding take_dest
  take_dests [] r = ok r
  take_dests (raw ∷ raws) r = take_dest raw r >>= take_dests raws

  module _ (path_of canonical : Text → FilePath) where
    -- The trailing-slash rule.
    unfoldable pub placed : RemoteSpec → Bool → List Text → List FilePath
    unfolding path_join
    placed source source_is_file roots =
        let name = last_part (split b'/' source.path) in
        if not source.trailing_slash && not source_is_file && not (is_empty name)
        then map (λ r. path_join (path_of r) name) roots
        else map path_of roots

    -- What follows the first loop.
    unfoldable pub settle : RemoteSpec → Bool → Roots → Result DestError (List FilePath × List Text)
    unfolding first_conflict placed
    settle source source_is_file (roots, missing) =
        if not (is_nil missing) && not args.skip_missing_dest
        then err (does_not_exist missing)
        else if is_nil roots
        then err (none_exists args.dests)
        else elim (first_conflict (map canonical roots) 0 (map canonical roots)) [
          | some e ↦ err e
          | none ↦ ok (placed source source_is_file roots, missing)
        ]

    unfoldable pub resolve_destinations :
        RemoteSpec → Bool → Result DestError (List FilePath × List Text)
    unfolding take_dests settle
    resolve_destinations source source_is_file =
        take_dests args.dests ([], []) >>= settle source source_is_file
