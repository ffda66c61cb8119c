-- ===== src/Cli/Destinations/Apart.antt =====
-- Destinations that are accepted.
use adbrsync.Common.{ℕ, zero, suc, ◌+◌, ◌≡◌, arith, Bool, true, false, not, ◌||◌, ◌==◌}
use adbrsync.Common.{
  is_nil, if◌then◌else◌, List, [], ◌∷◌, ◌++◌, map, append-nil, append_assoc, Option, none, some,
  get_elem?, all, keep, Option-cases, inl, inr,
}
use adbrsync.Common.Text.{Text}
use adbrsync.Common.Result.{ok, Result-cases}
use adbrsync.Core.Entry.{FilePath, path_eq, is_below}
use adbrsync.Cli.Remote.{RemoteSpec}
use adbrsync.Cli.Destinations.{
  Found, directory, other, absent, DestArgs, conflict_with, first_conflict, take_dest, take_dests,
  placed, settle, resolve_destinations,
}

-- Two paths of which neither is the other nor lies in it.
abbrev pub Apart : FilePath → FilePath → Type 0
Apart a b = (path_eq a b ≡ false) × (is_below a b ≡ false)

conflict_with-none :
    (i : ℕ) (a : FilePath) (j k : ℕ) (bs : List FilePath) (b : FilePath)
    → conflict_with i a j bs ≡ none
    → get_elem? bs k ≡ some b
    → (i == j + k) ≡ false
    → Apart a b
unfolding conflict_with
conflict_with-none i a j k [] b h e n = ground (arith, e)
conflict_with-none i a j zero (c ∷ bs) b h e n = ground (arith, h, e, n)
conflict_with-none i a j (suc k) (c ∷ bs) b h e n =
    ground (arith, h, e, n, conflict_with-none i a (j + 1) k bs b)

first_conflict-none :
    (all : List FilePath) (i k : ℕ) (rest : List FilePath) (a : FilePath)
    → first_conflict all i rest ≡ none
    → get_elem? rest k ≡ some a
    → conflict_with (i + k) a 0 all ≡ none
unfolding first_conflict
first_conflict-none all i k [] a h e = ground (arith, e)
first_conflict-none all i zero (c ∷ rest) a h e = elim (Option-cases (conflict_with i c 0 all)) [
  | inl n ↦ ground (arith, e, n)
  | inr (x, n) ↦ ground (arith, h, n)
]
first_conflict-none all i (suc k) (c ∷ rest) a h e = elim (Option-cases (conflict_with i c 0 all)) [
  | inl n ↦ ground (arith, h, n, first_conflict-none all (i + 1) k rest a)
  | inr (x, n) ↦ ground (arith, h, n)
]

get_elem?-map :
    (f : Text → FilePath) (xs : List Text) (i : ℕ) (x : Text)
    → get_elem? xs i ≡ some x
    → get_elem? (map f xs) i ≡ some (f x)
get_elem?-map f [] i x h = ground (arith, h)
get_elem?-map f (y ∷ ys) zero x h = ground (arith, h)
get_elem?-map f (y ∷ ys) (suc i) x h = get_elem?-map f ys i x h

module _ (found : Text → Found) (create : Text → Option Text) (args : DestArgs) where
  -- A destination that is there or was created, and one that is missing.
  abbrev pub is_taken : Text → Bool
  is_taken raw = elim (found raw) [ directory ↦ true | other ↦ false | absent ↦ args.mkpath ]

  abbrev pub is_missing : Text → Bool
  is_missing raw = elim (found raw) [
    | directory ↦ false
    | other ↦ false
    | absent ↦ not (args.mkpath)
  ]

  -- What one destination adds, if it is no error.
  take_dest-ok :
      (raw : Text) (roots missing roots' missing' : List Text)
      → take_dest found create args raw (roots, missing) ≡ ok (roots', missing')
      → (roots' ≡ roots ++ (if is_taken raw then raw ∷ [] else []))
        × (missing' ≡ missing ++ (if is_missing raw then raw ∷ [] else []))
  unfolding take_dest
  take_dest-ok raw roots missing roots' missing' h =
      ground (arith, h, append-nil roots, append-nil missing)

  take_dests-ok :
      (raws roots missing roots' missing' : List Text)
      → take_dests found create args raws (roots, missing) ≡ ok (roots', missing')
      → (roots' ≡ roots ++ keep is_taken raws) × (missing' ≡ missing ++ keep is_missing raws)
  unfolding take_dests
  take_dests-ok [] roots missing roots' missing' h =
      ground (arith, h, append-nil roots, append-nil missing)
  take_dests-ok (raw ∷ raws) roots missing roots' missing' h =
      elim (Result-cases (take_dest found create args raw (roots, missing))) [
        | inr (x, e) ↦ ground (arith, h, e)
        | inl ((r, m), e) ↦
            let k = take_dest-ok raw roots missing r m e in
            ground (
              arith,
              h,
              e,
              k.0,
              k.1,
              take_dests-ok raws r m roots' missing',
              append_assoc roots (if is_taken raw then raw ∷ [] else []) (keep is_taken raws),
              append_assoc missing (if is_missing raw then raw ∷ [] else []) (keep is_missing raws),
            )
      ]

  module _ (path_of canonical : Text → FilePath) (source : RemoteSpec) (source_is_file : Bool) where
    settle-ok :
        (roots missing : List Text) (places : List FilePath) (left : List Text)
        → settle found create args path_of canonical source source_is_file (roots, missing)
          ≡ ok (places, left)
        → (places ≡ placed found create args path_of canonical source source_is_file roots)
          × (left ≡ missing)
          × (first_conflict (map canonical roots) 0 (map canonical roots) ≡ none)
          × ((is_nil missing || args.skip_missing_dest) ≡ true)
          × (is_nil roots ≡ false)
    unfolding settle
    settle-ok roots missing places left h =
        elim (Option-cases (first_conflict (map canonical roots) 0 (map canonical roots))) [
          | inl e ↦ ground (arith, h, e)
          | inr (x, e) ↦ ground (arith, h, e)
        ]

    -- Destinations that are accepted are those that exist, or that were created under --mkpath, in the
    -- order given, each with the source's name where the trailing-slash rule asks for it. The others
    -- are reported as missing, which is only accepted under --skip-missing-dest; some exist.
    pub resolve_destinations-ok :
        (places : List FilePath) (left : List Text)
        → resolve_destinations found create args path_of canonical source source_is_file
          ≡ ok (places, left)
        → (places
            ≡ placed found create args path_of canonical source source_is_file
                (keep is_taken args.dests))
          × (left ≡ keep is_missing args.dests)
          × ((is_nil left || args.skip_missing_dest) ≡ true)
          × (is_nil (keep is_taken args.dests) ≡ false)
    unfolding resolve_destinations
    resolve_destinations-ok places left h =
        elim (Result-cases (take_dests found create args args.dests ([], []))) [
          | inr (x, e) ↦ ground (arith, h, e)
          | inl ((r, m), e) ↦
              let k = take_dests-ok args.dests [] [] r m e in
              ground (arith, h, e, k.0, k.1, settle-ok r m places left)
        ]

    -- No two accepted destinations are the same directory, and none lies inside another.
    pub resolve_destinations-Apart :
        (places : List FilePath) (left : List Text) (i j : ℕ) (a b : Text)
        → resolve_destinations found create args path_of canonical source source_is_file
          ≡ ok (places, left)
        → get_elem? (keep is_taken args.dests) i ≡ some a
        → get_elem? (keep is_taken args.dests) j ≡ some b
        → (i == j) ≡ false
        → Apart (canonical a) (canonical b)
    unfolding resolve_destinations
    resolve_destinations-Apart places left i j a b h ha hb n =
        elim (Result-cases (take_dests found create args args.dests ([], []))) [
          | inr (x, e) ↦ ground (arith, h, e)
          | inl ((r, m), e) ↦
              let k = take_dests-ok args.dests [] [] r m e in
              let all = map canonical (keep is_taken args.dests) in
              conflict_with-none (0 + i) (canonical a) 0 j all (canonical b)
                (first_conflict-none all 0 i all (canonical a)
                  (ground (arith, h, e, k.0, k.1, settle-ok r m places left))
                  (get_elem?-map canonical (keep is_taken args.dests) i a ha))
                (get_elem?-map canonical (keep is_taken args.dests) j b hb) (ground (arith, n))
        ]
