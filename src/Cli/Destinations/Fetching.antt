-- ===== src/Cli/Destinations/Fetching.antt =====
-- A planned file, fetched into accepted destinations.
use mathlib.Core.List.{Mem}
use mathlib.Core.List.Perm
use mathlib.Core.Logic.{∥∥₁_elim}
use adbrsync.Common.{ℕ, ◌+◌, ◌^◌, ◌≤◌, ◌<◌, ◌≡◌, ◌≢◌, arith, Bool, false}
use adbrsync.Common.{List, [], ◌∷◌, ◌++◌, Option, none, some, get_elem?, length, All, Bool-cases}
use adbrsync.Common.{inl, inr, ◌⊎◌}
use adbrsync.Common.Text.{Text}
use adbrsync.Core.Entry.{FilePath, RemoteEntry, is_below}
use adbrsync.Core.Plan.{PlanOptions, DestState, TransferItem, build}
use adbrsync.Core.Plan.Spec.{is_stale, targets_from, planned}
use adbrsync.Common.Members.{mem-filter_map_iff}
use adbrsync.Core.Plan.Transfers.{transfers-perm}
use adbrsync.Common.Counting.{get_elem?-some}
use adbrsync.Common.Result.{ok}
use adbrsync.Core.Paths.{file_name}
use adbrsync.Core.Destinations.{DestStats}
use adbrsync.Core.Fetch.{Host, fetch_one}
use adbrsync.Core.Fetch.Store.{Fs, Always}
use adbrsync.Core.Fetch.Atomic.{sent, fetch_one-atomic}
use adbrsync.Core.Fetch.Clashes.{RootsApart, NamesEntry, temp_suffix}
use adbrsync.Proto.Stream.{Stream}
use adbrsync.Cli.Remote.{RemoteSpec}
use adbrsync.Cli.Destinations.{Found, DestArgs, resolve_destinations}
use adbrsync.Cli.Destinations.Placed.{places_below}

abbrev or_root : Option FilePath → FilePath
or_root none = []
or_root (some p) = p

-- `dests[i]`
abbrev pub place_at : List FilePath → ℕ → FilePath
place_at places i = or_root (get_elem? places i)

-- The places from `k` to below `n` lie apart.
abbrev ApartUpto : (ℕ → FilePath) → ℕ → ℕ → Type 0
ApartUpto f k n =
    (i j : ℕ)
    → k ≤ i
    → i < j
    → j < n
    → (is_below (f i) (f j) ≡ false) × (is_below (f j) (f i) ≡ false)

targets_from-All :
    (opts : PlanOptions) (e : RemoteEntry) (P : ℕ → Type 0) (k : ℕ) (ds : List DestState)
    → ((j : ℕ) → k ≤ j → j < k + length ds → P j)
    → All P (targets_from opts e k ds)
unfolding targets_from
targets_from-All opts e P k [] h = tt
targets_from-All opts e P k (d ∷ ds) h =
    let rest = targets_from-All opts e P (k + 1) ds (λ j le lt. h j (omega arith) (omega arith)) in
    elim (Bool-cases (is_stale opts d e)) [
      | inl s ↦ rw s (h k (omega arith) (omega arith), rest)
      | inr s ↦ rw s rest
    ]

targets_from-RootsApart :
    (opts : PlanOptions) (e : RemoteEntry) (f : ℕ → FilePath) (k : ℕ) (ds : List DestState)
    → ApartUpto f k (k + length ds)
    → RootsApart f (targets_from opts e k ds)
unfolding targets_from
targets_from-RootsApart opts e f k [] h = tt
targets_from-RootsApart opts e f k (d ∷ ds) h =
    let rest =
      targets_from-RootsApart opts e f (k + 1) ds
        (λ i j le lt up. h i j (omega arith) lt (omega arith)) in
    elim (Bool-cases (is_stale opts d e)) [
      | inl s ↦ rw s (
        targets_from-All opts e _ (k + 1) ds
            (λ j le lt. h k j (omega arith) (omega arith) (omega arith)),
        rest,
      )
      | inr s ↦ rw s rest
    ]

zero_add : (n : ℕ) → 0 + n ≡ n
zero_add n = omega arith

All-prop : {P : ℕ → Type 0} → ((j : ℕ) → IsProp (P j)) → (xs : List ℕ) → IsProp (All P xs)
All-prop h [] = hlevel
All-prop h (x ∷ xs) = hlevel (h x, All-prop h xs)

RootsApart-prop : (f : ℕ → FilePath) (is : List ℕ) → IsProp (RootsApart f is)
RootsApart-prop f [] = hlevel
RootsApart-prop f (i ∷ is) = hlevel (
  All-prop {P = λ j. (is_below (f i) (f j) ≡ false) × (is_below (f j) (f i) ≡ false)} (λ j. hlevel)
      is,
  RootsApart-prop f is,
)

planned-targets :
    (accepts : Text → Bool) (dests : List DestState) (opts : PlanOptions) (e : RemoteEntry)
    (t : TransferItem)
    → planned accepts dests opts e ≡ some t
    → t.targets ≡ targets_from opts e 0 dests
unfolding planned
planned-targets accepts dests opts e t h = ground arith

module _ (accepts : Text → Bool) (dests : List DestState) (opts : PlanOptions) where
  -- The targets of a planned transfer lie apart, if the destinations do.
  transfer-RootsApart :
      (f : ℕ → FilePath) (es : List RemoteEntry) (t : TransferItem)
      → ApartUpto f 0 (length dests)
      → Mem t (build accepts dests opts es).transfers
      → RootsApart f t.targets
  transfer-RootsApart f es t apart m =
      ∥∥₁_elim
        ((mem-filter_map_iff (planned accepts dests opts) es).0
          ((Perm.mem_iff (transfers-perm accepts dests opts es)).0 m))
        (RootsApart-prop f t.targets)
        (λ (e, me, p).
          rw (planned-targets accepts dests opts e t p)
            (targets_from-RootsApart opts e f 0 dests (rw (zero_add (length dests)) apart)))

module _ (found : Text → Found) (create : Text → Option Text) (args : DestArgs)
    (path_of canonical : Text → FilePath) (source : RemoteSpec) (source_is_file : Bool) where
  places-ApartUpto :
      (places : List FilePath) (left : List Text)
      → resolve_destinations found create args path_of canonical source source_is_file
        ≡ ok (places, left)
      → ((raw : Text) → canonical raw ≡ path_of raw)
      → ApartUpto (place_at places) 0 (length places)
  places-ApartUpto places left h same i j low lt up =
      let (x, ex) = get_elem?-some places i (omega arith) in
      let (y, ey) = get_elem?-some places j up in
      let below =
        places_below found create args path_of canonical source source_is_file places left in
      rw (ex, ey)
        (below i j x y h same ex ey (ground arith), below j i y x h same ey ex (ground arith))

  -- Whatever is planned for destinations that are accepted: while one of the files is fetched, and
  -- wherever that stops, every path whose name does not end in .adbrsync-tmp holds what it held
  -- before or the whole file as the device sends it. The destinations are given by their canonical
  -- paths, the relative path of the file names an entry, and the byte counter is below 2^64.
  pub planned_fetch-atomic :
      (places : List FilePath) (left : List Text) (accepts : Text → Bool) (states : List DestState)
      (opts : PlanOptions) (es : List RemoteEntry) (t : TransferItem) (lossy : Text → Text)
      (host : Host) (preserve_mtime : Bool) (stats : ℕ → DestStats) (counter : ℕ) (session : Stream)
      (p : FilePath) (fs : Fs)
      → resolve_destinations found create args path_of canonical source source_is_file
        ≡ ok (places, left)
      → ((raw : Text) → canonical raw ≡ path_of raw)
      → length states ≡ length places
      → Mem t (build accepts states opts es).transfers
      → counter < 2 ^ 64
      → NamesEntry t.rel
      → ((n : Text) → file_name p ≢ some (n ++ temp_suffix))
      → Always
          (λ g.
            (g p ≡ fs p) ⊎ ((s : Text) × (sent lossy t.remote session ≡ some s) × (g p ≡ some s)))
          (fetch_one lossy host (place_at places) t preserve_mtime stats counter session).ops
          fs
  planned_fetch-atomic places left accepts states opts es t lossy host preserve_mtime stats counter
        session p fs h same as_many m u64 named plain =
      let apart = places-ApartUpto places left h same in
      fetch_one-atomic lossy host (place_at places) t preserve_mtime stats counter session p fs u64
        named (transfer-RootsApart accepts states opts (place_at places) es t (rw as_many apart) m)
        plain
