-- ===== src/Core/Plan.antt =====
-- crates/adbrsync-core/src/plan.rs: comparing the device tree with every destination.
-- A filter enters as its `accepts`. Byte counts are `u64` and wrap as in a release build; the other
-- counters are bounded by the lengths of lists in memory. Modification times are `i64`.
pub mod Spec
pub mod Loop
pub mod Transfers
pub mod Destinations
pub mod Deletions
pub mod Comparison
pub mod Dirs
pub mod Converge
mod Examples
use adbrsync.Common.{ℕ, ◌+◌, ◌%◌, ◌^◌, Bool, true, false, not, ◌&&◌, List, [], ◌∷◌, ◌++◌, map}
use adbrsync.Common.{Option, none, some, ltb, leb, ◌==◌, if◌then◌else◌, length, keep, all, sum_of}
use adbrsync.Common.Text.{Text, is_empty}
use adbrsync.Common.Int.{ℤ, ◌-ℤ◌, ltb_ℤ, wrap_i64, abs_i64}
use adbrsync.Common.Maps.{put, or_insert, add}
use adbrsync.Common.Sort.{sort_by}
use adbrsync.Common.TextOrder.{text_leb, dedup}
use adbrsync.Core.Entry.{
  EntryKind, file, dir, symlink, RemoteEntry, LocalEntry, FilePath, path_join,
}
use adbrsync.Core.Digests.{Digests, matches}
use mathlib.Core.List.{foldl}

pub record PlanOptions : Type 0 where
  pub delete : Bool
  pub mtime_tolerance : ℤ
  pub min_size : Option ℕ
  pub max_size : Option ℕ
  pub checksum : Bool

-- One destination's current contents.
pub record DestState : Type 0 where
  pub root : FilePath
  pub local : List LocalEntry
  pub digests : Digests

pub record TransferItem : Type 0 where
  pub rel : Text
  pub remote : Text
  pub size : ℕ
  pub mtime : ℤ
  pub targets : List ℕ

pub data Reason : Type 0 where
  missing size_differs time_differs content_differs : Reason

pub record DestPlan : Type 0 where
  pub root : FilePath
  pub files : ℕ
  pub bytes : ℕ
  pub unchanged : ℕ
  pub deletions : List FilePath

pub record Plan : Type 0 where
  pub dirs : List Text
  pub transfers : List TransferItem
  pub reasons : Text → Option Reason
  pub dests : List DestPlan
  pub filtered : ℕ
  pub symlinks_skipped : ℕ
  pub total_bytes : ℕ

abbrev pub no_deletions : DestPlan → Bool
no_deletions d = elim d.deletions [ [] ↦ true | p ∷ ps ↦ false ]

unfoldable pub is_empty_plan : Plan → Bool
is_empty_plan p =
    (elim p.transfers [ [] ↦ true | t ∷ ts ↦ false ])
    && (elim p.dirs [ [] ↦ true | d ∷ ds ↦ false ])
    && all no_deletions p.dests

unfoldable pub deletions_total : Plan → ℕ
deletions_total p = sum_of (λ d. length d.deletions) p.dests

least : ℕ → List ℕ → ℕ
least m [] = m
least m (n ∷ ns) = least (if ltb n m then n else m) ns

unfoldable pub unchanged_everywhere : Plan → ℕ
unfolding least
unchanged_everywhere p = elim p.dests [
  | [] ↦ 0
  | d ∷ ds ↦ least d.unchanged (map (λ e. e.unchanged) ds)
]

-- `u64` addition
abbrev pub add64 : ℕ → ℕ → ℕ
add64 a b = (a + b) % 2 ^ 64

abbrev pub is_file : EntryKind → Bool
is_file file = true
is_file dir = false
is_file symlink = false

unfoldable pub classify : RemoteEntry → Option LocalEntry → PlanOptions → Digests → Option Reason
classify remote none opts digests = some missing
classify remote (some local) opts digests =
    if not (is_file local.kind)
    then some missing
    else if opts.checksum
    then (if matches digests remote.rel then none else some content_differs)
    else if not (local.size == remote.size)
    then some size_differs
    else if ltb_ℤ opts.mtime_tolerance (abs_i64 (wrap_i64 (local.mtime -ℤ remote.mtime)))
    then some time_differs
    else none

-- The map of a destination's entries by path: a later entry replaces an earlier one.
unfoldable pub index_onto : (Text → Option LocalEntry) → List LocalEntry → Text → Option LocalEntry
index_onto m [] = m
index_onto m (e ∷ es) = index_onto (put e.rel e m) es

unfoldable pub index : List LocalEntry → Text → Option LocalEntry
unfolding index_onto
index = index_onto (λ rel. none)

-- What the loop over the destinations changes for one file.
pub record Visit : Type 0 where
  pub targets : List ℕ
  pub dests : List DestPlan
  pub reasons : Text → Option Reason

-- `for (i, dest) in dests.iter().enumerate()`; the plan's destinations are as many.
unfoldable pub visit_dests :
    RemoteEntry → PlanOptions → ℕ → List DestState → List DestPlan → (Text → Option Reason) → Visit
visit_dests e opts i (d ∷ ds) (p ∷ ps) reasons =
    elim (classify e (index d.local e.rel) opts d.digests) [
      | some reason ↦
          let rest = visit_dests e opts (i + 1) ds ps (or_insert e.rel reason reasons) in
          record {
            targets = i ∷ rest.targets;
            dests = record p { files = p.files + 1; bytes = add64 p.bytes e.size } ∷ rest.dests;
            reasons = rest.reasons;
          }
      | none ↦
          let rest = visit_dests e opts (i + 1) ds ps reasons in
          record {
            targets = rest.targets;
            dests = record p { unchanged = p.unchanged + 1 } ∷ rest.dests;
            reasons = rest.reasons;
          }
    ]
visit_dests e opts i _ ps reasons = record { targets = []; dests = ps; reasons = reasons }

-- The size limits of a file.
abbrev pub too_small : Option ℕ → ℕ → Bool
too_small none size = false
too_small (some min) size = ltb size min

abbrev pub too_large : Option ℕ → ℕ → Bool
too_large none size = false
too_large (some max) size = ltb max size

-- Largest first: `sort_by_key(|t| Reverse(t.size))`.
abbrev pub larger : TransferItem → TransferItem → Bool
larger a b = leb b.size a.size

-- Deepest first: `sort_by_key(|e| Reverse(e.rel.len()))`.
abbrev pub deeper : LocalEntry → LocalEntry → Bool
deeper a b = leb (length b.rel) (length a.rel)

unfoldable pub extraneous : (Text → Bool) → (Text → Bool) → List LocalEntry → List LocalEntry
extraneous accepts wanted local =
    sort_by deeper (keep (λ e. accepts e.rel) (keep (λ e. not (wanted e.rel)) local))

abbrev delete_from : (Text → Bool) → (Text → Bool) → DestState → DestPlan → DestPlan
delete_from accepts wanted d p = record p {
  deletions = map (λ e. path_join d.root e.rel) (extraneous accepts wanted d.local);
}

-- The deletions of every destination.
mark_deletions : (Text → Bool) → (Text → Bool) → List DestState → List DestPlan → List DestPlan
mark_deletions accepts wanted (d ∷ ds) (p ∷ ps) =
    delete_from accepts wanted d p ∷ mark_deletions accepts wanted ds ps
mark_deletions accepts wanted _ ps = ps

-- The plan so far, and the paths that the device has.
pub record Work : Type 0 where
  pub plan : Plan
  pub wanted : Text → Bool

module _ (accepts : Text → Bool) (dests : List DestState) (opts : PlanOptions) where
  -- The arm of a regular file.
  unfoldable pub visit_file : Plan → RemoteEntry → Plan
  visit_file plan e =
      if too_small opts.min_size e.size
      then record plan { filtered = plan.filtered + 1 }
      else if too_large opts.max_size e.size
      then record plan { filtered = plan.filtered + 1 }
      else (let v = visit_dests e opts 0 dests plan.dests plan.reasons in
          let plan' = record plan { reasons = v.reasons; dests = v.dests } in
          elim v.targets [
            | [] ↦ plan'
            | t ∷ ts ↦ record plan' {
              total_bytes = add64 plan.total_bytes e.size;
              transfers =
                  plan.transfers
                  ++ record {
                    rel = e.rel;
                    remote = e.remote;
                    size = e.size;
                    mtime = e.mtime;
                    targets = t ∷ ts;
                  }
                    ∷ [];
            }
          ])

  unfoldable pub visit_entry : Work → RemoteEntry → Work
  unfolding visit_file
  visit_entry w e =
      if is_empty e.rel
      then w
      else if not (accepts e.rel)
      then record w { plan = record (w.plan) { filtered = w.plan.filtered + 1 } }
      else record {
        wanted = add e.rel w.wanted;
        plan = elim e.kind [
          | dir ↦ record (w.plan) { dirs = w.plan.dirs ++ e.rel ∷ [] }
          | symlink ↦ record (w.plan) { symlinks_skipped = w.plan.symlinks_skipped + 1 }
          | file ↦ visit_file (w.plan) e
        ];
      }

  abbrev pub start : Work
  start = record {
    plan = record {
      dirs = [];
      transfers = [];
      reasons = λ rel. none;
      dests =
          map (λ d. record { root = d.root; files = 0; bytes = 0; unchanged = 0; deletions = [] })
            dests;
      filtered = 0;
      symlinks_skipped = 0;
      total_bytes = 0;
    };
    wanted = λ rel. false;
  }

  unfoldable pub visit_entries : Work → List RemoteEntry → Work
  unfolding visit_entry
  visit_entries = foldl visit_entry

  unfoldable pub finish : Work → Plan
  unfolding extraneous mark_deletions
  finish w = record (w.plan) {
    transfers = sort_by larger w.plan.transfers;
    dirs = dedup (sort_by text_leb w.plan.dirs);
    dests =
        if opts.delete then mark_deletions accepts w.wanted dests w.plan.dests else w.plan.dests;
  }

  unfoldable pub build : List RemoteEntry → Plan
  unfolding visit_entries finish
  build entries = finish (visit_entries start entries)
