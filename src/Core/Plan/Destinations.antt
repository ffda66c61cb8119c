-- ===== src/Core/Plan/Destinations.antt =====
-- What `build` records of each destination, against the transfers that it plans.
use adbrsync.Common.{ℕ, zero, suc, ◌+◌, ◌%◌, ◌^◌, ◌<◌, ◌≡◌, refl, arith}
use adbrsync.Common.{Bool, ◌&&◌, List, [], ◌∷◌, some, map}
use adbrsync.Common.{if◌then◌else◌, ◌==◌, filter_map, any, sum_of, get_elem?}
use adbrsync.Common.Text.{Text}
use adbrsync.Common.Sort.{sum_of-sort_by}
use adbrsync.Core.Entry.{RemoteEntry}
use adbrsync.Core.Plan.{PlanOptions, DestState, TransferItem, DestPlan, build}
use adbrsync.Core.Plan.Spec.{is_stale, is_candidate, planned, visit_dest, dest_after, final_dest}
use adbrsync.Core.Plan.Loop.{build-transfers, build-dests}
use adbrsync.Core.Plan.Transfers.{targets_from_lem}

pub get_elem?-map :
    {A B : Type 0} (f : A → B) (xs : List A) (i : ℕ) {x : A}
    → get_elem? xs i ≡ some x
    → get_elem? (map f xs) i ≡ some (f x)
get_elem?-map f [] i h = cc
get_elem?-map f (x ∷ xs) zero h = ground arith
get_elem?-map f (x ∷ xs) (suc i) h = get_elem?-map f xs i h

module _ (accepts : Text → Bool) (dests : List DestState) (opts : PlanOptions) where
  abbrev stale_candidate : DestState → RemoteEntry → Bool
  stale_candidate d e = is_candidate accepts dests opts e && is_stale opts d e

  -- The counters of a destination after the entries.
  module _ (d : DestState) where
    dest_after_lem :
        (es : List RemoteEntry) (p : DestPlan)
        → p.bytes < 2 ^ 64
        → let q = dest_after accepts dests opts d p es in
          (q.root ≡ p.root)
          × (q.files ≡ p.files + sum_of (λ e. if stale_candidate d e then 1 else 0) es)
          × (q.bytes
              ≡ (p.bytes + sum_of (λ e. if stale_candidate d e then e.size else 0) es) % 2 ^ 64)
          × (q.files + q.unchanged
              ≡ p.files
                + p.unchanged
                + sum_of (λ e. if is_candidate accepts dests opts e then 1 else 0) es)
    unfolding dest_after
    dest_after_lem [] p b = ground arith
    dest_after_lem (e ∷ es) p b =
        ground (arith, dest_after_lem es (visit_dest accepts dests opts e d p))

  module _ (weight : ℕ → ℕ) (i : ℕ) (d : DestState) (at : get_elem? dests i ≡ some d) where
    -- What the transfers bring to destination `i`, counted by `weight` of their sizes.
    abbrev share : TransferItem → ℕ
    share t = if any (λ k. k == i) t.targets then weight t.size else 0

    abbrev need : RemoteEntry → ℕ
    need e = if stale_candidate d e then weight e.size else 0

    shares-planned :
        (es : List RemoteEntry)
        → sum_of share (filter_map (planned accepts dests opts) es) ≡ sum_of need es
    unfolding planned
    shares-planned [] = refl
    shares-planned (e ∷ es) =
        ground (arith, at, targets_from_lem opts e i 0 dests, shares-planned es)

    pub shares-transfers :
        (es : List RemoteEntry)
        → sum_of share (build accepts dests opts es).transfers ≡ sum_of need es
    shares-transfers es = rw (build-transfers, sum_of-sort_by) (shares-planned es)

  -- The record of a destination agrees with the transfers: `files` counts those that name it, `bytes`
  -- adds up their sizes modulo 2 ^ 64, and every candidate is either among them or `unchanged`.
  pub dest_accounts :
      (es : List RemoteEntry) (i : ℕ) (d : DestState)
      → get_elem? dests i ≡ some d
      → let plan = build accepts dests opts es in
        (p : DestPlan) × (get_elem? plan.dests i ≡ some p)
        × (p.root ≡ d.root)
        × (p.files ≡ sum_of (λ t. if any (λ k. k == i) t.targets then 1 else 0) plan.transfers)
        × (p.bytes
            ≡ sum_of (λ t. if any (λ k. k == i) t.targets then t.size else 0) plan.transfers
              % 2 ^ 64)
        × (p.files + p.unchanged
            ≡ sum_of (λ e. if is_candidate accepts dests opts e then 1 else 0) es)
  dest_accounts es i d at =
      let (root, files, bytes, all_files) =
        dest_after_lem d es
          (record { root = d.root; files = 0; bytes = 0; unchanged = 0; deletions = [] })
          (omega arith) in
      (
        final_dest accepts dests opts es d,
        rw (build-dests) (get_elem?-map (final_dest accepts dests opts es) dests i at),
        root,
        omega (arith, files, shares-transfers (λ s. 1) i d at es),
        omega (arith, bytes, shares-transfers (λ s. s) i d at es),
        omega (arith, all_files),
      )
