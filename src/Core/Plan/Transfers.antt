-- ===== src/Core/Plan/Transfers.antt =====
-- Which files `build` transfers, to which destinations, in which order, and what it counts.
use mathlib.Core.List.{Mem, Perm}
use mathlib.Core.Logic.{∥∥₁_map}
use adbrsync.Common.Members.{mem-filter_map_iff}
use mathlib.Core.List.Perm
use adbrsync.Common.{ℕ, zero, suc, ◌+◌, ◌%◌, ◌^◌, ◌<◌, ◌≡◌, ◌≢◌, refl, ◌∙◌, arith}
use adbrsync.Common.{Bool, true, false, List, [], ◌∷◌, none, some, ◌==◌}
use adbrsync.Common.{filter_map, any, sum_of, get_elem?}
use adbrsync.Common.Text.{Text}
use adbrsync.Common.Sort.{sort_by-perm, sort_by-Sorted, Sorted, sum_of-sort_by}
use adbrsync.Core.Entry.{RemoteEntry}
use adbrsync.Core.Plan.{PlanOptions, DestState, TransferItem, larger, build}
use adbrsync.Core.Plan.Spec.{is_stale, targets_from, is_candidate, planned}
use adbrsync.Core.Plan.Loop.{build-transfers, build-total_bytes}

-- Destination `i` exists and needs the entry.
abbrev pub needs : PlanOptions → List DestState → RemoteEntry → ℕ → Bool
needs opts dests e i = elim (get_elem? dests i) [ none ↦ false | some d ↦ is_stale opts d e ]

targets_below :
    (opts : PlanOptions) (e : RemoteEntry) (i j : ℕ) (ds : List DestState)
    → i < j
    → any (λ k. k == i) (targets_from opts e j ds) ≡ false
unfolding targets_from
targets_below opts e i j [] h = refl
targets_below opts e i j (d ∷ ds) h = ground (arith, targets_below opts e i (j + 1) ds)

pub targets_from_lem :
    (opts : PlanOptions) (e : RemoteEntry) (i j : ℕ) (ds : List DestState)
    → any (λ k. k == (j + i)) (targets_from opts e j ds) ≡ needs opts ds e i
unfolding targets_from
targets_from_lem opts e i j [] = refl
targets_from_lem opts e zero j (d ∷ ds) = ground (arith, targets_below opts e (j + 0) (j + 1) ds)
targets_from_lem opts e (suc i) j (d ∷ ds) =
    let same : j + suc i ≡ j + 1 + i = omega arith in
    rw same (ground (arith, targets_from_lem opts e i (j + 1) ds))

module _ (accepts : Text → Bool) (dests : List DestState) (opts : PlanOptions) where
  -- The transfer `t` reads the entry `e`, and names exactly the destinations that need it.
  pub record IsTransferOf (e : RemoteEntry) (t : TransferItem) : Type 0 where
    pub candidate : is_candidate accepts dests opts e ≡ true
    pub rel : t.rel ≡ e.rel
    pub remote : t.remote ≡ e.remote
    pub size : t.size ≡ e.size
    pub mtime : t.mtime ≡ e.mtime
    pub some_target : t.targets ≢ []
    pub targets : (i : ℕ) → any (λ k. k == i) t.targets ≡ needs opts dests e i

  planned-IsTransferOf :
      (e : RemoteEntry) (t : TransferItem)
      → planned accepts dests opts e ≡ some t
      → IsTransferOf e t
  unfolding planned
  planned-IsTransferOf e t h = record {
    candidate = ground arith;
    rel = ground arith;
    remote = ground arith;
    size = ground arith;
    mtime = ground arith;
    some_target = λ z. ground arith;
    targets = λ i. ground (arith, targets_from_lem opts e i 0 dests);
  }

  planned-some :
      (e : RemoteEntry) (i : ℕ) (l : List ℕ)
      → targets_from opts e 0 dests ≡ l
      → is_candidate accepts dests opts e ≡ true
      → needs opts dests e i ≡ true
      → (t : TransferItem) × (planned accepts dests opts e ≡ some t)
  unfolding planned
  planned-some e i [] same c n = cc (rw same at (targets_from_lem opts e i 0 dests))
  planned-some e i (k ∷ ks) same c n = (
    record { rel = e.rel; remote = e.remote; size = e.size; mtime = e.mtime; targets = k ∷ ks },
    ground arith,
  )

  pub transfers-perm :
      (es : List RemoteEntry)
      → Perm (build accepts dests opts es).transfers (filter_map (planned accepts dests opts) es)
  transfers-perm es = rw build-transfers (sort_by-perm larger _)

  -- Each transfer of the plan reads a candidate of the scan, and its targets are exactly the
  -- destinations whose copy is missing or differs, of which there is at least one.
  pub transfers_sound :
      (es : List RemoteEntry) (t : TransferItem)
      → Mem t (build accepts dests opts es).transfers
      → ∥ ((e : RemoteEntry) × Mem e es × IsTransferOf e t) ∥₁
  transfers_sound es t m =
      ∥∥₁_map
        ((mem-filter_map_iff (planned accepts dests opts) es).0
          ((Perm.mem_iff (transfers-perm es)).0 m))
        (λ (e, me, p). (e, me, planned-IsTransferOf e t p))

  -- A candidate of the scan that some destination needs has a transfer.
  pub transfers_complete :
      (es : List RemoteEntry) (e : RemoteEntry) (i : ℕ)
      → Mem e es
      → is_candidate accepts dests opts e ≡ true
      → needs opts dests e i ≡ true
      → ∥ ((t : TransferItem) × Mem t (build accepts dests opts es).transfers × IsTransferOf e t) ∥₁
  transfers_complete es e i me c n =
      let (t, p) = planned-some e i _ refl c n in
      ∣ (
        t,
        (Perm.mem_iff (transfers-perm es)).1
            ((mem-filter_map_iff (planned accepts dests opts) es).1 ∣ (e, me, p) ∣₁),
        planned-IsTransferOf e t p,
      ) ∣₁

  -- The largest files come first.
  pub transfers_largest_first :
      (es : List RemoteEntry) → Sorted larger (build accepts dests opts es).transfers
  transfers_largest_first es =
      rw build-transfers
        (sort_by-Sorted larger (λ a b c p q. ground arith) (λ a b p. ground arith) _)

  -- The plan's byte count is that of its transfers, each file once, modulo 2 ^ 64.
  pub total_bytes-transfers :
      (es : List RemoteEntry)
      → (build accepts dests opts es).total_bytes
        ≡ sum_of (λ t. t.size) (build accepts dests opts es).transfers % 2 ^ 64
  total_bytes-transfers es =
      build-total_bytes accepts dests opts es ∙ rw (build-transfers, sum_of-sort_by)
