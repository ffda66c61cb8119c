-- ===== src/Core/Plan/Loop.antt =====
-- The loops of `build` compute what the specification says.
use adbrsync.Common.{ℕ, ◌+◌, ◌%◌, ◌^◌, ◌<◌, ◌≡◌, refl, sym, ap, arith, append_assoc}
use adbrsync.Common.{append-nil, Bool, true, false, ◌||◌, List, [], ◌∷◌, ◌++◌, map}
use adbrsync.Common.{Option, none, some, if◌then◌else◌, filter_map, any, sum_of, inl, inr}
use adbrsync.Common.{Option-cases}
use mathlib.Core.Path.{fun_ext}
use adbrsync.Common.Text.{Text}
use adbrsync.Common.Maps.{or_insert}
use adbrsync.Common.Sort.{sort_by}
use adbrsync.Common.TextOrder.{text_leb, dedup}
use adbrsync.Core.Entry.{RemoteEntry, path_join}
use adbrsync.Core.Plan.{PlanOptions, DestState, TransferItem, Reason, DestPlan}
use adbrsync.Core.Plan.{classify, index, visit_dests, Work}
use adbrsync.Core.Plan.{visit_entry, start, visit_entries, larger, extraneous, build}
use adbrsync.Core.Plan.{mark_deletions, delete_from}
use adbrsync.Core.Plan.Spec.{reason_for, targets_from, bump, is_candidate, planned}
use adbrsync.Core.Plan.Spec.{visit_dest, planned_dir, names, dest_after, final_dest}

visit_dests_lem :
    (e : RemoteEntry) (opts : PlanOptions) (i : ℕ) (ds : List DestState) (g : DestState → DestPlan)
    (reasons : Text → Option Reason)
    → let v = visit_dests e opts i ds (map g ds) reasons in
      (v.targets ≡ targets_from opts e i ds) × (v.dests ≡ map (λ d. bump opts e d (g d)) ds)
unfolding visit_dests targets_from reason_for
visit_dests_lem e opts i [] g reasons = (refl, refl)
visit_dests_lem e opts i (d ∷ ds) g reasons =
    elim (Option-cases (classify e (index d.local e.rel) opts d.digests)) [
      | inl q ↦ ground (arith, q, visit_dests_lem e opts (i + 1) ds g reasons)
      | inr (r, q) ↦
          ground (arith, q, visit_dests_lem e opts (i + 1) ds g (or_insert e.rel r reasons))
    ]

mark_deletions_lem :
    (accepts wanted : Text → Bool) (g : DestState → DestPlan) (ds : List DestState)
    → mark_deletions accepts wanted ds (map g ds) ≡ map (λ d. delete_from accepts wanted d (g d)) ds
unfolding mark_deletions
mark_deletions_lem accepts wanted g [] = refl
mark_deletions_lem accepts wanted g (d ∷ ds) =
    ap (λ t. delete_from accepts wanted d (g d) ∷ t) (mark_deletions_lem accepts wanted g ds)

-- The last step of `build`, with the deletions or without.
finish_dests :
    (delete : Bool) (accepts : Text → Bool) (ds : List DestState) {wanted wanted' : Text → Bool}
    {ps : List DestPlan} (g : DestState → DestPlan)
    → wanted ≡ wanted'
    → ps ≡ map g ds
    → (if delete then mark_deletions accepts wanted ds ps else ps)
      ≡ map
          (λ d. record (g d) {
            deletions =
                if delete
                then map (λ l. path_join d.root l.rel) (extraneous accepts wanted' d.local)
                else (g d).deletions;
          })
          ds
finish_dests true accepts ds {wanted} g e h = rw (h, ← e) (mark_deletions_lem accepts wanted g ds)
finish_dests false accepts ds g e h = h

module _ (accepts : Text → Bool) (dests : List DestState) (opts : PlanOptions) where
  -- The parts of the specification, in the section's parameters.
  abbrev some_list {ℓ} : {A : Type ℓ} → Option A → List A
  some_list none = []
  some_list (some x) = x ∷ []

  abbrev total_of : Option TransferItem → ℕ
  total_of none = 0
  total_of (some t) = t.size

  -- One round of the loop over the device's entries.
  module _ (w : Work) (e : RemoteEntry) (g : DestState → DestPlan)
      (h : w.plan.dests ≡ map g dests) where
    dests_step :
        (visit_entry accepts dests opts w e).plan.dests
        ≡ map (λ d. visit_dest accepts dests opts e d (g d)) dests
    unfolding visit_entry is_candidate
    dests_step = ground (arith, h, visit_dests_lem e opts 0 dests g w.plan.reasons)

    transfers_step :
        (visit_entry accepts dests opts w e).plan.transfers
        ≡ w.plan.transfers ++ some_list (planned accepts dests opts e)
    unfolding visit_entry is_candidate planned
    transfers_step =
        ground
          (arith, h, visit_dests_lem e opts 0 dests g w.plan.reasons, append-nil w.plan.transfers)

    total_step :
        w.plan.total_bytes < 2 ^ 64
        → (visit_entry accepts dests opts w e).plan.total_bytes
          ≡ (w.plan.total_bytes + total_of (planned accepts dests opts e)) % 2 ^ 64
    unfolding visit_entry is_candidate planned
    total_step b = ground (arith, h, visit_dests_lem e opts 0 dests g w.plan.reasons)

  module _ (w : Work) (e : RemoteEntry) where
    dirs_step :
        (visit_entry accepts dests opts w e).plan.dirs
        ≡ w.plan.dirs ++ some_list (planned_dir accepts e)
    unfolding visit_entry
    dirs_step = ground (arith, append-nil w.plan.dirs)

    wanted_step :
        (rel : Text)
        → (visit_entry accepts dests opts w e).wanted rel ≡ (w.wanted rel || names accepts rel e)
    unfolding visit_entry
    wanted_step rel = ground arith

  dests_loop :
      (es : List RemoteEntry) (w : Work) (g : DestState → DestPlan)
      → w.plan.dests ≡ map g dests
      → (visit_entries accepts dests opts w es).plan.dests
        ≡ map (λ d. dest_after accepts dests opts d (g d) es) dests
  unfolding visit_entries dest_after
  dests_loop [] w g h = h
  dests_loop (e ∷ es) w g h =
      dests_loop es (visit_entry accepts dests opts w e)
        (λ d. visit_dest accepts dests opts e d (g d)) (dests_step w e g h)

  transfers_loop :
      (es : List RemoteEntry) (w : Work) (g : DestState → DestPlan)
      → w.plan.dests ≡ map g dests
      → (visit_entries accepts dests opts w es).plan.transfers
        ≡ w.plan.transfers ++ filter_map (planned accepts dests opts) es
  unfolding visit_entries
  transfers_loop [] w g h = sym (append-nil w.plan.transfers)
  transfers_loop (e ∷ es) w g h = ground (
    arith,
    transfers_loop es (visit_entry accepts dests opts w e)
        (λ d. visit_dest accepts dests opts e d (g d)) (dests_step w e g h),
    transfers_step w e g h,
    append_assoc w.plan.transfers (some_list (planned accepts dests opts e))
        (filter_map (planned accepts dests opts) es),
  )

  dirs_loop :
      (es : List RemoteEntry) (w : Work)
      → (visit_entries accepts dests opts w es).plan.dirs
        ≡ w.plan.dirs ++ filter_map (planned_dir accepts) es
  unfolding visit_entries
  dirs_loop [] w = sym (append-nil w.plan.dirs)
  dirs_loop (e ∷ es) w = ground (
    arith,
    dirs_loop es (visit_entry accepts dests opts w e),
    dirs_step w e,
    append_assoc w.plan.dirs (some_list (planned_dir accepts e))
        (filter_map (planned_dir accepts) es),
  )

  total_loop :
      (es : List RemoteEntry) (w : Work) (g : DestState → DestPlan)
      → w.plan.dests ≡ map g dests
      → w.plan.total_bytes < 2 ^ 64
      → (visit_entries accepts dests opts w es).plan.total_bytes
        ≡ (w.plan.total_bytes + sum_of (λ t. t.size) (filter_map (planned accepts dests opts) es))
          % 2 ^ 64
  unfolding visit_entries
  total_loop [] w g h b = omega arith
  total_loop (e ∷ es) w g h b = ground (
    arith,
    total_loop es (visit_entry accepts dests opts w e)
        (λ d. visit_dest accepts dests opts e d (g d)) (dests_step w e g h),
    total_step w e g h,
  )

  wanted_loop :
      (es : List RemoteEntry) (w : Work) (rel : Text)
      → (visit_entries accepts dests opts w es).wanted rel
        ≡ (w.wanted rel || any (names accepts rel) es)
  unfolding visit_entries
  wanted_loop [] w rel = ground arith
  wanted_loop (e ∷ es) w rel =
      ground (arith, wanted_loop es (visit_entry accepts dests opts w e) rel, wanted_step w e rel)

  -- The parts of the plan.
  module _ (es : List RemoteEntry) where
    pub build-transfers :
        (build accepts dests opts es).transfers
        ≡ sort_by larger (filter_map (planned accepts dests opts) es)
    unfolding build
    build-transfers = ap (sort_by larger) (transfers_loop es (start accepts dests opts) _ refl)

    pub build-dirs :
        (build accepts dests opts es).dirs
        ≡ dedup (sort_by text_leb (filter_map (planned_dir accepts) es))
    unfolding build
    build-dirs = ap (λ t. dedup (sort_by text_leb t)) (dirs_loop es (start accepts dests opts))

    pub build-total_bytes :
        (build accepts dests opts es).total_bytes
        ≡ sum_of (λ t. t.size) (filter_map (planned accepts dests opts) es) % 2 ^ 64
    unfolding build
    build-total_bytes = omega (arith, total_loop es (start accepts dests opts) _ refl (omega arith))

    pub build-dests :
        (build accepts dests opts es).dests ≡ map (final_dest accepts dests opts es) dests
    unfolding build
    build-dests =
        finish_dests opts.delete accepts dests _
          (fun_ext (wanted_loop es (start accepts dests opts)))
          (dests_loop es (start accepts dests opts) _ refl)
