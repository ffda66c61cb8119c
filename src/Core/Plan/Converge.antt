-- ===== src/Core/Plan/Converge.antt =====
-- A second run over destinations that are up to date transfers nothing.
use adbrsync.Common.{ℕ, ◌+◌, ◌≡◌, refl, arith, Bool, true, false, List, [], ◌∷◌, some}
use adbrsync.Common.{filter_map, All, Bool-cases, inl, inr}
use adbrsync.Common.Text.{Text}
use adbrsync.Common.Int.{pos, wrap_i64-sub_self}
use adbrsync.Common.Sort.{sort_by}
use adbrsync.Core.Entry.{RemoteEntry, LocalEntry}
use adbrsync.Core.Plan.{PlanOptions, DestState, is_file, classify, index, build}
use adbrsync.Core.Plan.Spec.{reason_for, targets_from, is_candidate, planned}
use adbrsync.Core.Plan.Loop.{build-transfers}

-- The destination has a file of the entry's size and time at its path.
pub record IsCurrent (e : RemoteEntry) (d : DestState) : Type 0 where
  pub copy : LocalEntry
  pub found : index d.local e.rel ≡ some copy
  pub regular : is_file copy.kind ≡ true
  pub same_size : copy.size ≡ e.size
  pub same_time : copy.mtime ≡ e.mtime

module _ (opts : PlanOptions) (tol : ℕ) (quick : opts.checksum ≡ false)
    (tolerance : opts.mtime_tolerance ≡ pos tol) where
  current-no_target :
      (e : RemoteEntry) (i : ℕ) (ds : List DestState)
      → All (IsCurrent e) ds
      → targets_from opts e i ds ≡ []
  unfolding targets_from reason_for classify
  current-no_target e i [] h = refl
  current-no_target e i (d ∷ ds) h = ground (
    arith,
    h.0.found,
    h.0.regular,
    h.0.same_size,
    h.0.same_time,
    wrap_i64-sub_self e.mtime,
    current-no_target e (i + 1) ds h.1,
  )

  module _ (accepts : Text → Bool) (dests : List DestState) where
    All-current :
        (es : List RemoteEntry)
        → All (λ e. is_candidate accepts dests opts e ≡ true → All (IsCurrent e) dests) es
        → filter_map (planned accepts dests opts) es ≡ []
    unfolding planned
    All-current [] h = refl
    All-current (e ∷ es) h = elim (Bool-cases (is_candidate accepts dests opts e)) [
      | inl c ↦ ground (arith, c, current-no_target e 0 dests (h.0 c), All-current es h.1)
      | inr c ↦ ground (arith, c, All-current es h.1)
    ]

    -- In the quick check with a tolerance that is not negative, when each destination has for each
    -- candidate of the scan a file of the same size and time, the plan transfers nothing.
    pub converged :
        (es : List RemoteEntry)
        → All (λ e. is_candidate accepts dests opts e ≡ true → All (IsCurrent e) dests) es
        → (build accepts dests opts es).transfers ≡ []
    unfolding sort_by
    converged es h = rw build-transfers (rw (All-current es h))
