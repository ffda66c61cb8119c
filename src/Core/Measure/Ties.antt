-- ===== src/Core/Measure/Ties.antt =====
-- What `measure_cost` answers does not depend on the order of the samples, so files of one size
-- count alike.
use mathlib.Core.List.{Perm}
use mathlib.Core.List.Perm
use mathlib.Core.Option
use native.Mathlib.Nat.{mod-add-mod}
use adbrsync.Common.{ℕ, ◌+◌, ◌%◌, ◌^◌, ◌≡◌, refl, ◌∙◌, arith}
use adbrsync.Common.{Bool, ◌||◌, ltb, if◌then◌else◌, Bool-cases, Option-cases}
use adbrsync.Common.{List, [], ◌∷◌, Option, none, some, length, keep, inl, inr, sum_of}
use adbrsync.Common.Members.{length-perm, keep-perm}
use adbrsync.Common.Counting.{sort_by-perm_eq, sum_of-perm, median, median-perm}
use adbrsync.Core.Measure.{Sample, Float, CostModel, min_samples, durations, sum64}
use adbrsync.Core.Measure.{
  threshold_of, at_most, rate_of, byte_time, measure_group, measure_cost, no_cost,
}

pub sum64_lem : (t : ℕ) (ns : List ℕ) → sum64 (t % 2 ^ 64) ns ≡ (t + sum_of (λ n. n) ns) % 2 ^ 64
unfolding sum64
sum64_lem t [] = omega arith
sum64_lem t (n ∷ ns) = rw (mod-add-mod t (2 ^ 64) n) (sum64_lem (t + n) ns ∙ omega arith)

sum64-perm : {ms ns : List ℕ} → Perm ms ns → sum64 0 ms ≡ sum64 0 ns
sum64-perm {ms} {ns} p = omega (arith, sum64_lem 0 ms, sum64_lem 0 ns, sum_of-perm p)

threshold_of-perm : {xs ys : List Sample} → Perm xs ys → threshold_of xs ≡ threshold_of ys
unfolding threshold_of
threshold_of-perm p = rw (sort_by-perm_eq (Perm.map (λ s. s.size) p), length-perm p) refl

module _ {W : Type 0} (float : Float W) where
  -- The fixed cost, and how many files it is taken from.
  abbrev pub verdict : CostModel W → Option ℕ × Option ℕ
  verdict c = (c.fixed, Option.map (λ b. b.0) c.basis)

  byte_time-perm :
      (rate : W) {g h : List Sample} → Perm g h → byte_time float rate g ≡ byte_time float rate h
  unfolding byte_time
  byte_time-perm rate p =
      let bytes = sum64-perm (Perm.map (λ s. s.size) p) in
      let files = length-perm p in
      λ i. float.over (float.over (float.of_ℕ (bytes i)) (float.of_ℕ (files i))) rate

  measure_group-perm :
      (rate : W) (g h : List Sample)
      → Perm g h
      → Option.map verdict (measure_group float rate g)
        ≡ Option.map verdict (measure_group float rate h)
  unfolding measure_group
  measure_group-perm rate g h p =
      let files = length-perm p in
      let time = byte_time-perm rate p in
      let middle = median-perm (Perm.map (λ s. s.duration) p) in
      elim (Bool-cases (ltb (length h) min_samples)) [
        | inl few ↦ rw (files, few) refl
        | inr many ↦ elim (Option-cases (median (durations h))) [
          | inl n ↦ rw (files, many, middle, n) refl
          | inr (m, e) ↦
              elim (Bool-cases
                (float.lt (float.times (float.as_secs m) float.half) (byte_time float rate h))) [
                  | inl b ↦ rw (files, many, middle, e, time, b) refl
                  | inr b ↦ rw (files, many, middle, e, time, b) refl
                ]
        ]
      ]

  -- The test and the steps of `measure_cost`.
  abbrev refuses : List Sample → Bool
  refuses samples =
      ltb (length samples) min_samples || float.le (rate_of float samples) float.nought

  abbrev measure_from : W → Option ℕ → List Sample → Option (CostModel W)
  measure_from rate none samples = none
  measure_from rate (some t) samples = measure_group float rate (keep (at_most t) samples)

  measure_cost_lem :
      (samples : List Sample)
      → measure_cost float samples ≡ (
          if refuses samples
          then some (no_cost float (rate_of float samples))
          else measure_from (rate_of float samples) (threshold_of samples) samples)
  unfolding measure_cost
  measure_cost_lem samples = ground arith

  -- The fixed cost, and the number of files that it comes from, are the same for samples in any
  -- order, if the rate is.
  pub measure_cost-perm :
      (xs ys : List Sample)
      → Perm xs ys
      → rate_of float xs ≡ rate_of float ys
      → Option.map verdict (measure_cost float xs) ≡ Option.map verdict (measure_cost float ys)
  measure_cost-perm xs ys p r =
      let files = length-perm p in
      elim (Bool-cases (refuses ys)) [
        | inl refused ↦ rw (measure_cost_lem xs, measure_cost_lem ys, files, r, refused) refl
        | inr tried ↦ elim (Option-cases (threshold_of ys)) [
          | inl n ↦
              rw (measure_cost_lem xs, measure_cost_lem ys, files, r, tried, threshold_of-perm p, n)
                refl
          | inr (t, e) ↦
              rw (measure_cost_lem xs, measure_cost_lem ys, files, r, tried, threshold_of-perm p, e)
                (measure_group-perm (rate_of float ys) _ _ (keep-perm (at_most t) p))
        ]
      ]
