-- ===== src/Core/Measure/Threshold.antt =====
-- Which files `measure_cost` measures, and when it gives an answer.
use adbrsync.Common.{ℕ, max, ◌-◌, ◌/◌, ◌≤◌, ◌<◌, ◌≡◌, refl, ◌∙◌, arith}
use adbrsync.Common.{Bool, true, false, leb, ltb, if◌then◌else◌, Bool-cases}
use adbrsync.Common.{List, [], ◌∷◌, none, some, length, keep, inl, inr, ◌⊎◌}
use adbrsync.Common.{count_of, length-map}
use adbrsync.Common.Sort.{sort_by}
use adbrsync.Common.Counting.{
  get_elem?-some, count_less, length-keep, length-sort_by, count_of-sort_by, count_below,
}
use adbrsync.Common.Counting.{sort_by-leb-Sorted, median, IsMedian, median-IsMedian}
use adbrsync.Core.Measure.{Sample, Float, CostModel, min_samples, sizes, durations}
use adbrsync.Core.Measure.{cut_of, threshold_of, at_most, last_size, rate_of, no_cost}
use adbrsync.Core.Measure.{byte_time, measure_group, measure_cost}

abbrev pub below : ℕ → Sample → Bool
below t s = ltb s.size t

count_of-sizes :
    (t : ℕ) (xs : List Sample)
    → (count_of (λ n. leb n t) (sizes xs) ≡ count_of (at_most t) xs)
      × (count_of (λ n. ltb n t) (sizes xs) ≡ count_of (below t) xs)
count_of-sizes t [] = (refl, refl)
count_of-sizes t (x ∷ xs) =
    let (most, less) = count_of-sizes t xs in (omega (arith, most), omega (arith, less))

-- How many files are to be measured at the least: a tenth of the run, and 20.
abbrev pub wanted : List Sample → ℕ
wanted samples = max (length samples / 10) 20

-- The least size up to which there are as many files as are to be measured.
abbrev pub IsThreshold : List Sample → ℕ → Type 0
IsThreshold samples t =
    (wanted samples ≤ count_of (at_most t) samples) × (count_of (below t) samples < wanted samples)

threshold_of-IsThreshold :
    (samples : List Sample)
    → 20 ≤ length samples
    → (t : ℕ) × (threshold_of samples ≡ some t) × IsThreshold samples t
unfolding threshold_of cut_of
threshold_of-IsThreshold samples h =
    let n = length samples in
    let ns = sort_by leb (sizes samples) in
    let all : length ns ≡ n =
      length-sort_by leb (sizes samples) ∙ length-map (λ s. s.size) samples in
    let (t, e) = get_elem?-some ns (cut_of n - 1) (omega (arith, all)) in
    let sorted = sort_by-leb-Sorted (sizes samples) in
    let (most, less) = count_of-sizes t samples in
    (
      t,
      e,
      (
        omega (
          arith,
          count_below ns (cut_of n - 1) t sorted e,
          count_of-sort_by leb (λ m. leb m t) (sizes samples),
          most,
        ),
        omega (
          arith,
          count_less ns (cut_of n - 1) t sorted e,
          count_of-sort_by leb (λ m. ltb m t) (sizes samples),
          less,
        ),
      ),
    )

module _ {W : Type 0} (float : Float W) where
  open float use {nought, half, from_secs, as_secs, times, lt, le}

  abbrev pub group_of : List Sample → ℕ → List Sample
  group_of samples t = keep (at_most t) samples

  abbrev pub bytes_dominate : List Sample → ℕ → ℕ → Bool
  bytes_dominate samples t m =
      lt (times (as_secs m) half) (byte_time float (rate_of float samples) (group_of samples t))

  -- There are enough files, there is a rate, `t` is the threshold, and `m` is the median of the
  -- durations of the files up to it.
  pub record IsGroup (samples : List Sample) (t m : ℕ) : Type 0 where
    pub enough : 20 ≤ length samples
    pub rated : le (rate_of float samples) nought ≡ false
    pub threshold : IsThreshold samples t
    pub middle : IsMedian m (durations (group_of samples t))

  -- The answer that the files up to the threshold give.
  pub record IsMeasured (samples : List Sample) (c : CostModel W) (t m : ℕ) : Type 0 where
    pub group : IsGroup samples t m
    pub bytes : bytes_dominate samples t m ≡ false
    pub fixed :
        c.fixed
        ≡ some (m - from_secs (byte_time float (rate_of float samples) (group_of samples t)))
    pub basis : c.basis ≡ some (count_of (at_most t) samples, last_size (group_of samples t))

  -- Why there is no answer: too few files, no rate, or bytes that take more than half of the median.
  abbrev pub TooFew : List Sample → Type 0
  TooFew samples = length samples < 20

  abbrev pub NoRate : List Sample → Type 0
  NoRate samples = le (rate_of float samples) nought ≡ true

  pub record IsRefused (samples : List Sample) (c : CostModel W) : Type 0 where
    pub fixed : c.fixed ≡ none
    pub basis : c.basis ≡ none
    pub reason :
        TooFew samples
        ⊎ NoRate samples
        ⊎ ((t : ℕ) × (m : ℕ) × IsGroup samples t m × (bytes_dominate samples t m ≡ true))

  pub Answer : List Sample → Type 0
  Answer samples =
      (c : CostModel W) × (measure_cost float samples ≡ some c)
      × (c.rate ≡ rate_of float samples)
      × (IsRefused samples c ⊎ ((t : ℕ) × (m : ℕ) × IsMeasured samples c t m))

  module _ (samples : List Sample) where
    refuse :
        (TooFew samples ⊎ NoRate samples)
        → measure_cost float samples ≡ some (no_cost float (rate_of float samples))
    unfolding measure_cost
    refuse (inl h) = ground arith
    refuse (inr h) = ground arith

    -- What is returned for a threshold and a median.
    abbrev outcome : ℕ → ℕ → CostModel W
    outcome t m =
        let group = group_of samples t in
        let rate = rate_of float samples in
        if bytes_dominate samples t m then no_cost float rate else record {
          fixed = some (m - from_secs (byte_time float rate group));
          basis = some (count_of (at_most t) samples, last_size group);
          rate = rate;
        }

    outcome_rate : (t m : ℕ) → (outcome t m).rate ≡ rate_of float samples
    outcome_rate t m = ground arith

    measure_cost_group :
        (t m : ℕ)
        → ltb (length samples) min_samples ≡ false
        → le (rate_of float samples) nought ≡ false
        → threshold_of samples ≡ some t
        → ltb (count_of (at_most t) samples) min_samples ≡ false
        → median (durations (keep (at_most t) samples)) ≡ some m
        → measure_cost float samples ≡ some (outcome t m)
    unfolding measure_cost measure_group
    measure_cost_group t m long r e large f =
        let counted = length-keep (at_most t) samples in
        elim (Bool-cases (bytes_dominate samples t m)) [
          | inl b ↦ rw (long, r, e, counted, large, f, b) refl
          | inr b ↦ rw (long, r, e, counted, large, f, b) refl
        ]

    outcome_lem :
        (t m : ℕ)
        → IsGroup samples t m
        → IsRefused samples (outcome t m)
          ⊎ ((t' : ℕ) × (m' : ℕ) × IsMeasured samples (outcome t m) t' m')
    outcome_lem t m group = elim (Bool-cases (bytes_dominate samples t m)) [
      | inl b ↦
          inl (rw b (record { fixed = refl; basis = refl; reason = inr (inr (t, m, group, b)) }))
      | inr b ↦
          inr (t, m, record { group = group; bytes = b; fixed = rw b refl; basis = rw b refl })
    ]

    measure_cost_enough :
        20 ≤ length samples → le (rate_of float samples) nought ≡ false → Answer samples
    unfolding Answer
    measure_cost_enough long r =
        let (t, e, threshold) = threshold_of-IsThreshold samples long in
        let group = keep (at_most t) samples in
        let counted = length-keep (at_most t) samples in
        let timed = length-map (λ (s : Sample). s.duration) group in
        let n : 20 ≤ count_of (at_most t) samples = omega (arith, threshold.0) in
        let (m, f, middle) = median-IsMedian (durations group) (omega (arith, n, counted, timed)) in
        (
          outcome t m,
          measure_cost_group t m (ground (arith, long)) r e (ground (arith, n)) f,
          outcome_rate t m,
          outcome_lem t m
              (record { enough = long; rated = r; threshold = threshold; middle = middle }),
        )

  -- measure_cost never goes out of range, and it gives the rate. It gives a fixed cost and a basis
  -- exactly if there are 20 samples or more, the rate is not at most 0, and the mean size of the files
  -- up to the threshold takes at most half of the median of their durations. The threshold is the
  -- least size up to which there are 20 files and a tenth of the run; the answer is the median less the
  -- time of the mean size, from all files up to the threshold, and the second basis is the size of the
  -- last of them.
  pub measure_cost-answers : (samples : List Sample) → Answer samples
  unfolding Answer
  measure_cost-answers samples = elim (Bool-cases (ltb (length samples) min_samples)) [
    | inl short ↦ (
      no_cost float (rate_of float samples),
      refuse samples (inl (ground arith)),
      refl,
      inl (record { fixed = refl; basis = refl; reason = inl (ground arith) }),
    )
    | inr long ↦ elim (Bool-cases (le (rate_of float samples) nought)) [
      | inl r ↦ (
        no_cost float (rate_of float samples),
        refuse samples (inr r),
        refl,
        inl (record { fixed = refl; basis = refl; reason = inr (inl r) }),
      )
      | inr r ↦ measure_cost_enough samples (ground (arith, long)) r
    ]
  ]
