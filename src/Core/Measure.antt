-- ===== src/Core/Measure.antt =====
-- `measure_cost` of crates/adbrsync-core/src/transfer.rs: the fixed cost of a file, out of the samples
-- of a run. A duration is its nanoseconds. The `f64` operations are a parameter (`Float`). An index
-- out of range, at which the code panics, is `none`.
pub mod Threshold
pub mod Ties
pub mod Fractions
mod Examples
use adbrsync.Common.{ℕ, ◌+◌, ◌-◌, ◌/◌, ◌%◌, ◌^◌, min, max, Bool, true, false, ◌||◌, leb, ltb}
use adbrsync.Common.{if◌then◌else◌, List, [], ◌∷◌, map, Option, none, some, length, get_elem?, keep}
use adbrsync.Common.Optional.{◌>>=◌}
use adbrsync.Common.Sort.{sort_by}
use adbrsync.Common.Counting.{median}
use adbrsync.Core.Plan.{add64}

pub record Sample : Type 0 where
  pub size : ℕ
  pub duration : ℕ
  pub start : ℕ

-- What the code does with an `f64`: `of_ℕ` is a cast of an integer, `as_secs` and `from_secs` are those
-- of a `Duration`, `sum` is that of an iterator.
pub record Float (W : Type 0) : Type 0 where
  pub nought : W
  pub half : W
  pub of_ℕ : ℕ → W
  pub as_secs : ℕ → W
  pub from_secs : W → ℕ
  pub sum : List W → W
  pub times : W → W → W
  pub over : W → W → W
  pub lt : W → W → Bool
  pub le : W → W → Bool

-- `Iterator::sum` of `u64`
unfoldable pub sum64 : ℕ → List ℕ → ℕ
sum64 total [] = total
sum64 total (n ∷ ns) = sum64 (add64 total n) ns

pub record CostModel (W : Type 0) : Type 0 where
  pub fixed : Option ℕ
  pub basis : Option (ℕ × ℕ)
  pub rate : W

abbrev pub min_samples : ℕ
min_samples = 20

abbrev pub smallest_share : ℕ
smallest_share = 10

abbrev pub sizes : List Sample → List ℕ
sizes = map (λ s. s.size)

abbrev pub durations : List Sample → List ℕ
durations = map (λ s. s.duration)

-- How many of the smallest files the threshold is taken from.
unfoldable pub cut_of : ℕ → ℕ
cut_of n = min (max (n / smallest_share) min_samples) n

-- The size up to which files count as small.
unfoldable pub threshold_of : List Sample → Option ℕ
unfolding cut_of
threshold_of samples = get_elem? (sort_by leb (sizes samples)) (cut_of (length samples) - 1)

abbrev pub at_most : ℕ → Sample → Bool
at_most threshold s = leb s.size threshold

-- `group.last().map(|s| s.size).unwrap_or(0)`
abbrev pub last_size : List Sample → ℕ
last_size [] = 0
last_size (s ∷ []) = s.size
last_size (s ∷ t ∷ ss) = last_size (t ∷ ss)

module _ {W : Type 0} (float : Float W) where
  open float use {nought, half, of_ℕ, as_secs, from_secs, sum, times, over, lt, le}

  unfoldable pub rate_of : List Sample → W
  rate_of samples =
      let stream_time = sum (map as_secs (durations samples)) in
      if lt nought stream_time then over (of_ℕ (sum64 0 (sizes samples))) stream_time else nought

  abbrev pub no_cost : W → CostModel W
  no_cost rate = record { fixed = none; basis = none; rate = rate }

  -- The time that the bytes of a small file take.
  unfoldable pub byte_time : W → List Sample → W
  byte_time rate group = over (over (of_ℕ (sum64 0 (sizes group))) (of_ℕ (length group))) rate

  -- What the small files say.
  unfoldable pub measure_group : W → List Sample → Option (CostModel W)
  unfolding byte_time median
  measure_group rate group =
      if ltb (length group) min_samples
      then some (no_cost rate)
      else (median (durations group) >>= λ middle.
          if lt (times (as_secs middle) half) (byte_time rate group)
          then some (no_cost rate)
          else some (record {
            fixed = some (middle - from_secs (byte_time rate group));
            basis = some (length group, last_size group);
            rate = rate;
          }))

  unfoldable pub measure_cost : List Sample → Option (CostModel W)
  unfolding rate_of threshold_of measure_group
  measure_cost samples =
      let rate = rate_of samples in
      if ltb (length samples) min_samples || le rate nought
      then some (no_cost rate)
      else (threshold_of samples >>= λ threshold.
          measure_group rate (keep (at_most threshold) samples))
