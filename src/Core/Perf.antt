-- ===== src/Core/Perf.antt =====
-- crates/adbrsync-core/src/perf.rs: what the performance report says of a run, in size classes and over
-- time. The `f64` operations are a parameter (`Float` of Core/Measure); a duration is its nanoseconds.
-- Writing the report as JSON, the version, the clock and the facts that are passed through are left out.
pub mod Grouping
pub mod Classes
pub mod Interval
pub mod Curve
pub mod Facts
mod Examples
use adbrsync.Common.{
  ℕ, zero, suc, ◌+◌, ◌-◌, ◌*◌, ◌/◌, ◌%◌, ◌^◌, min, max, Bool, true, false, ltb, ◌==◌,
}
use adbrsync.Common.{if◌then◌else◌, List, [], ◌∷◌, ◌++◌, map, Option, none, some, length, get_elem?}
use adbrsync.Common.{sum_of}
use adbrsync.Common.Optional.{◌>>=◌}
use adbrsync.Common.Counting.{median}
use adbrsync.Core.Measure.{Sample, Float, sizes, durations, sum64}

-- One size class, with how much time went into it.
pub record SizeBucket (W : Type 0) : Type 0 where
  pub upper_bytes : Option ℕ
  pub files : ℕ
  pub bytes : ℕ
  pub total_ms : ℕ
  pub mean_ms : W
  pub median_ms : W
  pub bytes_per_sec : W

abbrev pub bucket_bounds : List ℕ
bucket_bounds = 2 ^ 12 ∷ 2 ^ 16 ∷ 2 ^ 20 ∷ 2 ^ 24 ∷ 2 ^ 27 ∷ 2 ^ 30 ∷ []

-- `iter().position(|bound| size < *bound)`, or the number of bounds.
unfoldable pub class_in : List ℕ → ℕ → ℕ
class_in [] size = 0
class_in (bound ∷ bounds) size = if ltb size bound then 0 else suc (class_in bounds size)

abbrev pub class_of : Sample → ℕ
class_of s = class_in bucket_bounds s.size

-- A `BTreeMap` from classes to samples is a list in the order of its keys:
-- `entry(index).or_default().push(sample)`.
unfoldable pub push_in : ℕ → Sample → List (ℕ × List Sample) → List (ℕ × List Sample)
push_in i s [] = (i, s ∷ []) ∷ []
push_in i s ((j, items) ∷ m) =
    let rest = push_in i s m in
    if i == j
    then (j, items ++ s ∷ []) ∷ m
    else if ltb i j
    then (i, s ∷ []) ∷ (j, items) ∷ m
    else (j, items) ∷ rest

-- The loop over the samples.
unfoldable pub group_onto : List (ℕ × List Sample) → List Sample → List (ℕ × List Sample)
unfolding push_in class_in
group_onto m [] = m
group_onto m (s ∷ ss) = group_onto (push_in (class_of s) s m) ss

-- `Duration::as_millis`
abbrev pub as_millis : ℕ → ℕ
as_millis d = d / 1000000

-- Counter readings, taken during a run.
pub record ProgressSample : Type 0 where
  pub at : ℕ
  pub bytes_done : ℕ
  pub files_done : ℕ

pub record Timeline (W : Type 0) : Type 0 where
  pub sample_interval_ms : ℕ
  pub at_ms : List ℕ
  pub bytes : List ℕ
  pub files : List ℕ
  pub bytes_per_sec : List W

-- `u64` subtraction
abbrev pub sub64 : ℕ → ℕ → ℕ
sub64 a b = (a % 2 ^ 64 + 2 ^ 64 - b % 2 ^ 64) % 2 ^ 64

-- `windows(2).map(|w| w[1] - w[0]).min()`, or the first element, or 0.
unfoldable pub steps : List ℕ → List ℕ
steps [] = []
steps (a ∷ []) = []
steps (a ∷ b ∷ ns) = sub64 b a ∷ steps (b ∷ ns)

unfoldable pub least_of : List ℕ → Option ℕ
least_of [] = none
least_of (n ∷ ns) = elim (least_of ns) [ none ↦ some n | some m ↦ some (min n m) ]

unfoldable pub interval_of : List ℕ → ℕ
unfolding steps least_of
interval_of ats = elim (least_of (steps ats)) [
  | some m ↦ m
  | none ↦ elim (get_elem? ats 0) [ none ↦ 0 | some a ↦ a ]
]

abbrev pub no_reading : ProgressSample
no_reading = record { at = 0; bytes_done = 0; files_done = 0 }

module _ {W : Type 0} (float : Float W) where
  open float use {nought, of_ℕ, as_secs, times, over}

  unfoldable pub summarise : ℕ × List Sample → Option (SizeBucket W)
  unfolding median sum64
  summarise (index, items) =
      let files = length items in
      let bytes = sum64 0 (sizes items) in
      let total = sum_of (λ s. s.duration) items in
      median (durations items) >>= λ middle. some (record {
        upper_bytes = get_elem? bucket_bounds index;
        files = files;
        bytes = bytes;
        total_ms = as_millis total;
        mean_ms = over (times (as_secs total) (of_ℕ 1000)) (of_ℕ files);
        median_ms = times (as_secs middle) (of_ℕ 1000);
        bytes_per_sec = if total == 0 then nought else over (of_ℕ bytes) (as_secs total);
      })

  -- `map` and `collect`; an index out of range in one of the calls is one here.
  unfoldable pub summarise_all : List (ℕ × List Sample) → Option (List (SizeBucket W))
  unfolding summarise
  summarise_all [] = some []
  summarise_all (g ∷ gs) = summarise g >>= λ b. summarise_all gs >>= λ bs. some (b ∷ bs)

  unfoldable pub bucketize : List Sample → Option (List (SizeBucket W))
  unfolding group_onto summarise_all
  bucketize samples = summarise_all (group_onto [] samples)

  -- The loop over the readings; `prev` is the last one that counted.
  unfoldable pub read_on : ProgressSample → List ProgressSample → Timeline W → Timeline W
  read_on prev [] t = t
  read_on prev (s ∷ ss) t =
      let span = s.at - prev.at in
      let bytes = s.bytes_done - prev.bytes_done in
      elim (span == 0) [
        | true ↦ read_on prev ss t
        | false ↦ read_on s ss (record t {
          at_ms = t.at_ms ++ (as_millis s.at % 2 ^ 64) ∷ [];
          bytes = t.bytes ++ bytes ∷ [];
          files = t.files ++ (s.files_done - prev.files_done) ∷ [];
          bytes_per_sec = t.bytes_per_sec ++ over (of_ℕ bytes) (as_secs span) ∷ [];
        })
      ]

  abbrev pub no_timeline : Timeline W
  no_timeline = record {
    sample_interval_ms = 0;
    at_ms = [];
    bytes = [];
    files = [];
    bytes_per_sec = [];
  }

  unfoldable pub timeline : List ProgressSample → Timeline W
  unfolding read_on interval_of
  timeline progress =
      let t = read_on no_reading progress no_timeline in
      record t { sample_interval_ms = interval_of t.at_ms }
