-- ===== src/Core/Perf/Examples.antt =====
-- The report on small runs, with fractions for `f64`.
use adbrsync.Common.{
  ℕ, ◌*◌, ◌^◌, ◌%◌, ◌≡◌, refl, arith, List, [], ◌∷◌, map, Option, none, some, keep,
}
use adbrsync.Common.Sort.{sort_by}
use adbrsync.Core.Measure.{Sample}
use adbrsync.Core.Measure.Fractions.{Fraction, fractions, sample}
use adbrsync.Core.Perf.{SizeBucket, ProgressSample, as_millis, bucketize, timeline}
use adbrsync.Core.Perf.Grouping.{classes}
use adbrsync.Core.Perf.Classes.{bucket, is_used, bucketize-classes}
use adbrsync.Core.Perf.Interval.{IsInterval}
use adbrsync.Core.Perf.Curve.{sums, timeline-IsInterval, timeline-readings}

abbrev three : List Sample
three = sample 1000 10 ∷ sample 4096 20 ∷ sample (100 * 2 ^ 20) 30 ∷ []

abbrev uppers : Option (List (SizeBucket Fraction)) → Option (List (Option ℕ))
uppers none = none
uppers (some bs) = some (map (λ b. b.upper_bytes) bs)

-- `buckets_split_on_size_boundaries`
boundaries_test :
    uppers (bucketize fractions three) ≡ some (some (2 ^ 12) ∷ some (2 ^ 16) ∷ some (2 ^ 27) ∷ [])
unfolding bucketize sort_by
boundaries_test = refl

-- `the_largest_class_is_unbounded`
largest_test : uppers (bucketize fractions (sample (2 ^ 32) 10 ∷ [])) ≡ some (none ∷ [])
unfolding bucketize sort_by
largest_test = refl

abbrev reading : ℕ → ℕ → ℕ → ProgressSample
reading ms bytes files = record { at = ms * 1000000; bytes_done = bytes; files_done = files }

abbrev readings : List ProgressSample
readings = reading 250 1000 0 ∷ reading 500 3000 1 ∷ reading 750 3500 1 ∷ []

-- `timeline_differences_counter_readings`
differences_test :
    ((timeline fractions readings).bytes ≡ 1000 ∷ 2000 ∷ 500 ∷ [])
    × ((timeline fractions readings).sample_interval_ms ≡ 250)
unfolding timeline
differences_test = (refl, refl)

-- `timeline_ignores_readings_with_no_elapsed_time`
ignored_test : (timeline fractions (reading 250 100 1 ∷ reading 250 200 2 ∷ [])).at_ms ≡ 250 ∷ []
unfolding timeline
ignored_test = refl

bucketize-classes_example :
    bucketize fractions three
    ≡ some (map (bucket fractions three) (keep (is_used fractions three) classes))
bucketize-classes_example = bucketize-classes fractions three

timeline-IsInterval_example :
    IsInterval (timeline fractions readings).at_ms (timeline fractions readings).sample_interval_ms
timeline-IsInterval_example = timeline-IsInterval fractions readings (omega arith)

timeline-readings_example :
    ((timeline fractions readings).at_ms ≡ map (λ s. as_millis s.at % 2 ^ 64) readings)
    × (sums 0 (timeline fractions readings).bytes ≡ map (λ s. s.bytes_done) readings)
    × (sums 0 (timeline fractions readings).files ≡ map (λ s. s.files_done) readings)
timeline-readings_example =
    timeline-readings fractions readings (omega arith) (omega arith) (omega arith)
