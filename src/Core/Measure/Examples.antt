-- ===== src/Core/Measure/Examples.antt =====
-- `measure_cost` on runs of small and large files, with fractions for `f64`.
use mathlib.Core.List.Perm
use mathlib.Core.Option
use adbrsync.Common.{ℕ, zero, suc, ◌^◌, ◌≡◌, refl, List, [], ◌∷◌}
use adbrsync.Common.{none, some}
use adbrsync.Core.Measure.{Sample, CostModel, rate_of, sum64, measure_cost}
use adbrsync.Common.Sort.{sort_by}
use adbrsync.Core.Measure.Fractions.{Fraction, fractions, sample}
use adbrsync.Core.Measure.Threshold.{Answer, measure_cost-answers}
use adbrsync.Core.Measure.Ties.{verdict, measure_cost-perm}

abbrev repeat : ℕ → Sample → List Sample
repeat zero s = []
repeat (suc n) s = s ∷ repeat n s

-- Large files, then small ones of two sizes, the smaller ones last, as the queue has them.
abbrev mixed : List Sample
mixed = sample (2 ^ 20) 1000 ∷ sample 2048 110 ∷ repeat 20 (sample 1024 100)

abbrev swapped : List Sample
swapped = sample 2048 110 ∷ sample (2 ^ 20) 1000 ∷ repeat 20 (sample 1024 100)

-- 20 of 22 files are measured: the 1 KiB files.
mixed_test :
    Option.map (verdict fractions) (measure_cost fractions mixed) ≡ some (some 97026769, some 20)
unfolding measure_cost sum64 sort_by
mixed_test = refl

-- The size that is reported with the estimate is that of the last file, not the largest: here the
-- 2 KiB file is measured too.
abbrev nineteen : List Sample
nineteen = sample (2 ^ 20) 1000 ∷ sample 2048 110 ∷ repeat 19 (sample 1024 100)

nineteen_test :
    Option.map (λ (c : CostModel Fraction). c.basis) (measure_cost fractions nineteen)
    ≡ some (some (20, 1024))
unfolding measure_cost sum64 sort_by
nineteen_test = refl

few_test :
    Option.map (verdict fractions) (measure_cost fractions (repeat 5 (sample 1024 50)))
    ≡ some (none, none)
unfolding measure_cost sum64 sort_by
few_test = refl

measure_cost-answers_example : Answer fractions nineteen
measure_cost-answers_example = measure_cost-answers fractions nineteen

same_rate : rate_of fractions mixed ≡ rate_of fractions swapped
unfolding rate_of sum64
same_rate = refl

measure_cost-perm_example :
    Option.map (verdict fractions) (measure_cost fractions mixed)
    ≡ Option.map (verdict fractions) (measure_cost fractions swapped)
measure_cost-perm_example = measure_cost-perm fractions mixed swapped (Perm.swap _ _ _) same_rate
