-- ===== src/Core/Measure/Fractions.antt =====
-- Fractions in place of `f64`, and samples in milliseconds, for the tests.
use adbrsync.Common.{ℕ, ◌+◌, ◌*◌, ◌/◌, ◌^◌, ltb, leb, List, [], ◌∷◌}
use adbrsync.Core.Measure.{Sample, Float}

-- A numerator and a denominator.
abbrev pub Fraction : Type 0
Fraction = ℕ × ℕ

abbrev pub total : List Fraction → Fraction
total [] = (0, 1)
total ((a, b) ∷ fs) = let (c, d) = total fs in (a * d + c * b, b * d)

abbrev pub fractions : Float Fraction
fractions = record {
  nought = (0, 1);
  half = (1, 2);
  of_ℕ = λ n. (n, 1);
  as_secs = λ n. (n, 10 ^ 9);
  from_secs = λ x. x.0 * 10 ^ 9 / x.1;
  sum = total;
  times = λ x y. (x.0 * y.0, x.1 * y.1);
  over = λ x y. (x.0 * y.1, x.1 * y.0);
  lt = λ x y. ltb (x.0 * y.1) (y.0 * x.1);
  le = λ x y. leb (x.0 * y.1) (y.0 * x.1);
}

abbrev pub sample : ℕ → ℕ → Sample
sample size ms = record { size = size; duration = ms * 1000000; start = 0 }
