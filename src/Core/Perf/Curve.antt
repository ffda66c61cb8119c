-- ===== src/Core/Perf/Curve.antt =====
-- `timeline`: what the differences of the counter readings say of the readings.
use adbrsync.Common.{ℕ, ◌+◌, ◌-◌, ◌/◌, ◌%◌, ◌^◌, ◌≤◌, ◌<◌, ◌≡◌, refl, sym, ◌∙◌, arith}
use adbrsync.Common.{true, false, ◌==◌, Bool-cases, inl, inr}
use adbrsync.Common.{List, [], ◌∷◌, ◌++◌, map, append-nil, append_assoc}
use adbrsync.Common.{All}
use adbrsync.Core.Measure.{Float}
use adbrsync.Core.Perf.{ProgressSample, Timeline, as_millis, interval_of}
use adbrsync.Core.Perf.{read_on, no_reading, no_timeline, timeline}
use adbrsync.Core.Perf.Interval.{IsInterval, Ascends, Ascends-all}

-- The readings that are later than those before them.
kept : ProgressSample → List ProgressSample → List ProgressSample
kept prev [] = []
kept prev (s ∷ ss) = elim (s.at - prev.at == 0) [ true ↦ kept prev ss | false ↦ s ∷ kept s ss ]

abbrev millis_at : ProgressSample → ℕ
millis_at s = as_millis s.at % 2 ^ 64

-- The growth of a counter from each reading to the next.
growth : (ProgressSample → ℕ) → ProgressSample → List ProgressSample → List ℕ
growth f prev [] = []
growth f prev (s ∷ ss) = (f s - f prev) ∷ growth f s ss

module _ {W : Type 0} (float : Float W) where
  read_on-columns :
      (prev : ProgressSample) (ss : List ProgressSample) (t : Timeline W)
      → ((read_on float prev ss t).at_ms ≡ t.at_ms ++ map millis_at (kept prev ss))
        × ((read_on float prev ss t).bytes
            ≡ t.bytes ++ growth (λ s. s.bytes_done) prev (kept prev ss))
        × ((read_on float prev ss t).files
            ≡ t.files ++ growth (λ s. s.files_done) prev (kept prev ss))
  unfolding read_on kept growth
  read_on-columns prev [] t =
      (sym (append-nil t.at_ms), sym (append-nil t.bytes), sym (append-nil t.files))
  read_on-columns prev (s ∷ ss) t = elim (Bool-cases (s.at - prev.at == 0)) [
    | inl e ↦ rw (e, read_on, kept) (read_on-columns prev ss t)
    | inr e ↦
        let (a, b, c) = read_on-columns s ss (record t {
          at_ms = t.at_ms ++ millis_at s ∷ [];
          bytes = t.bytes ++ (s.bytes_done - prev.bytes_done) ∷ [];
          files = t.files ++ (s.files_done - prev.files_done) ∷ [];
          bytes_per_sec =
              t.bytes_per_sec
              ++ float.over (float.of_ℕ (s.bytes_done - prev.bytes_done))
                  (float.as_secs (s.at - prev.at))
                ∷ [];
        }) in
        rw (e, read_on, kept)
          (a ∙ append_assoc t.at_ms _ _, b ∙ append_assoc t.bytes _ _, c ∙ append_assoc t.files _ _)
  ]

  timeline-columns :
      (ss : List ProgressSample)
      → ((timeline float ss).at_ms ≡ map millis_at (kept no_reading ss))
        × ((timeline float ss).bytes ≡ growth (λ s. s.bytes_done) no_reading (kept no_reading ss))
        × ((timeline float ss).files ≡ growth (λ s. s.files_done) no_reading (kept no_reading ss))
  unfolding timeline
  timeline-columns ss = read_on-columns no_reading ss (no_timeline float)

-- Each reading is later than the one before, and a counter never falls.
abbrev pub Later : ProgressSample → List ProgressSample → Type 0
Later prev [] = Unit {0}
Later prev (s ∷ ss) = (prev.at < s.at) × Later s ss

abbrev pub Climbs : (ProgressSample → ℕ) → ProgressSample → List ProgressSample → Type 0
Climbs f prev [] = Unit {0}
Climbs f prev (s ∷ ss) = (f prev ≤ f s) × Climbs f s ss

-- The sums of the first elements of a list.
abbrev pub sums : ℕ → List ℕ → List ℕ
sums total [] = []
sums total (n ∷ ns) = (total + n) ∷ sums (total + n) ns

kept_all : (prev : ProgressSample) (ss : List ProgressSample) → Later prev ss → kept prev ss ≡ ss
unfolding kept
kept_all prev [] h = refl
kept_all prev (s ∷ ss) h = ground (arith, kept_all s ss h.1)

sums-growth :
    (f : ProgressSample → ℕ) (prev : ProgressSample) (ss : List ProgressSample)
    → Climbs f prev ss
    → sums (f prev) (growth f prev ss) ≡ map f ss
unfolding growth
sums-growth f prev [] h = refl
sums-growth f prev (s ∷ ss) h =
    let same : f prev + (f s - f prev) ≡ f s = omega arith in rw (same, sums-growth f s ss h.1) refl

-- The readings that count ascend, in milliseconds too.
kept-Ascends :
    (prev : ProgressSample) (ss : List ProgressSample)
    → All (λ s. as_millis s.at < 2 ^ 64) ss
    → Ascends (as_millis prev.at) (map millis_at (kept prev ss))
unfolding kept
kept-Ascends prev [] h = tt
kept-Ascends prev (s ∷ ss) h =
    let same : millis_at s ≡ as_millis s.at = omega (arith, h.0) in
    elim (Bool-cases (s.at - prev.at == 0)) [
      | inl e ↦ rw (e, kept) (kept-Ascends prev ss h.1)
      | inr e ↦ rw (e, kept, same) (div_mono (ground arith), h.0, kept-Ascends s ss h.1)
    ]
  where
    div_mono : {a b : ℕ} → a ≤ b → a / 1000000 ≤ b / 1000000
    div_mono le = omega arith

module _ {W : Type 0} (float : Float W) where
  timeline-interval :
      (ss : List ProgressSample)
      → (timeline float ss).sample_interval_ms ≡ interval_of (timeline float ss).at_ms
  unfolding timeline
  timeline-interval ss = refl

  -- Whatever the counters show, the times of the readings in the report ascend, and the interval that
  -- is reported is the least distance of two neighbours among them, if no reading is 2^64 ms or more
  -- after the start.
  pub timeline-IsInterval :
      (progress : List ProgressSample)
      → All (λ s. as_millis s.at < 2 ^ 64) progress
      → IsInterval (timeline float progress).at_ms (timeline float progress).sample_interval_ms
  timeline-IsInterval progress h =
      rw (timeline-interval progress, (timeline-columns float progress).0)
        (Ascends-all 0 _ (kept-Ascends no_reading progress h))

  -- If each reading is later than the one before and no counter falls, the report loses nothing: it
  -- has the time of each reading, and the sums of its differences up to a reading are the counters
  -- of that reading.
  pub timeline-readings :
      (progress : List ProgressSample)
      → Later no_reading progress
      → Climbs (λ s. s.bytes_done) no_reading progress
      → Climbs (λ s. s.files_done) no_reading progress
      → ((timeline float progress).at_ms ≡ map (λ s. as_millis s.at % 2 ^ 64) progress)
        × (sums 0 (timeline float progress).bytes ≡ map (λ s. s.bytes_done) progress)
        × (sums 0 (timeline float progress).files ≡ map (λ s. s.files_done) progress)
  timeline-readings progress later bytes files =
      let (a, b, c) = timeline-columns float progress in
      let all = kept_all no_reading progress later in
      rw (a, b, c, all)
        (
          refl,
          sums-growth (λ s. s.bytes_done) no_reading progress bytes,
          sums-growth (λ s. s.files_done) no_reading progress files,
        )
