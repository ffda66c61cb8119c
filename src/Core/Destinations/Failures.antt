-- ===== src/Core/Destinations/Failures.antt =====
-- When a destination is given up.
use adbrsync.Common.{ℕ, zero, suc, ◌+◌, ◌^◌, ◌<◌, ◌≡◌, refl, arith, leb, if◌then◌else◌}
use adbrsync.Core.Destinations.{DestStats, fresh, note_failure}

-- A number of failures one after another: how many of them gave up, and what is left.
unfoldable pub note_times : ℕ → DestStats → ℕ × DestStats
unfolding note_failure
note_times zero d = (0, d)
note_times (suc n) d =
    let (gave_up, e) = note_times n d in
    let (given_up, f) = note_failure e in (gave_up + (if given_up then 1 else 0), f)

-- A destination is given up at its tenth failure, once, and not before: fewer than 2^64 failures are
-- all counted, and exactly one of ten or more reports that it gives up.
pub note_times_lem :
    (n : ℕ)
    → n < 2 ^ 64
    → note_times n fresh ≡ (
      if leb 10 n then 1 else 0,
      record { files = 0; bytes = 0; failures = n; disabled = leb 10 n },
    )
unfolding note_times note_failure
note_times_lem zero h = refl
note_times_lem (suc n) h = rw (note_times_lem n (omega (arith, h))) (ground (arith, h))
