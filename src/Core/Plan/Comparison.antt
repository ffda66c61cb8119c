-- ===== src/Core/Plan/Comparison.antt =====
-- When `classify` leaves a file alone.
use adbrsync.Common.{ℕ, ◌-◌, ◌<◌, ◌^◌, ◌≡◌, ◌↔◌, ◌⊎◌, inl, arith, true, false, none, some}
use adbrsync.Common.Int.{ℤ, ltb_ℤ, pos, negsuc, ◌-ℤ◌, ◌≤ℤ◌, IsI64, wrap_i64, abs_i64}
use adbrsync.Core.Entry.{RemoteEntry, LocalEntry}
use adbrsync.Core.Digests.{Digests, matches}
use adbrsync.Core.Plan.{PlanOptions, is_file, classify}

-- Two times that are taken for the same: they differ by the tolerance at most, or by 2 ^ 63, or by so
-- much that the difference modulo 2 ^ 64 is at most the tolerance.
abbrev pub SameTime : ℕ → ℤ → ℤ → Type 0
SameTime tol a b =
    ((a -ℤ b ≤ℤ pos tol) × (b -ℤ a ≤ℤ pos tol))
    ⊎ (a -ℤ b ≡ pos (2 ^ 63))
    ⊎ (b -ℤ a ≡ pos (2 ^ 63))
    ⊎ (pos (2 ^ 64 - tol) ≤ℤ a -ℤ b)
    ⊎ (pos (2 ^ 64 - tol) ≤ℤ b -ℤ a)

same_time :
    (tol : ℕ) (a b : ℤ)
    → tol < 2 ^ 63
    → IsI64 a
    → IsI64 b
    → ltb_ℤ (pos tol) (abs_i64 (wrap_i64 (a -ℤ b))) ≡ false
    → SameTime tol a b
unfolding ◌-ℤ◌
same_time tol (pos m) (pos n) t h k e = inl (ground (arith, e))
same_time tol (negsuc m) (negsuc n) t h k e = inl (ground (arith, e))
same_time tol (pos m) (negsuc n) t h k e = ground (arith, e)
same_time tol (negsuc m) (pos n) t h k e = ground (arith, e)

time_same :
    (tol : ℕ) (a b : ℤ)
    → tol < 2 ^ 63
    → IsI64 a
    → IsI64 b
    → SameTime tol a b
    → ltb_ℤ (pos tol) (abs_i64 (wrap_i64 (a -ℤ b))) ≡ false
unfolding ◌-ℤ◌
time_same tol (pos m) (pos n) t h k e = ground (arith, e)
time_same tol (negsuc m) (negsuc n) t h k e = ground (arith, e)
time_same tol (pos m) (negsuc n) t h k e = ground (arith, e)
time_same tol (negsuc m) (pos n) t h k e = ground (arith, e)

-- Under a tolerance that is an `i64` and not negative, for times that are, an entry of a destination is
-- left alone exactly if it is a regular file and: with --checksum, its digest matches; without it, its
-- size is the same, and its time differs by the tolerance at most, or by exactly 2 ^ 63, or by 2 ^ 64
-- less the tolerance or more.
pub classify-none :
    (remote : RemoteEntry) (local : LocalEntry) (opts : PlanOptions) (digests : Digests) (tol : ℕ)
    → opts.mtime_tolerance ≡ pos tol
    → tol < 2 ^ 63
    → IsI64 local.mtime
    → IsI64 remote.mtime
    → (classify remote (some local) opts digests ≡ none) ↔ (
        (is_file local.kind ≡ true)
        × (((opts.checksum ≡ true) × (matches digests remote.rel ≡ true))
            ⊎ ((opts.checksum ≡ false)
                × (local.size ≡ remote.size)
                × SameTime tol local.mtime remote.mtime)))
unfolding classify
classify-none remote local opts digests tol t small h k =
    let there = same_time tol local.mtime remote.mtime small h k in
    let back = time_same tol local.mtime remote.mtime small h k in ground (arith, t, there, back)
