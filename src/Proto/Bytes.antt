-- ===== src/Proto/Bytes.antt =====
-- Numbers as bytes: `to_le_bytes` and `from_le_bytes`.
use adbrsync.Common.{ℕ, zero, suc, ◌+◌, ◌*◌, ◌/◌, ◌%◌, ◌^◌, ◌<◌, ◌≡◌, refl, ap, arith}
use adbrsync.Common.{[], ◌∷◌, length, take, drop}
use adbrsync.Common.Text.{Text}

-- The low `n` bytes of a number, the lowest first.
abbrev pub le : ℕ → ℕ → Text
le zero v = []
le (suc n) v = v % 256 ∷ le n (v / 256)

unfoldable pub from_le : Text → ℕ
from_le [] = 0
from_le (b ∷ bs) = b + 256 * from_le bs

-- `bytes[at..at + n]`, as a number.
abbrev pub number_at : ℕ → ℕ → Text → ℕ
number_at at n bytes = from_le (take n (drop at bytes))

pub length-le : (n v : ℕ) → length (le n v) ≡ n
length-le zero v = refl
length-le (suc n) v = ap suc (length-le n (v / 256))

-- A number that its bytes can hold comes back.
pub from_le-le : (n v : ℕ) → v < 256 ^ n → from_le (le n v) ≡ v
unfolding from_le
from_le-le zero v h = omega arith
from_le-le (suc n) v h = omega (arith, from_le-le n (v / 256) (omega arith))
