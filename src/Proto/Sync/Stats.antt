-- ===== src/Proto/Sync/Stats.antt =====
-- The v2 stat record on the wire and what `stat` makes of it.
use adbrsync.Common.{ℕ, ◌-◌, ◌^◌, ◌<◌, ◌≡◌, refl, arith, ◌++◌}
use adbrsync.Common.Text.{Text}
use adbrsync.Common.Int.{ℤ, pos, negsuc, IsI64, wrap_i64}
use adbrsync.Proto.Bytes.{le, from_le-le}
use adbrsync.Proto.Sync.{parse_stat_body}

-- `sync_stat_v2` as the device keeps it.
pub record StatRecord : Type 0 where
  pub error : ℕ
  pub dev : ℕ
  pub ino : ℕ
  pub mode : ℕ
  pub nlink : ℕ
  pub uid : ℕ
  pub gid : ℕ
  pub size : ℕ
  pub atime : ℕ
  pub mtime : ℤ
  pub ctime : ℕ

-- The 64 bits of an `i64`.
abbrev pub bits_i64 : ℤ → ℕ
bits_i64 (pos n) = n
bits_i64 (negsuc n) = 2 ^ 64 - 1 - n

wrap_i64-bits_i64 : (a : ℤ) → IsI64 a → wrap_i64 (pos (bits_i64 a)) ≡ a
wrap_i64-bits_i64 (pos n) h = ground (arith, h)
wrap_i64-bits_i64 (negsuc n) h = ground (arith, h)

abbrev pub stat_bytes : StatRecord → Text
stat_bytes r =
    le 4 r.error
    ++ le 8 r.dev
    ++ le 8 r.ino
    ++ le 4 r.mode
    ++ le 4 r.nlink
    ++ le 4 r.uid
    ++ le 4 r.gid
    ++ le 8 r.size
    ++ le 8 r.atime
    ++ le 8 (bits_i64 r.mtime)
    ++ le 8 r.ctime

bits_i64_bound : (a : ℤ) → IsI64 a → bits_i64 a < 256 ^ 8
bits_i64_bound (pos n) h = omega (arith, h)
bits_i64_bound (negsuc n) h = omega arith

-- The parser takes the error, the mode, the size and the signed time from a record whose fields fit
-- their widths, whatever the other fields are.
pub parse_stat_body-stat_bytes :
    (r : StatRecord)
    → r.error < 2 ^ 32
    → r.mode < 2 ^ 32
    → r.size < 2 ^ 64
    → IsI64 r.mtime
    → parse_stat_body (stat_bytes r)
      ≡ record { error = r.error; mode = r.mode; size = r.size; mtime = r.mtime }
unfolding parse_stat_body
parse_stat_body-stat_bytes r he hm hs ht =
    rw
      (
        from_le-le 4 r.error (omega (arith, he)),
        from_le-le 4 r.mode (omega (arith, hm)),
        from_le-le 8 r.size (omega (arith, hs)),
        from_le-le 8 (bits_i64 r.mtime) (bits_i64_bound r.mtime ht),
        wrap_i64-bits_i64 r.mtime ht,
      )
      refl
