-- ===== src/Proto/Stream/Handshake.antt =====
-- Requests of the host protocol and the answers of the adb server.
use adbrsync.Common.{ℕ, ◌/◌, ◌%◌, ◌^◌, ◌<◌, ◌≡◌, arith, ◌++◌, true}
use adbrsync.Common.{append_assoc, ◌==◌, false, some, length}
use adbrsync.Common.Text.{Text, codes, text_eq}
use adbrsync.Common.Result.{Result, ok, err}
use adbrsync.Proto.Error.{Error, rejected}
use adbrsync.Proto.Stream.{
  Stream, hex_digit, hex4, digit_16, digits_16, from_hex, read_length_prefixed, read_status,
  request, write_request, reason_or_empty,
}
use adbrsync.Proto.Stream.Frames.{feed, read_exact-append}

digit_16-hex_digit : (d : ℕ) → d < 16 → digit_16 (hex_digit d) ≡ some d
unfolding hex_digit digit_16
digit_16-hex_digit d h = ground (arith, h)

not_plus : (d : ℕ) → (hex_digit d == b'+') ≡ false
unfolding hex_digit
not_plus d = ground arith

from_hex-hex4 : (n : ℕ) → n < 2 ^ 16 → from_hex (hex4 n) ≡ some n
unfolding from_hex digits_16
from_hex-hex4 n h = ground (
  arith,
  h,
  not_plus (n / 4096 % 16),
  digit_16-hex_digit (n / 4096 % 16) (omega arith),
  digit_16-hex_digit (n / 256 % 16) (omega arith),
  digit_16-hex_digit (n / 16 % 16) (omega arith),
  digit_16-hex_digit (n % 16) (omega arith),
)

-- The answers of the server to a request.
pub data Answer : Type 0 where
  okay : Answer
  refuse : Text → Answer

abbrev pub answer_bytes : Answer → Text
answer_bytes okay = codes "OKAY"
answer_bytes (refuse reason) = codes "FAIL" ++ (hex4 (length reason) ++ reason)

abbrev pub IsAnswer : Answer → Type 0
IsAnswer okay = Unit {0}
IsAnswer (refuse reason) = length reason < 2 ^ 16

module _ (lossy : Text → Text) where
  abbrev pub answer_result : Text → Answer → Result Error (Unit {0})
  answer_result text okay = ok tt
  answer_result text (refuse reason) = err (rejected text (lossy reason))

  pub read_length_prefixed-append :
      (body rest : Text) (s : Stream)
      → length body < 2 ^ 16
      → read_length_prefixed lossy (feed s (hex4 (length body) ++ (body ++ rest)))
        ≡ (ok (lossy body), feed s rest)
  unfolding read_length_prefixed
  read_length_prefixed-append body rest s h = ground (
    arith,
    read_exact-append (hex4 (length body)) (body ++ rest) s,
    from_hex-hex4 (length body) h,
    read_exact-append body rest s,
  )

  -- A request of at most 65535 bytes is written with its length in front. OKAY is success, FAIL is
  -- the rejection with the server's reason, and nothing is read past the answer.
  pub request_answered :
      (text rest : Text) (answer : Answer) (s : Stream)
      → length text < 2 ^ 16
      → IsAnswer answer
      → s.writable ≡ true
      → request lossy text (feed s (answer_bytes answer ++ rest)) ≡ (
        answer_result text answer,
        record s { incoming = rest; outgoing = s.outgoing ++ (hex4 (length text) ++ text) },
      )
  unfolding request write_request read_status reason_or_empty text_eq
  request_answered text rest okay s ht ha hs = ground (
    arith,
    ht,
    read_exact-append (codes "OKAY") rest
        (record s { outgoing = s.outgoing ++ (hex4 (length text) ++ text) }),
  )
  request_answered text rest (refuse reason) s ht ha hs = ground (
    arith,
    ht,
    read_exact-append (codes "FAIL") (hex4 (length reason) ++ reason ++ rest)
        (record s { outgoing = s.outgoing ++ (hex4 (length text) ++ text) }),
    append_assoc (hex4 (length reason)) reason rest,
    read_length_prefixed-append reason rest
        (record s { outgoing = s.outgoing ++ (hex4 (length text) ++ text) }) ha,
  )
