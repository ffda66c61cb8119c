-- ===== src/Proto/Stream.antt =====
-- `AdbStream` of crates/adb-proto/src/stream.rs: a connection to the adb server.
-- A connection is what the peer has sent and the code has not read, how a read past that fails,
-- what was written to it, and whether writing works. The buffer of `BufStream` is not modelled: it
-- is flushed after each request.
pub mod Frames
pub mod Handshake
use adbrsync.Common.{ℕ, ◌+◌, ◌-◌, ◌*◌, ◌/◌, ◌%◌, ◌++◌, Bool, ◌&&◌, ltb, leb, ◌==◌, if◌then◌else◌}
use adbrsync.Common.{[], ◌∷◌, length, take, drop, Option, none, some}
use adbrsync.Common.Text.{Text, codes, text_eq, is_empty}
use adbrsync.Common.Result.{Result, ok, err}
use adbrsync.Proto.Error.{Error, io, protocol, rejected, IoKind, other}

pub record Stream : Type 0 where
  pub incoming : Text
  pub ending : IoKind
  pub outgoing : Text
  pub writable : Bool

-- A call on a connection, which may fail and leaves a connection either way.
abbrev pub Io {ℓ} : Type ℓ → Type ℓ
Io A = Stream → Result Error A × Stream

abbrev pub and_then {ℓ κ} :
    {A : Type ℓ} {B : Type κ}
    → Result Error A × Stream
    → (A → Stream → Result Error B × Stream)
    → Result Error B × Stream
and_then (ok a, s) f = f a s
and_then (err e, s) f = (err e, s)

infixl 5 ◌>>=◌ ◌>>◌
abbrev pub ◌>>=◌ {ℓ κ} : {A : Type ℓ} {B : Type κ} → Io A → (A → Io B) → Io B
(m >>= f) s = and_then (m s) f

abbrev pub ◌>>◌ {ℓ} : {B : Type ℓ} → Io (Unit {0}) → Io B → Io B
m >> k = m >>= λ _. k

abbrev pub return {ℓ} : {A : Type ℓ} → A → Io A
return a s = (ok a, s)

abbrev pub throw {ℓ} : {A : Type ℓ} → Error → Io A
throw e s = (err e, s)

unfoldable pub read_exact : ℕ → Io Text
read_exact n s =
    if leb n (length s.incoming)
    then (ok (take n s.incoming), record s { incoming = drop n s.incoming })
    else (err (io s.ending), record s { incoming = [] })

abbrev pub write_all : Text → Io (Unit {0})
write_all bytes s =
    if s.writable then (ok tt, record s { outgoing = s.outgoing ++ bytes }) else (err (io other), s)

abbrev pub flush : Io (Unit {0})
flush s = if s.writable then (ok tt, s) else (err (io other), s)

-- One hexadecimal digit, as `{:x}` prints it.
unfoldable pub hex_digit : ℕ → ℕ
hex_digit d = if ltb d 10 then 48 + d else 87 + d

-- `{:04x}` of a number below 2^16.
abbrev pub hex4 : ℕ → Text
hex4 n =
    hex_digit (n / 4096 % 16)
    ∷ hex_digit (n / 256 % 16)
    ∷ hex_digit (n / 16 % 16)
    ∷ hex_digit (n % 16)
    ∷ []

-- The value of a digit in base 16, in either case.
unfoldable pub digit_16 : ℕ → Option ℕ
digit_16 c =
    if leb 48 c && leb c 57
    then some (c - 48)
    else if leb 97 c && leb c 102
    then some (c - 87)
    else if leb 65 c && leb c 70
    then some (c - 55)
    else none

-- The digits after those that make `n`.
unfoldable pub digits_16 : ℕ → Text → Option ℕ
digits_16 n [] = some n
digits_16 n (c ∷ s) = elim (digit_16 c) [ none ↦ none | some d ↦ digits_16 (n * 16 + d) s ]

-- `usize::from_str_radix` in base 16, for a text too short to overflow: a plus sign may stand first.
unfoldable pub from_hex : Text → Option ℕ
unfolding digits_16
from_hex [] = none
from_hex (c ∷ s) =
    if c == b'+' then (if is_empty s then none else digits_16 0 s) else digits_16 0 (c ∷ s)

unfoldable pub write_request : Text → Io (Unit {0})
write_request request =
    if ltb 0xffff (length request)
    then throw protocol
    else write_all (hex4 (length request) ++ request) >> flush

-- The texts that `from_utf8_lossy` makes of bytes are the library's.
module _ (lossy : Text → Text) where
  unfoldable pub read_length_prefixed : Io Text
  unfolding from_hex
  read_length_prefixed = read_exact 4 >>= λ len_buf. elim (from_hex len_buf) [
    | none ↦ throw protocol
    | some len ↦ read_exact len >>= λ body. return (lossy body)
  ]

  -- `unwrap_or_default` on the reason that could not be read.
  unfoldable reason_or_empty : Io Text
  unfolding read_length_prefixed
  reason_or_empty s =
      let (r, t) = read_length_prefixed s in
      elim r [ ok reason ↦ (ok reason, t) | err e ↦ (ok [], t) ]

  unfoldable pub read_status : Text → Io (Unit {0})
  unfolding reason_or_empty
  read_status request = read_exact 4 >>= λ status.
      if text_eq status (codes "OKAY")
      then return tt
      else if text_eq status (codes "FAIL")
      then reason_or_empty >>= (λ reason. throw (rejected request reason))
      else throw protocol

  unfoldable pub request : Text → Io (Unit {0})
  unfolding write_request read_status
  request text = write_request text >> read_status text
