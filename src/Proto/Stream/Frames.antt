-- ===== src/Proto/Stream/Frames.antt =====
-- Frames of the sync service and the shell: an id, a length and a payload; and reading a known prefix.
use adbrsync.Common.{ℕ, ◌≡◌, arith}
use adbrsync.Common.{◌++◌, length, length-append, take-append}
use adbrsync.Common.{drop-append}
use adbrsync.Common.Text.{Text}
use adbrsync.Common.Result.{ok}
use adbrsync.Proto.Bytes.{le}
use adbrsync.Proto.Stream.{Stream, read_exact}

-- The connection with other bytes to read.
abbrev pub feed : Stream → Text → Stream
feed s bytes = record s { incoming = bytes }

abbrev pub header : Text → ℕ → Text
header id n = id ++ le 4 n

abbrev pub frame : Text → Text → Text
frame id payload = header id (length payload) ++ payload

pub read_exact-append :
    (a b : Text) (s : Stream) → read_exact (length a) (feed s (a ++ b)) ≡ (ok a, feed s b)
unfolding read_exact
read_exact-append a b s = ground (arith, length-append a b, take-append a b, drop-append a b)
