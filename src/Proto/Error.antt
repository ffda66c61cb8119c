-- ===== src/Proto/Error.antt =====
-- crates/adb-proto/src/error.rs. The wording of a protocol violation and the address and source of
-- an unreachable server are left out; they are only shown.
use adbrsync.Common.{List}
use adbrsync.Common.Text.{Text}

-- The kinds of I/O errors that the code tells apart.
pub data IoKind : Type 0 where
  unexpected_eof : IoKind
  other : IoKind

pub data Error : Type 0 where
  io : IoKind → Error
  rejected : (request reason : Text) → Error
  protocol : Error
  sync : (path reason : Text) → Error
  no_device : Error
  unknown_serial : (serial : Text) (available : List Text) → Error
  server_unreachable : Error
  ambiguous_device : List Text → Error
