-- ===== src/Core/Error.antt =====
-- crates/adbrsync-core/src/error.rs. What a message only shows is left
-- out, and a filter's error is its pattern.
use adbrsync.Common.Text.{Text}
use adbrsync.Proto.Error

pub data CoreError : Type 0 where
  adb : Error.Error → CoreError
  io_failed : Text → CoreError
  unsafe_path : Text → CoreError
  scan_failed : Text → CoreError
  local_scan : Text → CoreError
  filter : Text → CoreError
