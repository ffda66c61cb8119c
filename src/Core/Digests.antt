-- ===== src/Core/Digests.antt =====
-- `Digests` of crates/adbrsync-core/src/checksum.rs: the paths whose contents are known to agree.
use adbrsync.Common.{Bool}
use adbrsync.Common.Text.{Text}

pub record Digests : Type 0 where
  pub matched : Text → Bool

abbrev pub matches : Digests → Text → Bool
matches d rel = d.matched rel
