-- ===== src/Common/Maps.antt =====
-- Hash maps and sets keyed by texts, as functions: the code never depends on their order.
use mathlib.Core.Bool.{Bool, ◌||◌}
use mathlib.Core.Option.{Option, none, some}
use adbrsync.Common.Tests.{if◌then◌else◌}
use adbrsync.Common.Text.{Text, text_eq}

module _ {ℓ} {V : Type ℓ} where
  -- `HashMap::insert`, which replaces.
  abbrev pub put : Text → V → (Text → Option V) → Text → Option V
  put k v m j = if text_eq k j then some v else m j

  -- `HashMap::entry(k).or_insert(v)`, which does not.
  abbrev pub or_insert : Text → V → (Text → Option V) → Text → Option V
  or_insert k v m = elim (m k) [ none ↦ put k v m | some old ↦ m ]

-- `HashSet::insert`
abbrev pub add : Text → (Text → Bool) → Text → Bool
add k s j = text_eq k j || s j
