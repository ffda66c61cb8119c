-- ===== src/Core/Records/Fields.antt =====
-- The fields of a record, and the path relative to the root.
use adbrsync.Common.{ℕ, ◌≡◌, refl, arith, [], ◌∷◌, ◌++◌, some, false, ◌==◌}
use adbrsync.Common.Text.{Text, contains, strip_prefix, trim_start}
use adbrsync.Common.Int.{ℤ}
use adbrsync.Core.Entry.{EntryKind}
use adbrsync.Core.Records.{
  split_once, parse_kind, parse_unsigned, parse_mtime, relative_to, parse_record,
}

pub split_once-append :
    (sep : ℕ) (a b : Text) → contains a sep ≡ false → split_once sep (a ++ sep ∷ b) ≡ some (a, b)
unfolding split_once contains
split_once-append sep [] b h = ground arith
split_once-append sep (c ∷ a) b h = ground (arith, split_once-append sep a b)

strip_prefix-append : (p s : Text) → strip_prefix (p ++ s) p ≡ some s
unfolding strip_prefix
strip_prefix-append [] s = refl
strip_prefix-append (c ∷ p) s = ground (arith, strip_prefix-append p s)

-- A record of four fields with no separator in them and any path is read field by field: separators
-- in the path stay in it.
pub parse_record-fields :
    (kind_text size_text mtime_text mode_text path root : Text) (kind : EntryKind) (size mode : ℕ)
    (mtime : ℤ)
    → contains kind_text b'|' ≡ false
    → contains size_text b'|' ≡ false
    → contains mtime_text b'|' ≡ false
    → contains mode_text b'|' ≡ false
    → parse_kind kind_text ≡ some kind
    → parse_unsigned 10 64 size_text ≡ some size
    → parse_mtime mtime_text ≡ some mtime
    → parse_unsigned 8 32 mode_text ≡ some mode
    → parse_record
        (kind_text
          ++ b'|' ∷ (size_text ++ b'|' ∷ (mtime_text ++ b'|' ∷ (mode_text ++ b'|' ∷ path))))
        root
      ≡ some (record {
        rel = relative_to root path;
        remote = path;
        kind = kind;
        size = size;
        mtime = mtime;
        mode = mode;
      })
unfolding parse_record
parse_record-fields a b c d path root kind size mode mtime ha hb hc hd ka kb kc kd = ground (
  arith,
  split_once-append b'|' a (b ++ b'|' ∷ (c ++ b'|' ∷ (d ++ b'|' ∷ path))) ha,
  split_once-append b'|' b (c ++ b'|' ∷ (d ++ b'|' ∷ path)) hb,
  split_once-append b'|' c (d ++ b'|' ∷ path) hc,
  split_once-append b'|' d path hd,
  ka,
  kb,
  kc,
  kd,
)

-- The root is removed from a path below it, with the slashes after it.
pub relative_to-below :
    (root rest : Text) → relative_to root (root ++ b'/' ∷ rest) ≡ trim_start b'/' rest
unfolding trim_start
relative_to-below root rest = ground (arith, strip_prefix-append root (b'/' ∷ rest))

-- A path that the root is only a prefix of as a text stays whole.
pub relative_to-beside :
    (root rest : Text) (c : ℕ)
    → (c == b'/') ≡ false
    → relative_to root (root ++ c ∷ rest) ≡ root ++ c ∷ rest
relative_to-beside root rest c h = ground (arith, h, strip_prefix-append root (c ∷ rest))
