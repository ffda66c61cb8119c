-- ===== src/Common/Text.antt =====
-- Strings as the lists of their bytes, with the `str` methods that the code calls. The bytes that
-- the methods look for are ASCII, so a search by bytes finds what a search by characters finds.
use Prim.Native.Nat.{ℕ}
use Prim.Native.Char.{code}
use Prim.Native.String.{String}
use mathlib.Core.Path.{◌≡◌, refl}
use mathlib.Core.Logic.{◌↔◌}
use mathlib.Core.Bool.{Bool, true, false, ◌&&◌, ◌||◌}
use mathlib.Core.List.{List, [], ◌∷◌, ◌++◌}
use mathlib.Core.Option.{Option, none, some}
use native.Mathlib.Omega.{arith}
use adbrsync.Common.Tests.{◌==◌, if◌then◌else◌}

abbrev pub Text : Type 0
Text = List ℕ

-- The bytes of an ASCII literal.
abbrev pub codes : String → Text
codes String.[] = []
codes (String.◌∷◌ c s) = code c ∷ codes s

unfoldable pub text_eq : Text → Text → Bool
text_eq [] [] = true
text_eq [] (y ∷ ys) = false
text_eq (x ∷ xs) [] = false
text_eq (x ∷ xs) (y ∷ ys) = x == y && text_eq xs ys

pub text_eq_iff : (s t : Text) → (text_eq s t ≡ true) ↔ (s ≡ t)
unfolding text_eq
text_eq_iff [] [] = ground arith
text_eq_iff [] (y ∷ ys) = ground arith
text_eq_iff (x ∷ xs) [] = ground arith
text_eq_iff (x ∷ xs) (y ∷ ys) = ground (arith, text_eq_iff xs ys)

-- `str::is_empty`
abbrev pub is_empty : Text → Bool
is_empty [] = true
is_empty (c ∷ s) = false

-- `str::contains` of a byte
unfoldable pub contains : Text → ℕ → Bool
contains [] c = false
contains (d ∷ s) c = d == c || contains s c

-- `str::starts_with` of a text
unfoldable pub starts_with : Text → Text → Bool
starts_with s [] = true
starts_with [] (c ∷ p) = false
starts_with (d ∷ s) (c ∷ p) = d == c && starts_with s p

-- `str::strip_prefix`
unfoldable pub strip_prefix : Text → Text → Option Text
strip_prefix s [] = some s
strip_prefix [] (c ∷ p) = none
strip_prefix (d ∷ s) (c ∷ p) = let rest = strip_prefix s p in if d == c then rest else none

abbrev cons_first : ℕ → List Text → List Text
cons_first c [] = (c ∷ []) ∷ []
cons_first c (s ∷ ss) = (c ∷ s) ∷ ss

-- `str::split` at a byte: the empty text has one part.
unfoldable pub split : ℕ → Text → List Text
split sep [] = [] ∷ []
split sep (c ∷ s) = let rest = split sep s in if c == sep then [] ∷ rest else cons_first c rest

-- `[&str]::join` with a byte
unfoldable pub join : ℕ → List Text → Text
join sep [] = []
join sep (s ∷ []) = s
join sep (s ∷ t ∷ ts) = s ++ sep ∷ join sep (t ∷ ts)

-- `str::trim_start_matches` of a byte
unfoldable pub trim_start : ℕ → Text → Text
trim_start sep [] = []
trim_start sep (c ∷ s) = let rest = trim_start sep s in if c == sep then rest else c ∷ s

-- `str::trim_end_matches` of a byte: what is left of the rest decides whether `c` ends the text.
unfoldable pub trim_end : ℕ → Text → Text
trim_end sep [] = []
trim_end sep (c ∷ s) = elim (trim_end sep s) [
  | [] ↦ if c == sep then [] else c ∷ []
  | d ∷ t ↦ c ∷ d ∷ t
]

pub contains-append : (s t : Text) (c : ℕ) → contains (s ++ t) c ≡ (contains s c || contains t c)
unfolding contains
contains-append [] t c = refl
contains-append (d ∷ s) t c = ground (arith, contains-append s t c)

pub split-ne-nil : (sep : ℕ) (s : Text) → (p : Text) × (ps : List Text) × (split sep s ≡ p ∷ ps)
unfolding split
split-ne-nil sep [] = ([], [], refl)
split-ne-nil sep (c ∷ s) = go (split-ne-nil sep s)
  where
    go :
        ((p : Text) × (ps : List Text) × (split sep s ≡ p ∷ ps))
        → (p : Text) × (ps : List Text) × (split sep (c ∷ s) ≡ p ∷ ps)
    go (p, ps, e) = (if c == sep then [] else c ∷ p, if c == sep then p ∷ ps else ps, ground arith)

-- A text with no separator is a single part, also in front of a separator.
pub split-append :
    (sep : ℕ) (s t : Text) → contains s sep ≡ false → split sep (s ++ sep ∷ t) ≡ s ∷ split sep t
unfolding split contains
split-append sep [] t h = ground arith
split-append sep (c ∷ s) t h = ground (arith, split-append sep s t)

pub split_single : (sep : ℕ) (s : Text) → contains s sep ≡ false → split sep s ≡ s ∷ []
unfolding split contains
split_single sep [] h = refl
split_single sep (c ∷ s) h = ground (arith, split_single sep s)
