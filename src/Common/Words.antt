-- ===== src/Common/Words.antt =====
-- The `str` methods on lines and white space. The white space between words is ASCII's: the server
-- that the code reads words from sends no other.
use Prim.Native.Nat.{ℕ}
use mathlib.Core.Path.{◌≡◌, refl}
use mathlib.Core.Bool.{Bool, true, false, not, ◌&&◌, ◌||◌}
use mathlib.Core.List.{List, [], ◌∷◌, ◌++◌}
use native.Mathlib.Omega.{arith}
use adbrsync.Common.Tests.{leb, ltb, ◌==◌, if◌then◌else◌}
use adbrsync.Common.Lists.{keep, all, All}
use adbrsync.Common.Text.{Text, is_empty, split, join}

abbrev pub is_space : ℕ → Bool
is_space c = c == 32 || (leb 9 c && leb c 13)

abbrev begin_word : ℕ → List Text → List Text
begin_word c [] = (c ∷ []) ∷ []
begin_word c (w ∷ ws) = (c ∷ w) ∷ ws

-- The parts between white space, empty ones too.
unfoldable pieces : Text → List Text
pieces [] = [] ∷ []
pieces (c ∷ s) = let rest = pieces s in if is_space c then [] ∷ rest else begin_word c rest

-- `str::split_whitespace`
unfoldable pub split_whitespace : Text → List Text
unfolding pieces
split_whitespace s = keep (λ w. not (is_empty w)) (pieces s)

-- A byte in a character of UTF-8 that is not its first.
abbrev continues : Text → Bool
continues [] = false
continues (c ∷ s) = leb 128 c && ltb c 192

abbrev begin_char : ℕ → List Text → List Text
begin_char c [] = (c ∷ []) ∷ []
begin_char c (w ∷ ws) = if continues w then (c ∷ w) ∷ ws else (c ∷ []) ∷ w ∷ ws

-- The characters of a text, each by its bytes.
unfoldable pub chars : Text → List Text
chars [] = []
chars (c ∷ s) = begin_char c (chars s)

-- `char::is_whitespace`: in ASCII, and U+85, U+A0, U+1680, U+2000 to U+200A, U+2028, U+2029, U+202F,
-- U+205F and U+3000.
unfoldable pub is_whitespace : Text → Bool
is_whitespace (c ∷ []) = is_space c
is_whitespace (c ∷ d ∷ []) = c == 0xc2 && (d == 0x85 || d == 0xa0)
is_whitespace (c ∷ d ∷ e ∷ []) =
    (c == 0xe1 && d == 0x9a && e == 0x80)
    || (c == 0xe2
        && d == 0x80
        && ((leb 0x80 e && leb e 0x8a) || e == 0xa8 || e == 0xa9 || e == 0xaf))
    || (c == 0xe2 && d == 0x81 && e == 0x9f)
    || (c == 0xe3 && d == 0x80 && e == 0x80)
is_whitespace char = false

unfoldable pub trim_front : List Text → List Text
trim_front [] = []
trim_front (c ∷ s) = let rest = trim_front s in if is_whitespace c then rest else c ∷ s

unfoldable pub trim_back : List Text → List Text
trim_back [] = []
trim_back (c ∷ s) = elim (trim_back s) [
  | [] ↦ if is_whitespace c then [] else c ∷ []
  | d ∷ t ↦ c ∷ d ∷ t
]

abbrev concat : List Text → Text
concat [] = []
concat (c ∷ s) = c ++ concat s

-- `str::trim`, of a text in UTF-8
unfoldable pub trim : Text → Text
unfolding trim_front trim_back chars is_whitespace
trim s = concat (trim_back (trim_front (chars s)))

abbrev strip_return : Text → Text
strip_return [] = []
strip_return (c ∷ []) = if c == 13 then [] else c ∷ []
strip_return (c ∷ d ∷ s) = c ∷ strip_return (d ∷ s)

-- An empty text after the last line feed is no line, and a line feed takes a carriage return with it.
abbrev as_lines : List Text → List Text
as_lines [] = []
as_lines (l ∷ []) = if is_empty l then [] else l ∷ []
as_lines (l ∷ m ∷ ls) = strip_return l ∷ as_lines (m ∷ ls)

-- `str::lines`
unfoldable pub lines : Text → List Text
lines s = as_lines (split b'\n' s)

-- A text that is one word.
abbrev pub IsWord : Text → Type 0
IsWord w = (is_empty w ≡ false) × (all (λ c. not (is_space c)) w ≡ true)

pieces_word :
    (w rest : Text)
    → all (λ c. not (is_space c)) w ≡ true
    → pieces (w ++ 32 ∷ rest) ≡ w ∷ pieces rest
unfolding pieces
pieces_word [] rest h = refl
pieces_word (c ∷ w) rest h = ground (arith, pieces_word w rest)

pieces_last : (w : Text) → all (λ c. not (is_space c)) w ≡ true → pieces w ≡ w ∷ []
unfolding pieces
pieces_last [] h = refl
pieces_last (c ∷ w) h = ground (arith, pieces_last w)

-- Words joined by spaces come back.
pub split_whitespace-join : (ws : List Text) → All IsWord ws → split_whitespace (join 32 ws) ≡ ws
unfolding split_whitespace join
split_whitespace-join [] h = refl
split_whitespace-join (w ∷ []) h = ground (arith, pieces_last w h.0.1, h)
split_whitespace-join (w ∷ v ∷ ws) h =
    ground (arith, pieces_word w (join 32 (v ∷ ws)) h.0.1, split_whitespace-join (v ∷ ws) h.1, h)
