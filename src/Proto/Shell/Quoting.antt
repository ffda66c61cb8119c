-- ===== src/Proto/Shell/Quoting.antt =====
-- How a POSIX shell reads a word that it neither expands nor splits, and `shell_quote` against it.
use adbrsync.Common.{ℕ, ◌≡◌, refl, arith, ◌==◌, leb, Bool, true, false, ◌&&◌, ◌||◌}
use adbrsync.Common.{[], ◌∷◌, ◌++◌, Option, none, some, append_assoc}
use adbrsync.Common.Text.{Text}
use adbrsync.Proto.Shell.{quote_chars, shell_quote}

-- Where the reader stands: outside quotes, inside single quotes, after a backslash.
pub data Mode : Type 0 where
  plain : Mode
  quoted : Mode
  escaped : Mode

-- The characters that stand for themselves outside quotes: letters, digits, and `+ , - . / : @ _`.
abbrev is_literal : ℕ → Bool
is_literal c =
    (leb 97 c && leb c 122)
    || (leb 65 c && leb c 90)
    || (leb 43 c && leb c 58)
    || c == 64
    || c == 95

abbrev cons_to : ℕ → Option (Text × Text) → Option (Text × Text)
cons_to c none = none
cons_to c (some (w, rest)) = some (c ∷ w, rest)

-- The word that a text starts with, and what follows it.
unfoldable pub read_word : Mode → Text → Option (Text × Text)
read_word plain [] = some ([], [])
read_word quoted [] = none
read_word escaped [] = none
read_word plain (c ∷ s) = elim (c == 39) [
  | true ↦ read_word quoted s
  | false ↦ elim (c == 92) [
    | true ↦ read_word escaped s
    | false ↦ elim (is_literal c) [
      | true ↦ cons_to c (read_word plain s)
      | false ↦ some ([], c ∷ s)
    ]
  ]
]
read_word quoted (c ∷ s) = elim (c == 39) [
  | true ↦ read_word plain s
  | false ↦ cons_to c (read_word quoted s)
]
read_word escaped (c ∷ s) = cons_to c (read_word plain s)

-- A text that no word continues into: the end, or a space.
abbrev pub Separated : Text → Type 0
Separated [] = Unit {0}
Separated (c ∷ s) = c ≡ 32

read_word-Separated : (rest : Text) → Separated rest → read_word plain rest ≡ some ([], rest)
unfolding read_word
read_word-Separated [] h = refl
read_word-Separated (c ∷ s) h = ground arith

read_word-quote_chars :
    (s rest : Text)
    → Separated rest
    → read_word quoted (quote_chars s ++ 39 ∷ rest) ≡ some (s, rest)
unfolding read_word quote_chars
read_word-quote_chars [] rest h = read_word-Separated rest h
read_word-quote_chars (c ∷ s) rest h = ground (arith, read_word-quote_chars s rest h)

-- A shell reads a quoted text as one word, which is that text, whatever bytes are in it, if the
-- quoted text is followed by a space or by nothing.
pub read_word-shell_quote :
    (s rest : Text) → Separated rest → read_word plain (shell_quote s ++ rest) ≡ some (s, rest)
unfolding read_word shell_quote
read_word-shell_quote s rest h =
    rw (append_assoc (quote_chars s) (39 ∷ []) rest) (read_word-quote_chars s rest h)
