-- ===== src/Common/TextOrder.antt =====
-- The order of strings, byte by byte, and `Vec::dedup` on strings.
use mathlib.Core.Path.{◌≡◌, refl}
use mathlib.Core.Bool.{Bool, true, false}
use mathlib.Core.List.{List, [], ◌∷◌}
use native.Mathlib.Omega.{arith}
use adbrsync.Common.Tests.{ltb, if◌then◌else◌}
use adbrsync.Common.Text.{Text, text_eq}

unfoldable pub text_leb : Text → Text → Bool
text_leb [] t = true
text_leb (x ∷ s) [] = false
text_leb (x ∷ s) (y ∷ t) =
    let rest = text_leb s t in if ltb x y then true else if ltb y x then false else rest

-- The elements that differ from the last one kept, `x`.
unfoldable pub dedup_after : Text → List Text → List Text
dedup_after x [] = []
dedup_after x (y ∷ ys) = elim (text_eq y x) [
  | true ↦ dedup_after x ys
  | false ↦ y ∷ dedup_after y ys
]

unfoldable pub dedup : List Text → List Text
unfolding dedup_after
dedup [] = []
dedup (x ∷ xs) = x ∷ dedup_after x xs

pub text_leb_trans :
    (s t u : Text) → text_leb s t ≡ true → text_leb t u ≡ true → text_leb s u ≡ true
unfolding text_leb
text_leb_trans [] t u h k = refl
text_leb_trans (x ∷ s) [] u h k = ground arith
text_leb_trans (x ∷ s) (y ∷ t) [] h k = ground arith
text_leb_trans (x ∷ s) (y ∷ t) (z ∷ u) h k = ground (arith, text_leb_trans s t u)

pub text_leb_total : (s t : Text) → text_leb s t ≡ false → text_leb t s ≡ true
unfolding text_leb
text_leb_total [] t h = ground arith
text_leb_total (x ∷ s) [] h = refl
text_leb_total (x ∷ s) (y ∷ t) h = ground (arith, text_leb_total s t)

pub text_leb_antisymm : (s t : Text) → text_leb s t ≡ true → text_leb t s ≡ true → s ≡ t
unfolding text_leb
text_leb_antisymm [] [] h k = refl
text_leb_antisymm [] (y ∷ t) h k = ground arith
text_leb_antisymm (x ∷ s) [] h k = ground arith
text_leb_antisymm (x ∷ s) (y ∷ t) h k = ground (arith, text_leb_antisymm s t)
