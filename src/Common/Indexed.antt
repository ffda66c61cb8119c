-- ===== src/Common/Indexed.antt =====
-- Lists by the index of their elements, and by membership.
use mathlib.Core.Logic.{∥∥₁_elim}
use mathlib.Core.List.{Mem, Memᴰ, mem-cons_self, mem-cons_of_mem, not-mem-nil}
use adbrsync.Common.Lists.{get_elem?, All, all, is_nil}
use Prim.Native.Nat.{ℕ, zero, suc}
use mathlib.Core.Path.{◌≡◌, refl, sym, subst}
use mathlib.Core.Bool.{Bool, true}
use mathlib.Core.List.{List, [], ◌∷◌, map}
use mathlib.Core.Option.{some}
use native.Mathlib.Omega.{arith}

module _ {ℓ κ} {A : Type ℓ} (P : A → Type κ) where
  pub All-by_index : (xs : List A) → ((i : ℕ) (x : A) → get_elem? xs i ≡ some x → P x) → All P xs
  All-by_index [] f = tt
  All-by_index (x ∷ xs) f = (f 0 x refl, All-by_index xs (λ i y e. f (suc i) y e))

  pub All-by_mem : (xs : List A) → ((x : A) → Mem x xs → P x) → All P xs
  All-by_mem [] f = tt
  All-by_mem (x ∷ xs) f = (f x mem-cons_self, All-by_mem xs (λ y m. f y (mem-cons_of_mem x m)))

  pub All-map_of : {B : Type 0} (g : B → A) (xs : List B) → All (λ b. P (g b)) xs → All P (map g xs)
  All-map_of g [] h = tt
  All-map_of g (x ∷ xs) h = (h.0, All-map_of g xs h.1)

pub get_elem?-map_inv :
    {A B : Type 0} (f : A → B) (xs : List A) (i : ℕ) {y : B}
    → get_elem? (map f xs) i ≡ some y
    → (x : A) × (get_elem? xs i ≡ some x) × (y ≡ f x)
get_elem?-map_inv f [] i h = cc
get_elem?-map_inv f (x ∷ xs) zero h = (x, refl, cc)
get_elem?-map_inv f (x ∷ xs) (suc i) h = get_elem?-map_inv f xs i h

pub all_elem :
    {A : Type 0} (p : A → Bool) (xs : List A) (i : ℕ) {x : A}
    → all p xs ≡ true
    → get_elem? xs i ≡ some x
    → p x ≡ true
all_elem p [] i h e = cc
all_elem p (x ∷ xs) zero h e = ground (arith, h, e)
all_elem p (x ∷ xs) (suc i) h e = all_elem p xs i (ground (arith, h)) e

pub is_nil-mem : {A : Type 0} (xs : List A) (x : A) → is_nil xs ≡ true → Mem x xs → ⊥
is_nil-mem [] x h m = not-mem-nil m
is_nil-mem (y ∷ xs) x h m = cc

derivation-All {ℓ κ} :
    {A : Type ℓ} (P : A → Type κ) {x : A} {xs : List A} → Memᴰ x xs → All P xs → P x
derivation-All P (Memᴰ.head e) h = subst P (sym e) h.0
derivation-All P (Memᴰ.tail m) h = derivation-All P m h.1

-- What holds of all elements holds of a member.
pub mem-All {ℓ κ} :
    {A : Type ℓ} (P : A → Type κ) {x : A} {xs : List A} → IsProp (P x) → Mem x xs → All P xs → P x
mem-All P p m h = ∥∥₁_elim m p (λ d. derivation-All P d h)
