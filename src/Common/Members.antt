-- ===== src/Common/Members.antt =====
-- Membership in the lists that the iterator combinators return.
use mathlib.Core.List
use mathlib.Core.List.Perm
use mathlib.Core.List.{Mem, mem-filter_map, mem-filter, Perm, Permᴰ}
use mathlib.Core.Logic.{∥∥₁_elim}
use native.Mathlib.Nat.{ℕ_set}
use Prim.Native.Nat.{suc}
use mathlib.Core.Path.{◌≡◌, refl, ap, ◌∙◌}
use mathlib.Core.Logic.{◌↔◌}
use mathlib.Core.Bool.{Bool, true, Bool-discrete}
use mathlib.Core.List.{List, [], ◌∷◌}
use mathlib.Core.Option.{Option, some}
use mathlib.Core.Option.{Option-elim}
use native.Mathlib.Omega.{arith}
use adbrsync.Common.Lists.{filter_map, keep, length}

filter_map_lem {ℓ κ} :
    {A : Type ℓ} {B : Type κ} (f : A → Option B) (xs : List A)
    → List.filter_map f xs ≡ filter_map f xs
unfolding List.filter_map Option-elim
filter_map_lem f [] = refl
filter_map_lem f (x ∷ xs) = ground (arith, filter_map_lem f xs)

pub mem-filter_map_iff {ℓ κ} :
    {A : Type ℓ} {B : Type κ} (f : A → Option B) (xs : List A) {y : B}
    → Mem y (filter_map f xs) ↔ ∥ ((x : A) × Mem x xs × (f x ≡ some y)) ∥₁
mem-filter_map_iff f xs {y} = rw (filter_map_lem f xs) at (mem-filter_map f xs {b = y})

keep_lem {ℓ} :
    {A : Type ℓ} (p : A → Bool) (xs : List A)
    → List.filter (λ x. Bool-discrete (p x) true) xs ≡ keep p xs
keep_lem p [] = refl
keep_lem p (x ∷ xs) = ground (arith, keep_lem p xs)

pub mem-keep_iff {ℓ} :
    {A : Type ℓ} (p : A → Bool) (xs : List A) {y : A}
    → Mem y (keep p xs) ↔ (Mem y xs × (p y ≡ true))
mem-keep_iff p xs {y} =
    rw (keep_lem p xs) at (mem-filter (λ x. Bool-discrete (p x) true) {l = xs} {x = y})

-- Lists that differ in their order have one length.
derivation-length {ℓ} : {A : Type ℓ} {xs ys : List A} → Permᴰ xs ys → length xs ≡ length ys
derivation-length Permᴰ.nil = refl
derivation-length (Permᴰ.cons e p) = ap suc (derivation-length p)
derivation-length (Permᴰ.swap e d) = refl
derivation-length (Permᴰ.trans p q) = derivation-length p ∙ derivation-length q

pub length-perm {ℓ} : {A : Type ℓ} {xs ys : List A} → Perm xs ys → length xs ≡ length ys
length-perm p = ∥∥₁_elim p (ℕ_set _ _) derivation-length

-- A filter keeps the order out of account.
pub keep-perm {ℓ} :
    {A : Type ℓ} (p : A → Bool) {xs ys : List A} → Perm xs ys → Perm (keep p xs) (keep p ys)
keep-perm p {xs} {ys} h =
    rw (← keep_lem p xs, ← keep_lem p ys) (Perm.filter (λ x. Bool-discrete (p x) true) h)
