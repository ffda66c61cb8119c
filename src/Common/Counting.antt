-- ===== src/Common/Counting.antt =====
-- Elements by index, counts of those that pass a test, and the middle of a sorted list.

use mathlib.Core.List.{Perm, Permᴰ}
use mathlib.Core.Logic.{∥∥₁_elim}
use native.Mathlib.Nat.{ℕ_set}
use adbrsync.Common.Tests.{leb, ltb, if◌then◌else◌}
use adbrsync.Common.Lists.{length, get_elem?, keep, All, count_of, sum_of}
use adbrsync.Common.Members.{length-perm}
use adbrsync.Common.Sort.{
  insert_sorted, sort_by, sort_by-perm, sort_by-Sorted, sum_of-sort_by, Sorted,
}
use Prim.Native.Nat.{ℕ, zero, suc, ◌+◌, ◌*◌, ◌/◌, ◌≤◌, ◌<◌}
use mathlib.Core.Path.{◌≡◌, refl, ap, sym, ◌∙◌}
use mathlib.Core.Bool.{Bool, true}
use mathlib.Core.List.{List, [], ◌∷◌}
use mathlib.Core.Option.{Option, some}
use native.Mathlib.Omega.{arith}

module _ {ℓ} {A : Type ℓ} where
  pub get_elem?-some : (xs : List A) (i : ℕ) → i < length xs → (x : A) × (get_elem? xs i ≡ some x)
  get_elem?-some [] i h = absurd (omega arith)
  get_elem?-some (x ∷ xs) zero h = (x, refl)
  get_elem?-some (x ∷ xs) (suc i) h = get_elem?-some xs i (omega arith)

  pub get_elem?-All {κ} :
      (P : A → Type κ) (xs : List A) (i : ℕ) (x : A) → All P xs → get_elem? xs i ≡ some x → P x
  get_elem?-All P [] i x h e = cc
  get_elem?-All P (y ∷ ys) zero x h e = let same : y ≡ x = cc in rw (← same) h.0
  get_elem?-All P (y ∷ ys) (suc i) x h e = get_elem?-All P ys i x h.1 e

  pub length-keep : (p : A → Bool) (xs : List A) → length (keep p xs) ≡ count_of p xs
  length-keep p [] = refl
  length-keep p (x ∷ xs) = ground (arith, length-keep p xs)

  pub length-sort_by : (le : A → A → Bool) (xs : List A) → length (sort_by le xs) ≡ length xs
  length-sort_by le xs = length-perm (sort_by-perm le xs)

  count_of-sum_of :
      (p : A → Bool) (xs : List A) → count_of p xs ≡ sum_of (λ x. if p x then 1 else 0) xs
  count_of-sum_of p [] = refl
  count_of-sum_of p (x ∷ xs) = omega (arith, count_of-sum_of p xs)

  pub count_of-sort_by :
      (le : A → A → Bool) (p : A → Bool) (xs : List A) → count_of p (sort_by le xs) ≡ count_of p xs
  count_of-sort_by le p xs =
      count_of-sum_of p (sort_by le xs)
      ∙ sum_of-sort_by le (λ x. if p x then 1 else 0) xs
      ∙ sym (count_of-sum_of p xs)

  pub count_of-All :
      (p : A → Bool) (xs : List A) → All (λ x. p x ≡ true) xs → count_of p xs ≡ length xs
  count_of-All p [] h = refl
  count_of-All p (x ∷ xs) h = ground (arith, count_of-All p xs h.1, h.0)

-- In an ascending list, all elements up to an index are at most the one there.
pub count_below :
    (ns : List ℕ) (i t : ℕ)
    → Sorted leb ns
    → get_elem? ns i ≡ some t
    → suc i ≤ count_of (λ n. leb n t) ns
count_below [] i t s e = cc
count_below (n ∷ ns) zero t s e = ground arith
count_below (n ∷ ns) (suc i) t s e =
    ground (arith, count_below ns i t s.1 e, get_elem?-All (λ m. leb n m ≡ true) ns i t s.0 e)

-- All from an index on are at least the one there.
count_above :
    (ns : List ℕ) (i t : ℕ)
    → Sorted leb ns
    → get_elem? ns i ≡ some t
    → length ns ≤ i + count_of (λ n. leb t n) ns
count_above [] i t s e = cc
count_above (n ∷ ns) zero t s e =
    let same : n ≡ t = cc in
    let rest : All (λ m. leb t m ≡ true) ns = rw same at s.0 in
    ground (arith, count_of-All (λ m. leb t m) ns rest, same)
count_above (n ∷ ns) (suc i) t s e = ground (arith, count_above ns i t s.1 e)

count_of-split :
    (t : ℕ) (ns : List ℕ) → count_of (λ n. ltb n t) ns + count_of (λ n. leb t n) ns ≡ length ns
count_of-split t [] = refl
count_of-split t (n ∷ ns) = ground (arith, count_of-split t ns)

-- At most as many as the index are less than the one there.
pub count_less :
    (ns : List ℕ) (i t : ℕ)
    → Sorted leb ns
    → get_elem? ns i ≡ some t
    → count_of (λ n. ltb n t) ns ≤ i
count_less ns i t s e = omega (arith, count_above ns i t s e, count_of-split t ns)

pub sort_by-leb-Sorted : (ns : List ℕ) → Sorted leb (sort_by leb ns)
sort_by-leb-Sorted ns = sort_by-Sorted leb (λ a b c p q. ground arith) (λ a b p. ground arith) ns

-- The element in the middle of the sorted list, if there is one.
unfoldable pub median : List ℕ → Option ℕ
median ns = get_elem? (sort_by leb ns) (length ns / 2)

-- More than half of the numbers are at most `m`, and half of them are at least `m`.
abbrev pub IsMedian : ℕ → List ℕ → Type 0
IsMedian m ns =
    (length ns < 2 * count_of (λ n. leb n m) ns) × (length ns ≤ 2 * count_of (λ n. leb m n) ns)

pub median-IsMedian : (ns : List ℕ) → 0 < length ns → (m : ℕ) × (median ns ≡ some m) × IsMedian m ns
unfolding median
median-IsMedian ns h =
    let i = length ns / 2 in
    let all = length-sort_by leb ns in
    let (m, e) = get_elem?-some (sort_by leb ns) i (omega (arith, all)) in
    let below = count_below (sort_by leb ns) i m (sort_by-leb-Sorted ns) e in
    let above = count_above (sort_by leb ns) i m (sort_by-leb-Sorted ns) e in
    (
      m,
      e,
      (
        omega (arith, below, count_of-sort_by leb (λ n. leb n m) ns),
        omega (arith, above, all, count_of-sort_by leb (λ n. leb m n) ns),
      ),
    )

-- The sorted list and what is computed of it do not depend on the order.
insert_sorted_comm :
    (m n : ℕ) (ns : List ℕ)
    → insert_sorted leb m (insert_sorted leb n ns) ≡ insert_sorted leb n (insert_sorted leb m ns)
unfolding insert_sorted
insert_sorted_comm m n [] = ground arith
insert_sorted_comm m n (k ∷ ns) = ground (arith, insert_sorted_comm m n ns)

numbers_set : IsSet (List ℕ)
numbers_set = hlevel ℕ_set

derivation-sort_by : {ms ns : List ℕ} → Permᴰ ms ns → sort_by leb ms ≡ sort_by leb ns
unfolding sort_by
derivation-sort_by Permᴰ.nil = refl
derivation-sort_by (Permᴰ.cons e p) = rw (e, derivation-sort_by p) refl
derivation-sort_by (Permᴰ.swap {a'} {b'} {l} e f) =
    rw (e, f) (insert_sorted_comm b' a' (sort_by leb l))
derivation-sort_by (Permᴰ.trans p q) = derivation-sort_by p ∙ derivation-sort_by q

pub sort_by-perm_eq : {ms ns : List ℕ} → Perm ms ns → sort_by leb ms ≡ sort_by leb ns
sort_by-perm_eq p = ∥∥₁_elim p (numbers_set _ _) derivation-sort_by

pub sum_of-perm : {ms ns : List ℕ} → Perm ms ns → sum_of (λ n. n) ms ≡ sum_of (λ n. n) ns
sum_of-perm {ms} {ns} p =
    sym (sum_of-sort_by leb (λ n. n) ms)
    ∙ ap (sum_of (λ n. n)) (sort_by-perm_eq p)
    ∙ sum_of-sort_by leb (λ n. n) ns

pub median-perm : {ms ns : List ℕ} → Perm ms ns → median ms ≡ median ns
unfolding median
median-perm p = rw (sort_by-perm_eq p, length-perm p) refl
