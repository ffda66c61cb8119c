-- ===== src/Core/Perf/Grouping.antt =====
-- `bucketize`: the map that its loop builds holds at each class the samples whose sizes lie in it.
use adbrsync.Common.{ℕ, zero, suc, ◌+◌, ◌≤◌, ◌<◌, ◌≡◌, refl, ap, sym, ◌∙◌, arith}
use adbrsync.Common.{Bool, true, ◌&&◌, leb, ltb, ◌==◌, if◌then◌else◌, Bool-cases, inl, inr}
use adbrsync.Common.{List, [], ◌∷◌, ◌++◌, Option, none, some, get_elem?, keep}
use adbrsync.Common.{append-nil, append_assoc}
use adbrsync.Core.Measure.{Sample}
use adbrsync.Core.Perf.{bucket_bounds, class_in, class_of, push_in, group_onto}

-- The classes, and the sizes that each holds.
abbrev pub classes : List ℕ
classes = 0 ∷ 1 ∷ 2 ∷ 3 ∷ 4 ∷ 5 ∷ 6 ∷ []

abbrev pub or_zero : Option ℕ → ℕ
or_zero none = 0
or_zero (some n) = n

abbrev pub lower_bound : ℕ → ℕ
lower_bound zero = 0
lower_bound (suc i) = or_zero (get_elem? bucket_bounds i)

abbrev pub is_under : Option ℕ → ℕ → Bool
is_under none size = true
is_under (some bound) size = ltb size bound

abbrev pub in_class : ℕ → Sample → Bool
in_class i s = leb (lower_bound i) s.size && is_under (get_elem? bucket_bounds i) s.size

abbrev pub members : List Sample → ℕ → List Sample
members samples i = keep (in_class i) samples

-- The map that holds `f i` at each `i` from `k` on, where that is not empty.
abbrev pub add_class : ℕ → List Sample → List (ℕ × List Sample) → List (ℕ × List Sample)
add_class i [] m = m
add_class i (s ∷ ss) m = (i, s ∷ ss) ∷ m

unfoldable pub table : (ℕ → List Sample) → ℕ → ℕ → List (ℕ × List Sample)
table f k zero = []
table f k (suc n) = add_class k (f k) (table f (suc k) n)

table_ext :
    (f g : ℕ → List Sample) (k n : ℕ)
    → ((j : ℕ) → k ≤ j → j < k + n → f j ≡ g j)
    → table f k n ≡ table g k n
unfolding table
table_ext f g k zero h = refl
table_ext f g k (suc n) h =
    rw
      (
        h k (omega arith) (omega arith),
        table_ext f g (suc k) n (λ j le lt. h j (omega arith) (omega arith)),
      )
      refl

-- A sample is pushed before the class `k`, onto it, or after it.
module _ (i k : ℕ) (s : Sample) (m : List (ℕ × List Sample)) where
  push_before :
      (l : List Sample)
      → i < k
      → push_in i s m ≡ (i, s ∷ []) ∷ m
      → push_in i s (add_class k l m) ≡ (i, s ∷ []) ∷ add_class k l m
  unfolding push_in
  push_before [] h e = e
  push_before (x ∷ xs) h e = ground arith

  push_onto :
      (l : List Sample)
      → (i == k) ≡ true
      → push_in i s m ≡ (i, s ∷ []) ∷ m
      → push_in i s (add_class k l m) ≡ add_class k (l ++ s ∷ []) m
  unfolding push_in
  push_onto [] h e = ground (arith, e)
  push_onto (x ∷ xs) h e = ground arith

  push_after :
      (l : List Sample) → k < i → push_in i s (add_class k l m) ≡ add_class k l (push_in i s m)
  unfolding push_in
  push_after [] h = refl
  push_after (x ∷ xs) h = ground arith

push_front :
    (f : ℕ → List Sample) (i k n : ℕ) (s : Sample)
    → i < k
    → push_in i s (table f k n) ≡ (i, s ∷ []) ∷ table f k n
unfolding table push_in
push_front f i k zero s h = refl
push_front f i k (suc n) s h =
    push_before i k s (table f (suc k) n) (f k) h (push_front f i (suc k) n s (omega arith))

-- One more sample in class `i`.
abbrev with_one : ℕ → Sample → (ℕ → List Sample) → ℕ → List Sample
with_one i s f j = if i == j then f j ++ s ∷ [] else f j

push_table :
    (f : ℕ → List Sample) (i k n : ℕ) (s : Sample)
    → k ≤ i
    → i < k + n
    → push_in i s (table f k n) ≡ table (with_one i s f) k n
unfolding table
push_table f i k zero s h g = absurd (omega arith)
push_table f i k (suc n) s h g = elim (Bool-cases (i == k)) [
  | inl e ↦
      let others : table (with_one i s f) (suc k) n ≡ table f (suc k) n =
        table_ext (with_one i s f) f (suc k) n (λ j le lt. ground arith) in
      rw (e, others)
        (push_onto i k s (table f (suc k) n) (f k) e (push_front f i (suc k) n s (ground arith)))
  | inr e ↦ rw e (
      push_after i k s (table f (suc k) n) (f k) (ground arith)
      ∙ ap (add_class k (f k)) (push_table f i (suc k) n s (ground arith) (omega arith)))
]

-- The samples of a class, behind those that it has.
abbrev after : (ℕ → List Sample) → List Sample → ℕ → List Sample
after f ss i = f i ++ keep (λ s. class_of s == i) ss

class_of-lt : (s : Sample) → class_of s < 7
unfolding class_in
class_of-lt s = ground arith

after_one :
    (f : ℕ → List Sample) (s : Sample) (ss : List Sample) (j : ℕ)
    → after (with_one (class_of s) s f) ss j ≡ after f (s ∷ ss) j
after_one f s ss j = elim (Bool-cases (class_of s == j)) [
  | inl e ↦ rw (e, append_assoc (f j) (s ∷ []) (keep (λ s. class_of s == j) ss)) refl
  | inr e ↦ rw e refl
]

group_table :
    (f : ℕ → List Sample) (ss : List Sample) → group_onto (table f 0 7) ss ≡ table (after f ss) 0 7
unfolding group_onto
group_table f [] = table_ext f (after f []) 0 7 (λ j le lt. sym (append-nil (f j)))
group_table f (s ∷ ss) =
    rw (push_table f (class_of s) 0 7 s (omega arith) (class_of-lt s)) (
      group_table (with_one (class_of s) s f) ss
      ∙ table_ext _ _ 0 7 (λ j le lt. after_one f s ss j))

-- The class that is looked up is the one whose bounds the size lies in.
class_of-in_class : (i : ℕ) (s : Sample) → i < 7 → (class_of s == i) ≡ in_class i s
unfolding class_in
class_of-in_class zero s h = ground arith
class_of-in_class (suc zero) s h = ground arith
class_of-in_class (suc (suc zero)) s h = ground arith
class_of-in_class (suc (suc (suc zero))) s h = ground arith
class_of-in_class (suc (suc (suc (suc zero)))) s h = ground arith
class_of-in_class (suc (suc (suc (suc (suc zero))))) s h = ground arith
class_of-in_class (suc (suc (suc (suc (suc (suc zero)))))) s h = ground arith
class_of-in_class (suc (suc (suc (suc (suc (suc (suc i))))))) s h = absurd (omega arith)

keep_ext :
    (p q : Sample → Bool) (ss : List Sample) → ((s : Sample) → p s ≡ q s) → keep p ss ≡ keep q ss
keep_ext p q [] h = refl
keep_ext p q (s ∷ ss) h = rw (h s, keep_ext p q ss h) refl

pub group_members : (samples : List Sample) → group_onto [] samples ≡ table (members samples) 0 7
unfolding table
group_members samples =
    group_table (λ i. []) samples
    ∙ table_ext _ _ 0 7 (λ j le lt. keep_ext _ _ samples (λ s. class_of-in_class j s (omega arith)))
