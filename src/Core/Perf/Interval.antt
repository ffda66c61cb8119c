-- ===== src/Core/Perf/Interval.antt =====
-- `timeline`: the interval that it reports of ascending times.
use adbrsync.Common.{ℕ, zero, suc, ◌+◌, ◌-◌, ◌^◌, ◌≤◌, ◌<◌, min, ◌≡◌, refl, ap, arith}
use adbrsync.Common.{leb, Bool-cases, inl, inr}
use adbrsync.Common.{List, [], ◌∷◌, Option, none, some, get_elem?}
use adbrsync.Core.Perf.{sub64, steps, least_of, interval_of}

-- The differences of neighbours, where the list ascends and holds `u64`s.
abbrev pub Ascends : ℕ → List ℕ → Type 0
Ascends a [] = Unit {0}
Ascends a (b ∷ ns) = (a ≤ b) × (b < 2 ^ 64) × Ascends b ns

-- An element and the one behind it, and the difference that `steps` has of them.
steps_lem :
    (i a : ℕ) (ns : List ℕ) (x y : ℕ)
    → a < 2 ^ 64
    → Ascends a ns
    → get_elem? (a ∷ ns) i ≡ some x
    → get_elem? ns i ≡ some y
    → (get_elem? (steps (a ∷ ns)) i ≡ some (y - x)) × (x ≤ y)
unfolding steps
steps_lem i a [] x y small h ex ey = cc
steps_lem zero a (b ∷ ns) x y small h ex ey =
    let first : a ≡ x = cc in let second : b ≡ y = cc in (ap some (omega arith), omega arith)
steps_lem (suc i) a (b ∷ ns) x y small h ex ey = steps_lem i b ns x y h.1 h.2 ex ey

abbrev least : ℕ → List ℕ → ℕ
least k [] = k
least k (n ∷ ns) = min k (least n ns)

add_one : (i : ℕ) → i + 1 ≡ suc i
add_one i = omega arith

least_of-cons : (k : ℕ) (ns : List ℕ) → least_of (k ∷ ns) ≡ some (least k ns)
unfolding least_of
least_of-cons k [] = refl
least_of-cons k (n ∷ ns) = rw (least_of-cons n ns, least_of) refl

least-le : (k : ℕ) (ns : List ℕ) (i n : ℕ) → get_elem? (k ∷ ns) i ≡ some n → least k ns ≤ n
least-le k [] zero n e = ground arith
least-le k [] (suc i) n e = cc
least-le k (m ∷ ns) zero n e = let same : k ≡ n = cc in omega arith
least-le k (m ∷ ns) (suc i) n e = omega (arith, least-le m ns i n e)

least_found : (k : ℕ) (ns : List ℕ) → (i : ℕ) × (get_elem? (k ∷ ns) i ≡ some (least k ns))
least_found k [] = (0, refl)
least_found k (m ∷ ns) = elim (Bool-cases (leb k (least m ns))) [
  | inl e ↦ (0, ap some (ground arith))
  | inr e ↦
      let (i, at) = least_found m ns in
      let same : min k (least m ns) ≡ least m ns = ground arith in (suc i, rw same at)
]

-- Two readings next to each other in the list.
abbrev pub Adjacent : List ℕ → ℕ → ℕ → ℕ → Type 0
Adjacent ns i x y = (get_elem? ns i ≡ some x) × (get_elem? ns (i + 1) ≡ some y)

-- The shortest distance of neighbours.
pub record IsInterval (ns : List ℕ) (d : ℕ) : Type 0 where
  pub least : (i x y : ℕ) → Adjacent ns i x y → x + d ≤ y
  pub found :
      (i x y : ℕ)
      → Adjacent ns i x y
      → (j : ℕ) × (u : ℕ) × (v : ℕ) × Adjacent ns j u v × (u + d ≡ v)

abbrev interval_from : List ℕ → Option ℕ → ℕ
interval_from ats (some m) = m
interval_from ats none = elim (get_elem? ats 0) [ none ↦ 0 | some a ↦ a ]

interval_of_lem : (ats : List ℕ) → interval_of ats ≡ interval_from ats (least_of (steps ats))
unfolding interval_of
interval_of_lem ats = ground arith

steps-cons : (a b : ℕ) (ns : List ℕ) → steps (a ∷ b ∷ ns) ≡ sub64 b a ∷ steps (b ∷ ns)
unfolding steps
steps-cons a b ns = refl

interval_of-steps :
    (a b : ℕ) (ns : List ℕ) → interval_of (a ∷ b ∷ ns) ≡ least (sub64 b a) (steps (b ∷ ns))
interval_of-steps a b ns =
    rw (interval_of_lem (a ∷ b ∷ ns), steps-cons a b ns, least_of-cons (sub64 b a) (steps (b ∷ ns)))
      refl

-- Where `steps` has an element, the list has two neighbours with that difference.
steps_found :
    (a : ℕ) (ns : List ℕ) (i d : ℕ)
    → a < 2 ^ 64
    → Ascends a ns
    → get_elem? (steps (a ∷ ns)) i ≡ some d
    → (u : ℕ) × (v : ℕ) × (get_elem? (a ∷ ns) i ≡ some u) × (get_elem? ns i ≡ some v) × (u + d ≡ v)
unfolding steps
steps_found a [] i d small h e = cc
steps_found a (b ∷ ns) zero d small h e =
    let same : sub64 b a ≡ d = cc in (a, b, refl, refl, omega (arith, same))
steps_found a (b ∷ ns) (suc i) d small h e = steps_found b ns i d h.1 h.2 e

Ascends-IsInterval :
    (a : ℕ) (ns : List ℕ) → a < 2 ^ 64 → Ascends a ns → IsInterval (a ∷ ns) (interval_of (a ∷ ns))
Ascends-IsInterval a [] small h = record {
  least = λ i x y (ex, ey). cc (rw (add_one i) at ey);
  found = λ i x y (ex, ey). cc (rw (add_one i) at ey);
}
Ascends-IsInterval a (b ∷ ns) small h = rw (interval_of-steps a b ns) (record {
  least = λ i x y (ex, ey).
      let (at, le) = steps_lem i a (b ∷ ns) x y small h ex (rw (add_one i) at ey) in
      let le' = least-le (sub64 b a) (steps (b ∷ ns)) i (y - x) (rw (← steps-cons a b ns) at) in
      omega (arith, le');
  found = λ i x y e.
      let (j, at) = least_found (sub64 b a) (steps (b ∷ ns)) in
      let (u, v, eu, ev, d) = steps_found a (b ∷ ns) j _ small h (rw (steps-cons a b ns) at) in
      (j, u, v, (eu, rw (add_one j) ev), d);
})

pub Ascends-all : (a : ℕ) (ns : List ℕ) → Ascends a ns → IsInterval ns (interval_of ns)
Ascends-all a [] h = record { least = λ i x y (ex, ey). cc; found = λ i x y (ex, ey). cc }
Ascends-all a (b ∷ ns) h = Ascends-IsInterval b ns h.1 h.2
