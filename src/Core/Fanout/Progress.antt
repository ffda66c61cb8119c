-- ===== src/Core/Fanout/Progress.antt =====
-- How far the files of a fan-out have come with the stashed chunk.
use Prim.Native.Nat.add
use adbrsync.Common.{ℕ, zero, suc, ◌+◌, ◌≤◌, ◌≡◌, refl, sym, ap, ◌∙◌, arith, append-nil}
use adbrsync.Common.{append_assoc, true, List, [], ◌∷◌, ◌++◌, Option, none, some}
use adbrsync.Common.{length, get_elem?, set, take, drop, if◌then◌else◌}
use adbrsync.Common.Text.{Text}
use mathlib.Core.Path.{subst}
use adbrsync.Core.Fanout.{is_open}

-- A file that held `x` is closed, or has taken `bytes`. A closed file stays closed.
abbrev pub Taken : Text → Option Text → Option Text → Type 0
Taken bytes x none = Unit
Taken bytes none (some d) = ⊥
Taken bytes (some c) (some d) = d ≡ c ++ bytes

-- Every file is closed or has taken all of `bytes`.
abbrev pub AllTaken : Text → List (Option Text) → List (Option Text) → Type 0
AllTaken bytes [] [] = Unit
AllTaken bytes (x ∷ xs) (y ∷ ys) = Taken bytes x y × AllTaken bytes xs ys
AllTaken bytes [] (y ∷ ys) = ⊥
AllTaken bytes (x ∷ xs) [] = ⊥

-- The files before `at` have taken all of `bytes`, that at `at` the first `off`, the rest nothing.
abbrev pub Progress : Text → ℕ → ℕ → List (Option Text) → List (Option Text) → Type 0
Progress bytes a off [] [] = Unit
Progress bytes zero off (x ∷ xs) (y ∷ ys) = Taken (take off bytes) x y × (ys ≡ xs)
Progress bytes (suc a) off (x ∷ xs) (y ∷ ys) = Taken bytes x y × Progress bytes a off xs ys
Progress bytes a off [] (y ∷ ys) = ⊥
Progress bytes a off (x ∷ xs) [] = ⊥

abbrev pub entry_at : List (Option Text) → ℕ → Option Text
entry_at xs i = elim (get_elem? xs i) [ none ↦ none | some x ↦ x ]

pub take_all : (n : ℕ) (bytes : Text) → length bytes ≤ n → take n bytes ≡ bytes
take_all zero [] h = refl
take_all zero (b ∷ bs) h = absurd (omega arith)
take_all (suc n) [] h = refl
take_all (suc n) (b ∷ bs) h = ap (λ t. b ∷ t) (take_all n bs (omega arith))

take-nil : (n : ℕ) → take {A = ℕ} n [] ≡ []
take-nil zero = refl
take-nil (suc n) = refl

pub take-add : (n m : ℕ) (bytes : Text) → take n bytes ++ take m (drop n bytes) ≡ take (n + m) bytes
take-add zero m bytes = ground arith
take-add (suc n) m [] = take-nil m ∙ sym (take-nil (suc n + m))
take-add (suc n) m (b ∷ bs) = rw add.suc (ap (λ t. b ∷ t) (take-add n m bs))

Taken-nothing : (x : Option Text) → Taken [] x x
Taken-nothing none = tt
Taken-nothing (some c) = sym (append-nil c)

pub Progress-start : (bytes : Text) (xs : List (Option Text)) → Progress bytes 0 0 xs xs
Progress-start bytes [] = tt
Progress-start bytes (x ∷ xs) = (Taken-nothing x, refl)

Taken-complete :
    (bytes : Text) (off : ℕ) (x y : Option Text)
    → (is_open y ≡ true → length bytes ≤ off)
    → Taken (take off bytes) x y
    → Taken bytes x y
Taken-complete bytes off x none full t = tt
Taken-complete bytes off none (some d) full t = t
Taken-complete bytes off (some c) (some d) full t = rw (take_all off bytes (full refl)) at t

-- The loop passes over a file that is closed or has taken all.
pub Progress-next :
    (bytes : Text) (a off : ℕ) (xs ys : List (Option Text))
    → (is_open (entry_at ys a) ≡ true → length bytes ≤ off)
    → Progress bytes a off xs ys
    → Progress bytes (suc a) 0 xs ys
Progress-next bytes a off [] [] full p = tt
Progress-next bytes zero off (x ∷ xs) (y ∷ ys) full p = (
  Taken-complete bytes off x y full p.0,
  subst (λ zs. Progress bytes 0 0 zs ys) p.1 (Progress-start bytes ys),
)
Progress-next bytes (suc a) off (x ∷ xs) (y ∷ ys) full p =
    (p.0, Progress-next bytes a off xs ys full p.1)
Progress-next bytes a off [] (y ∷ ys) full p = absurd p
Progress-next bytes a off (x ∷ xs) [] full p = absurd p

Taken-more :
    (bytes : Text) (off m : ℕ) (x : Option Text) (c : Text)
    → Taken (take off bytes) x (some c)
    → Taken (take (off + m) bytes) x (some (c ++ take m (drop off bytes)))
Taken-more bytes off m none c t = t
Taken-more bytes off m (some d) c t = rw (t, append_assoc) (ap (λ s. d ++ s) (take-add off m bytes))

-- The file at `a` takes `m` more bytes.
pub Progress-took :
    (bytes : Text) (a off m : ℕ) (c : Text) (xs ys : List (Option Text))
    → entry_at ys a ≡ some c
    → Progress bytes a off xs ys
    → Progress bytes a (off + m) xs (set ys a (some (c ++ take m (drop off bytes))))
Progress-took bytes a off m c [] [] h p = tt
Progress-took bytes zero off m c (x ∷ xs) (none ∷ ys) h p = cc
Progress-took bytes zero off m c (x ∷ xs) (some d ∷ ys) h p =
    let same : d ≡ c = ground arith in (Taken-more bytes off m x c (rw same at p.0), p.1)
Progress-took bytes (suc a) off m c (x ∷ xs) (y ∷ ys) h p =
    (p.0, Progress-took bytes a off m c xs ys h p.1)
Progress-took bytes a off m c [] (y ∷ ys) h p = absurd p
Progress-took bytes a off m c (x ∷ xs) [] h p = absurd p

-- The file at `a` is closed.
pub Progress-failed :
    (bytes : Text) (a off : ℕ) (xs ys : List (Option Text))
    → Progress bytes a off xs ys
    → Progress bytes a off xs (set ys a none)
Progress-failed bytes a off [] [] p = tt
Progress-failed bytes zero off (x ∷ xs) (y ∷ ys) p = (tt, p.1)
Progress-failed bytes (suc a) off (x ∷ xs) (y ∷ ys) p = (p.0, Progress-failed bytes a off xs ys p.1)
Progress-failed bytes a off [] (y ∷ ys) p = absurd p
Progress-failed bytes a off (x ∷ xs) [] p = absurd p

-- Once all files are passed, all have taken the chunk.
pub Progress-end :
    (bytes : Text) (a off : ℕ) (xs ys : List (Option Text))
    → length ys ≤ a
    → Progress bytes a off xs ys
    → AllTaken bytes xs ys
Progress-end bytes a off [] [] h p = tt
Progress-end bytes zero off (x ∷ xs) (y ∷ ys) h p = absurd (omega arith)
Progress-end bytes (suc a) off (x ∷ xs) (y ∷ ys) h p =
    (p.0, Progress-end bytes a off xs ys (omega arith) p.1)
Progress-end bytes a off [] (y ∷ ys) h p = absurd p
Progress-end bytes a off (x ∷ xs) [] h p = absurd p

-- The number of open files.
abbrev pub open_count : List (Option Text) → ℕ
open_count [] = 0
open_count (y ∷ ys) = (if is_open y then 1 else 0) + open_count ys

pub open_count-set-some :
    (ys : List (Option Text)) (a : ℕ) (c d : Text)
    → entry_at ys a ≡ some c
    → open_count (set ys a (some d)) ≡ open_count ys
open_count-set-some [] a c d h = refl
open_count-set-some (y ∷ ys) zero c d h = ground arith
open_count-set-some (y ∷ ys) (suc a) c d h = omega (arith, open_count-set-some ys a c d h)

pub open_count-set-none :
    (ys : List (Option Text)) (a : ℕ) (c : Text)
    → entry_at ys a ≡ some c
    → open_count (set ys a none) + 1 ≡ open_count ys
open_count-set-none [] a c h = cc
open_count-set-none (y ∷ ys) zero c h = ground arith
open_count-set-none (y ∷ ys) (suc a) c h = omega (arith, open_count-set-none ys a c h)
