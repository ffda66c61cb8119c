-- ===== src/Core/Fetch/Reports.antt =====
-- What `fetch_one` reports is kept to the end, and every position that the fan-out has closed is
-- reported under its destination.
use adbrsync.Common.{ℕ, ◌≡◌, arith, Bool, true, false, List, [], ◌∷◌, ◌++◌, inl, inr}
use adbrsync.Common.{some, get_elem?, any, ==_iff, any-append, ◌==◌, Option-cases, Bool-cases}
use adbrsync.Common.Text.{Text}
use adbrsync.Core.Entry.{FilePath}
use adbrsync.Core.Plan.{TransferItem}
use adbrsync.Core.Fetch.{Host, Target, Settled, settle_writes, settle_one, settle}

-- Some failure is reported of the destination `i`.
abbrev pub Reports : ℕ → List (ℕ × Text) → Type 0
Reports i failed = any (λ x. x.0 == i) failed ≡ true

pub Reports-first : (i : ℕ) (xs ys : List (ℕ × Text)) → Reports i xs → Reports i (xs ++ ys)
Reports-first i xs ys h = ground (arith, any-append (λ x. x.0 == i) xs ys)

pub Reports-last : (i : ℕ) (xs ys : List (ℕ × Text)) → Reports i ys → Reports i (xs ++ ys)
Reports-last i xs ys h = ground (arith, any-append (λ x. x.0 == i) xs ys)

pub Reports-self : (i : ℕ) (m : Text) → Reports i ((i, m) ∷ [])
Reports-self i m = ground arith

pub settle_writes-kept :
    (ts : List Target) (fs : List (ℕ × Text)) (st : Settled) (i : ℕ)
    → Reports i st.failed
    → Reports i (settle_writes ts fs st).failed
unfolding settle_writes
settle_writes-kept ts [] st i h = h
settle_writes-kept ts (f ∷ fs) st i h = elim (Option-cases (get_elem? ts f.0)) [
  | inl e ↦ rw (settle_writes, e) (settle_writes-kept ts fs st i h)
  | inr (t, e) ↦
      rw (settle_writes, e)
        (settle_writes-kept ts fs _ i (Reports-first i st.failed ((t.dest, f.1) ∷ []) h))
]

-- A failure of the file at `k` is reported of the destination of the target at `k`.
pub settle_writes-Reports :
    (ts : List Target) (fs : List (ℕ × Text)) (st : Settled) (k : ℕ) (t : Target)
    → get_elem? ts k ≡ some t
    → any (λ x. x.0 == k) fs ≡ true
    → Reports t.dest (settle_writes ts fs st).failed
unfolding settle_writes
settle_writes-Reports ts [] st k t e h = cc
settle_writes-Reports ts (f ∷ fs) st k t e h = elim (Bool-cases (f.0 == k)) [
  | inl q ↦
      let at_k : get_elem? ts f.0 ≡ some t = rw ((==_iff f.0 k).0 q) e in
      rw (settle_writes, at_k)
        (settle_writes-kept ts fs _ t.dest
          (Reports-last t.dest st.failed ((t.dest, f.1) ∷ []) (Reports-self t.dest f.1)))
  | inr q ↦
      let later : any (λ x. x.0 == k) fs ≡ true = ground arith in
      elim (Option-cases (get_elem? ts f.0)) [
        | inl n ↦ rw (settle_writes, n) (settle_writes-Reports ts fs st k t e later)
        | inr (u, n) ↦ rw (settle_writes, n) (settle_writes-Reports ts fs _ k t e later)
      ]
]

module _ (lossy : Text → Text) (host : Host) (dests : ℕ → FilePath) (item : TransferItem)
    (preserve_mtime : Bool) (bytes : ℕ) where
  settle_one-kept :
      (t : Target) (o : Bool) (st : Settled) (i : ℕ)
      → Reports i st.failed
      → Reports i (settle_one lossy host dests item preserve_mtime bytes t o st).1.failed
  unfolding settle_one
  settle_one-kept t false st i h = h
  settle_one-kept t true st i h = elim (Option-cases (host.rename t.temp_path t.final_path)) [
    | inl e ↦ rw (settle_one, e) (Reports-first i st.failed _ h)
    | inr (m, e) ↦ rw (settle_one, e) (Reports-first i st.failed ((t.dest, m) ∷ []) h)
  ]

  pub settle-kept :
      (ts : List Target) (os : List Bool) (st : Settled) (i : ℕ)
      → Reports i st.failed
      → Reports i (settle lossy host dests item preserve_mtime bytes ts os st).1.failed
  unfolding settle
  settle-kept [] os st i h = h
  settle-kept (t ∷ ts) [] st i h = h
  settle-kept (t ∷ ts) (o ∷ os) st i h =
      settle-kept ts os (settle_one lossy host dests item preserve_mtime bytes t o st).1 i
        (settle_one-kept t o st i h)
