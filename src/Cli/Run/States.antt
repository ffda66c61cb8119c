-- ===== src/Cli/Run/States.antt =====
-- What `build` is given in `run`: the destinations' states, as they were scanned.
use mathlib.Core.List.{Mem, mem-cons_self, mem-cons_of_mem}
use adbrsync.Common.{ℕ, zero, suc, ◌≡◌, refl, arith, false}
use adbrsync.Common.{List, [], ◌∷◌, some, get_elem?, length, length-map}
use adbrsync.Common.{inl, inr, Bool-cases, All}
use adbrsync.Common.Result.{Result, ok, err, ◌>>=◌}
use adbrsync.Core.Digests.{Digests}
use adbrsync.Core.Entry.{FilePath, RemoteEntry, LocalEntry}
use adbrsync.Core.Error.{CoreError}
use adbrsync.Core.Plan.{DestState}
use adbrsync.Cli.Run.{RunArgs, World, Stop, states_of}
use adbrsync.Cli.Run.{comparison, local_scan, lift, scan_locals, digests_of}

lift-ok {ℓ} :
    {A : Type ℓ} (f : CoreError → Stop) (r : Result CoreError A) {a : A}
    → lift f r ≡ ok a
    → r ≡ ok a
lift-ok f (ok a) h = cc
lift-ok f (err e) h = cc

abbrev unmatched : Digests
unmatched = record { matched = λ rel. false }

module _ (args : RunArgs) (world : World) where
  pub scan_locals-cons :
      (r : FilePath) (a : Result CoreError (List LocalEntry))
      (b : Result Stop (List (List LocalEntry))) {l : List LocalEntry} {ls : List (List LocalEntry)}
      → (lift (local_scan r) a >>= λ entries. b >>= λ more. ok (entries ∷ more)) ≡ ok (l ∷ ls)
      → (a ≡ ok l) × (b ≡ ok ls)
  scan_locals-cons r (err e) b h = cc
  scan_locals-cons r (ok a) (err e) h = cc
  scan_locals-cons r (ok a) (ok b) h = (cc, cc)

  scan_locals-nil :
      (r : FilePath) (a : Result CoreError (List LocalEntry))
      (b : Result Stop (List (List LocalEntry)))
      → (lift (local_scan r) a >>= λ entries. b >>= λ more. ok (entries ∷ more)) ≡ ok []
      → ⊥
  scan_locals-nil r (err e) b h = cc
  scan_locals-nil r (ok a) (err e) h = cc
  scan_locals-nil r (ok a) (ok b) h = cc

  pub state_at :
      (roots : List FilePath) (locals : List (List LocalEntry)) (digests : List Digests) (i : ℕ)
      (root : FilePath)
      → get_elem? roots i ≡ some root
      → scan_locals args world roots ≡ ok locals
      → length digests ≡ length roots
      → (d : DestState) × (get_elem? (states_of roots locals digests) i ≡ some d)
        × (d.root ≡ root)
        × (world.scan_local root ≡ ok d.local)
  unfolding states_of scan_locals
  state_at [] locals digests i root e h n = cc
  state_at (r ∷ rs) locals [] i root e h n = absurd (omega (arith, n))
  state_at (r ∷ rs) [] (x ∷ xs) i root e h n =
      absurd (scan_locals-nil r (world.scan_local r) (scan_locals args world rs) h)
  state_at (r ∷ rs) (l ∷ ls) (x ∷ xs) zero root e h n =
      let (first, rest) = scan_locals-cons r (world.scan_local r) (scan_locals args world rs) h in
      let same : r ≡ root = cc in
      (record { root = r; local = l; digests = x }, refl, same, rw (← same) first)
  state_at (r ∷ rs) (l ∷ ls) (x ∷ xs) (suc i) root e h n =
      let (first, rest) = scan_locals-cons r (world.scan_local r) (scan_locals args world rs) h in
      state_at rs ls xs i root e rest (omega (arith, n))

  pub digests_of-length :
      (es : List RemoteEntry) (roots : List FilePath) (locals : List (List LocalEntry))
      (ds : List Digests)
      → ((ds : List Digests)
          → world.compare_many es roots locals ≡ ok ds
          → length ds ≡ length roots)
      → digests_of args world es roots locals ≡ ok ds
      → length ds ≡ length roots
  unfolding digests_of
  digests_of-length es roots locals ds one_each h = elim (Bool-cases args.checksum) [
    | inl c ↦
        one_each ds (lift-ok comparison (world.compare_many es roots locals) (ground (arith, h, c)))
    | inr c ↦ ground (arith, h, c, length-map (λ (root : FilePath). unmatched) roots)
  ]

  -- The states that `build` is given are those of the roots that were scanned.
  module _ (whole : List FilePath) where
    abbrev pub IsWalked : DestState → Type 0
    IsWalked d = Mem d.root whole × (world.scan_local d.root ≡ ok d.local)

    pub states_of-IsWalked :
        (roots : List FilePath) (locals : List (List LocalEntry)) (digests : List Digests)
        → ((r : FilePath) → Mem r roots → Mem r whole)
        → scan_locals args world roots ≡ ok locals
        → All IsWalked (states_of roots locals digests)
    unfolding states_of scan_locals
    states_of-IsWalked [] locals digests inside h = ground arith
    states_of-IsWalked (r ∷ rs) [] digests inside h = tt
    states_of-IsWalked (r ∷ rs) (l ∷ ls) [] inside h = tt
    states_of-IsWalked (r ∷ rs) (l ∷ ls) (d ∷ ds) inside h =
        let (first, rest) = scan_locals-cons r (world.scan_local r) (scan_locals args world rs) h in
        (
          (inside r mem-cons_self, first),
          states_of-IsWalked rs ls ds (λ x m. inside x (mem-cons_of_mem r m)) rest,
        )
