-- ===== src/Core/Fetch/Placed.antt =====
-- A file that `fetch_one` has read whole is in its place at every destination, or a failure is
-- reported of the destination.
use adbrsync.Common.{ℕ, zero, suc, ◌≡◌, sym, ap, ◌∙◌, Bool, true, false}
use adbrsync.Common.{List, [], ◌∷◌, none, some, inl, inr, ◌⊎◌, All, All-map}
use adbrsync.Common.{Option-cases, get_elem?}
use adbrsync.Common.Text.{Text}
use adbrsync.Core.Entry.{FilePath}
use adbrsync.Core.Plan.{TransferItem}
use adbrsync.Core.Fetch.{Host, Target, Settled, settle, settle_one}
use adbrsync.Core.Fetch.Store.{Fs, run, run-append, run-spared, put_file-same, put_file}
use adbrsync.Core.Fetch.Moves.{AllApart, Apart, Ready, settle-Spares, settle_one-Ready, Ready-rest}
use adbrsync.Core.Fetch.Reports.{Reports, Reports-last, Reports-self, settle-kept}

module _ (lossy : Text → Text) (host : Host) (dests : ℕ → FilePath) (item : TransferItem)
    (preserve_mtime : Bool) (bytes : ℕ) (t : Text) where
  -- The target `x` has failed, or its file is complete.
  abbrev pub Placed : Target → List Target → List Bool → Settled → Fs → Type 0
  Placed x ts os st g =
      Reports x.dest (settle lossy host dests item preserve_mtime bytes ts os st).1.failed
      ⊎ (run (settle lossy host dests item preserve_mtime bytes ts os st).0 g x.final_path ≡ some t)

  first-Placed :
      (x : Target) (ts : List Target) (os : List Bool) (st : Settled) (g : Fs)
      → All (Apart x) ts
      → g x.temp_path ≡ some t
      → Placed x (x ∷ ts) (true ∷ os) st g
  unfolding settle settle_one run
  first-Placed x ts os st g a r = elim (Option-cases (host.rename x.temp_path x.final_path)) [
    | inl e ↦ inr (
        rw (settle, settle_one, e)
          (run-spared x.final_path _ _ (
              settle-Spares lossy host dests item preserve_mtime bytes x.final_path ts os _
                (All-map _ _ ts (λ b (k, l, m). (λ q. l (sym q), λ q. m (sym q))) a))
            ∙ put_file-same x.final_path (g x.temp_path) (put_file x.temp_path none g)
            ∙ r))
    | inr (m, e) ↦ inl (
        rw (settle, settle_one, e)
          (settle-kept lossy host dests item preserve_mtime bytes ts os _ x.dest
            (Reports-last x.dest st.failed ((x.dest, m) ∷ []) (Reports-self x.dest m))))
  ]

  pub settle-Placed :
      (ts : List Target) (os : List Bool) (st : Settled) (g : Fs) (k : ℕ) (x : Target)
      → get_elem? ts k ≡ some x
      → get_elem? os k ≡ some true
      → AllApart ts
      → Ready t ts os g
      → Placed x ts os st g
  unfolding settle
  settle-Placed [] os st g k x e o a r = cc
  settle-Placed (y ∷ ys) [] st g k x e o a r = cc
  settle-Placed (y ∷ ys) (false ∷ os) st g zero x e o a r = cc
  settle-Placed (y ∷ ys) (true ∷ os) st g zero x e o a r =
      let same : y ≡ x = cc in rw (sym same) (first-Placed y ys os st g a.0 r.0)
  settle-Placed (y ∷ ys) (b ∷ os) st g (suc k) x e o a r =
      let one = settle_one lossy host dests item preserve_mtime bytes y b st in
      elim (settle-Placed ys os one.1 (run one.0 g) k x e o a.1 (
        settle_one-Ready lossy host dests item preserve_mtime bytes t y ys b os st g a.0
          (Ready-rest t y ys b os g r))) [
            | inl h ↦ inl h
            | inr h ↦ inr (ap (λ f. f x.final_path) (run-append one.0 _ g) ∙ h)
          ]
