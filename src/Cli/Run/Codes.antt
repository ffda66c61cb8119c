-- ===== src/Cli/Run/Codes.antt =====
-- What a run without `-r` deletes.
use mathlib.Core.List.{Mem}
use adbrsync.Common.{ℕ, ◌≡◌, refl, ap, arith, Bool, true, false, not}
use adbrsync.Common.{List, [], ◌∷◌, map, some, any, get_elem?, inl, inr, Bool-cases}
use adbrsync.Common.Text.{Text, contains, text_eq, text_eq_iff}
use adbrsync.Core.Entry.{RemoteEntry, LocalEntry, path_join}
use adbrsync.Core.Plan.{PlanOptions, DestState, DestPlan, build}
use adbrsync.Core.Plan.Spec.{names}
use adbrsync.Core.Plan.Deletions.{deletions_exact}
use adbrsync.Cli.Run.{considered}

-- Nothing that is considered without `-r` lies below the top level.
nested_ignored :
    (accepts : Text → Bool) (rel : Text) (es : List RemoteEntry)
    → contains rel b'/' ≡ true
    → any (names accepts rel) (considered false es) ≡ false
unfolding considered
nested_ignored accepts rel [] h = refl
nested_ignored accepts rel (e ∷ es) h = elim (Bool-cases (text_eq e.rel rel)) [
  | inl q ↦
      let below : contains e.rel b'/' ≡ true = rw ((text_eq_iff e.rel rel).0 q) h in
      ground (arith, nested_ignored accepts rel es h, below)
  | inr q ↦ ground (arith, nested_ignored accepts rel es h, q)
]

-- With --delete and without -r, every accepted local entry below the top level is marked for
-- deletion, whether or not the device has it.
pub unrecursive_deletes :
    (accepts : Text → Bool) (dests : List DestState) (opts : PlanOptions) (es : List RemoteEntry)
    (i : ℕ) (d : DestState) (l : LocalEntry)
    → opts.delete ≡ true
    → get_elem? dests i ≡ some d
    → Mem l d.local
    → accepts l.rel ≡ true
    → contains l.rel b'/' ≡ true
    → (p : DestPlan) × (xs : List LocalEntry) × (get_elem?
          (build accepts dests opts (considered false es)).dests
          i
        ≡ some p)
      × (p.deletions ≡ map (λ x. path_join d.root x.rel) xs)
      × Mem l xs
unrecursive_deletes accepts dests opts es i d l delete at there accepted nested =
    let (p, xs, at_i, deletions, exact, order) =
      deletions_exact accepts dests opts (considered false es) i d at in
    (
      p,
      xs,
      at_i,
      deletions,
      (exact l).1 (delete, there, ap not (nested_ignored accepts l.rel es nested), accepted),
    )
