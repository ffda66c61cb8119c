-- ===== src/Cli/Run/Cleaned.antt =====
-- What `run` does not leave behind, from the scans to the deletions.
use mathlib.Core.Path.{subst}
use mathlib.Core.List.{Mem, mem-cons_self, mem-cons_of_mem, mem-map_of_mem, not-mem-nil}
use adbrsync.Common.{ℕ, zero, suc, ◌≡◌, refl, ap, sym, arith, true, false, not, ◌||◌}
use adbrsync.Common.{List, [], ◌∷◌, map, some, any, all, get_elem?, length, is_nil}
use adbrsync.Common.{inl, inr, Bool-cases}
use adbrsync.Common.Text.{Text}
use adbrsync.Common.Result.{Result, ok, err, Result-cases}
use adbrsync.Core.Digests.{Digests}
use adbrsync.Core.Entry.{FilePath, RemoteEntry, LocalEntry, path_join}
use adbrsync.Core.Plan.{Plan, DestState, DestPlan, build, is_empty_plan, no_deletions}
use adbrsync.Core.Plan.Spec.{names}
use adbrsync.Core.Plan.Deletions.{deletions_exact}
use adbrsync.Core.Scan.{RemoteScan}
use adbrsync.Cli.Remote.{is_file_probe}
use adbrsync.Cli.Run.{RunArgs, World, Stop, Action, remove_all, Planned, states_of}
use adbrsync.Cli.Run.{plan_options, delete_all, act, run}
use adbrsync.Cli.Run.{look}
use adbrsync.Cli.Run.Looking.{entries_of, IsPlanned, look-IsPlanned}
use adbrsync.Common.Indexed.{all_elem, is_nil-mem}
use adbrsync.Cli.Run.States.{state_at, digests_of-length}
use adbrsync.Cli.Run.Removing.{on_plan, run_lem}

abbrev pub IsRemoved : List Action → FilePath → Type 0
IsRemoved actions path = (paths : List FilePath) × Mem (remove_all paths) actions × Mem path paths

no_deletions-mem : (d : DestPlan) (path : FilePath) → Mem path d.deletions → no_deletions d ≡ false
no_deletions-mem d path m =
    elim d.deletions as (λ xs. Mem path xs → (elim xs [ [] ↦ true | p ∷ ps ↦ false ]) ≡ false) [
      | [] ↦ λ n. absurd (not-mem-nil n)
      | p ∷ ps ↦ λ n. refl
    ]
      m

module _ (args : RunArgs) (world : World) where
  delete_all-IsRemoved :
      (ds : List DestPlan) (i : ℕ) (d : DestPlan) (path : FilePath)
      → get_elem? ds i ≡ some d
      → Mem path d.deletions
      → IsRemoved (delete_all args world ds).0 path
  unfolding delete_all
  delete_all-IsRemoved [] i d path e m = cc
  delete_all-IsRemoved (x ∷ xs) zero d path e m =
      let same : x ≡ d = cc in
      let here : Mem path x.deletions =
        subst (λ (y : DestPlan). Mem path y.deletions) (sym same) m in
      elim (Bool-cases (is_nil x.deletions)) [
        | inl n ↦ absurd (is_nil-mem x.deletions path n here)
        | inr n ↦ rw n (x.deletions, mem-cons_self, here)
      ]
  delete_all-IsRemoved (x ∷ xs) (suc i) d path e m =
      let (paths, there, of_paths) = delete_all-IsRemoved xs i d path e m in
      elim (Bool-cases (is_nil x.deletions)) [
        | inl n ↦ rw n (paths, there, of_paths)
        | inr n ↦ rw n (paths, mem-cons_of_mem _ there, of_paths)
      ]

  act-IsRemoved :
      (p : Planned) {c : ℕ}
      → (act args world p).result ≡ ok c
      → (path : FilePath) → IsRemoved (delete_all args world p.plan.dests).0 path
      → IsRemoved (act args world p).actions path
  unfolding act
  act-IsRemoved p h path (paths, there, m) =
      elim (Result-cases (world.create_dirs p.plan p.roots)) [
        | inr (e, f) ↦ let none_left = rw (act, f) at h in cc
        | inl (failed, f) ↦
            elim (Result-cases (world.transfer p.plan p.roots (map (λ f. f.0) failed))) [
              | inr (e, g) ↦ let none_left = rw (act, f, g) at h in cc
              | inl (report, g) ↦
                  rw (act, f, g) (paths, mem-cons_of_mem _ (mem-cons_of_mem _ there), m)
            ]
      ]

  -- One set of digests for each destination.
  abbrev pub OneEach : Type 0
  OneEach =
      (es : List RemoteEntry) (roots : List FilePath) (locals : List (List LocalEntry))
      (ds : List Digests)
      → world.compare_many es roots locals ≡ ok ds
      → length ds ≡ length roots

  module _ (one_each : OneEach) (remote : RemoteScan) (i : ℕ) (root : FilePath)
      (local : List LocalEntry) (entry : LocalEntry) (scanned : world.scan_remote ≡ ok remote)
      (walked : world.scan_local root ≡ ok local) (found : Mem entry local)
      (asked : args.delete ≡ true) (accepted : world.accepts entry.rel ≡ true)
      (unwanted : any (names world.accepts entry.rel) (entries_of args world remote) ≡ false) where
    abbrev path : FilePath
    path = path_join root entry.rel

    built_at :
        (states : List DestState) (d : DestState)
        → get_elem? states i ≡ some d
        → d.root ≡ root
        → world.scan_local root ≡ ok d.local
        → (p : DestPlan) × (get_elem?
              (build world.accepts states (plan_options args) (entries_of args world remote)).dests
              i
            ≡ some p)
          × Mem path p.deletions
    built_at states d at same walk =
        let (p, xs, at_p, deletions, exact, order) =
          deletions_exact world.accepts states (plan_options args) (entries_of args world remote) i
            d at in
        let same_local : local ≡ d.local = cc in
        let there : Mem entry d.local = rw (← same_local) found in
        let marked : Mem entry xs = (exact entry).1 (asked, there, ap not unwanted, accepted) in
        (
          p,
          at_p,
          rw (deletions, same) (mem-map_of_mem (λ (l : LocalEntry). path_join root l.rel) marked),
        )

    planned_at :
        (p : Planned)
        → IsPlanned args world p
        → get_elem? p.roots i ≡ some root
        → (d : DestPlan) × (get_elem? p.plan.dests i ≡ some d) × Mem path d.deletions
    planned_at p q at =
        let same : remote ≡ q.remote = cc in
        let (d, at_d, of_root, walk) =
          state_at args world p.roots q.locals q.digests i root at q.walked (
            digests_of-length args world (entries_of args world q.remote) p.roots q.locals q.digests
              (one_each (entries_of args world q.remote) p.roots q.locals) q.compared) in
        let (x, at_x, m) = built_at (states_of p.roots q.locals q.digests) d at_d of_root walk in
        let plan : p.plan
            ≡ build world.accepts (states_of p.roots q.locals q.digests) (plan_options args)
                (entries_of args world remote) =
          rw same q.planned in
        (x, subst (λ (y : Plan). get_elem? y.dests i ≡ some x) (sym plan) at_x, m)

    not_empty :
        (plan : Plan) (d : DestPlan)
        → get_elem? plan.dests i ≡ some d
        → Mem path d.deletions
        → is_empty_plan plan ≡ false
    unfolding is_empty_plan
    not_empty plan d at m = elim (Bool-cases (all no_deletions plan.dests)) [
      | inl e ↦ ground (arith, all_elem no_deletions plan.dests i e at, no_deletions-mem d path m)
      | inr e ↦ ground (arith, e)
    ]

    on_plan-IsRemoved :
        (roots : List FilePath) (absent : List Text) (c : ℕ)
        → world.destinations (is_file_probe world.probe) ≡ ok (roots, absent)
        → get_elem? roots i ≡ some root
        → args.dry_run ≡ false
        → (answer : Result Stop Planned) → look args world ≡ answer
        → (on_plan args world answer).result ≡ ok c
        → IsRemoved (on_plan args world answer).actions path
    on_plan-IsRemoved roots absent c placed at dry (err e) h result = cc
    on_plan-IsRemoved roots absent c placed at dry (ok p) h result =
        let q = look-IsPlanned args world p h in
        let same : roots ≡ p.roots = cc in
        let (d, at_d, m) = planned_at p q (rw (← same) at) in
        let acts : (args.dry_run || is_empty_plan p.plan) ≡ false =
          ground (arith, dry, not_empty p.plan d at_d m) in
        let done : (act args world p).result ≡ ok c = rw acts at result in
        rw acts (act-IsRemoved p done path (delete_all-IsRemoved p.plan.dests i d path at_d m))

    -- With --delete and outside a dry run, a run that ends with an exit code has asked for the removal
    -- of the destination joined with the relative path of every entry of its scan that the filter
    -- accepts and whose relative path is that of no considered device entry which the filter accepts.
    pub run-cleans :
        (roots : List FilePath) (absent : List Text) (c : ℕ)
        → world.destinations (is_file_probe world.probe) ≡ ok (roots, absent)
        → get_elem? roots i ≡ some root
        → args.dry_run ≡ false
        → (run args world).result ≡ ok c
        → IsRemoved (run args world).actions (path_join root entry.rel)
    run-cleans roots absent c placed at dry result = rw (run_lem args world) (
        on_plan-IsRemoved roots absent c placed at dry (look args world) refl
          (rw (run_lem args world) at result))
