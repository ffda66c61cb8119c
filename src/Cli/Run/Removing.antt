-- ===== src/Cli/Run/Removing.antt =====
-- What `run` removes, from the scans to the deletions.
use mathlib.Core.Path.{subst}
use mathlib.Core.List.{Mem}
use adbrsync.Common.{◌↔◌, ◌≡◌, refl, sym, arith, true, false, not, ◌||◌, is_nil, if◌then◌else◌}
use adbrsync.Common.{List, [], ◌∷◌, map, any, inl, inr, Bool-cases, All}
use adbrsync.Common.Counting.{get_elem?-All}
use adbrsync.Common.Text.{Text}
use adbrsync.Common.Result.{Result, ok, err, Result-cases}
use adbrsync.Core.Entry.{FilePath, LocalEntry, path_join}
use adbrsync.Core.Plan.{Plan, DestState, DestPlan, build, is_empty_plan}
use adbrsync.Core.Plan.Spec.{names, final_dest}
use adbrsync.Core.Plan.Loop.{build-dests}
use adbrsync.Core.Plan.Deletions.{deletions_exact}
use adbrsync.Core.Scan.{RemoteScan}
use adbrsync.Cli.Remote.{is_file_probe}
use adbrsync.Cli.Run.{RunArgs, World, Stop, Action, prepare, copy, remove_all, Planned}
use adbrsync.Cli.Run.{states_of, plan_options}
use adbrsync.Cli.Run.{look, delete_all, act, run, Outcome, reported}
use adbrsync.Core.Pool.Gathering.{empty_report}
use adbrsync.Common.Indexed.{All-by_index, All-by_mem, All-map_of, get_elem?-map_inv}
use adbrsync.Cli.Run.States.{IsWalked, states_of-IsWalked}
use adbrsync.Cli.Run.Looking.{entries_of, IsPlanned, look-IsPlanned}

module _ (args : RunArgs) (world : World) where
  -- A path that may be removed.
  pub record IsSurplus (path : FilePath) : Type 0 where
    pub roots : List FilePath
    pub absent : List Text
    pub remote : RemoteScan
    pub root : FilePath
    pub local : List LocalEntry
    pub entry : LocalEntry
    pub placed : world.destinations (is_file_probe world.probe) ≡ ok (roots, absent)
    pub scanned : world.scan_remote ≡ ok remote
    pub of_root : Mem root roots
    pub walked : world.scan_local root ≡ ok local
    pub found : Mem entry local
    pub named : path ≡ path_join root entry.rel
    pub accepted : world.accepts entry.rel ≡ true
    pub unwanted : any (names world.accepts entry.rel) (entries_of args world remote) ≡ false
    pub asked : args.delete ≡ true

  abbrev pub Removes : Action → Type 0
  Removes (prepare p) = Unit {0}
  Removes (copy p) = Unit {0}
  Removes (remove_all paths) = (args.dry_run ≡ false) × All IsSurplus paths

  delete_all-Removes :
      (ds : List DestPlan)
      → args.dry_run ≡ false
      → All (λ d. All IsSurplus d.deletions) ds
      → All Removes (delete_all args world ds).0
  unfolding delete_all
  delete_all-Removes [] dry h = tt
  delete_all-Removes (d ∷ ds) dry h = elim (Bool-cases (is_nil d.deletions)) [
    | inl e ↦ rw e (delete_all-Removes ds dry h.1)
    | inr e ↦ rw e ((dry, h.0), delete_all-Removes ds dry h.1)
  ]

  act-Removes :
      (p : Planned)
      → args.dry_run ≡ false
      → All (λ d. All IsSurplus d.deletions) p.plan.dests
      → All Removes (act args world p).actions
  unfolding act
  act-Removes p dry h = elim (Result-cases (world.create_dirs p.plan p.roots)) [
    | inr (e, f) ↦ rw (act, f) (tt, tt)
    | inl (failed, f) ↦
        elim (Result-cases (world.transfer p.plan p.roots (map (λ f. f.0) failed))) [
          | inr (e, g) ↦ rw (act, f, g) (tt, (tt, tt))
          | inl (report, g) ↦ rw (act, f, g) (tt, (tt, delete_all-Removes p.plan.dests dry h))
        ]
  ]

  module _ (roots : List FilePath) (absent : List Text) (remote : RemoteScan)
      (placed : world.destinations (is_file_probe world.probe) ≡ ok (roots, absent))
      (scanned : world.scan_remote ≡ ok remote) (states : List DestState)
      (walked : All (IsWalked args world roots) states) where
    -- What `build` marks in these states.
    abbrev built : Plan
    built = build world.accepts states (plan_options args) (entries_of args world remote)

    marked-IsSurplus :
        (d : DestState) (xs : List LocalEntry)
        → IsWalked args world roots d
        → ((l : LocalEntry)
            → Mem l xs ↔ (
                (args.delete ≡ true)
                × Mem l d.local
                × (not (any (names world.accepts l.rel) (entries_of args world remote)) ≡ true)
                × (world.accepts l.rel ≡ true)))
        → All IsSurplus (map (λ l. path_join d.root l.rel) xs)
    marked-IsSurplus d xs (of_root, walk) exact =
        All-map_of IsSurplus (λ l. path_join d.root l.rel) xs
          (All-by_mem _ xs (λ l m.
            let (asked, there, unwanted, accepted) = (exact l).0 m in
            record {
              roots = roots;
              absent = absent;
              remote = remote;
              root = d.root;
              local = d.local;
              entry = l;
              placed = placed;
              scanned = scanned;
              of_root = of_root;
              walked = walk;
              found = there;
              named = refl;
              accepted = accepted;
              unwanted = ground (arith, unwanted);
              asked = asked;
            }))

    built-IsSurplus : All (λ (d : DestPlan). All IsSurplus d.deletions) built.dests
    built-IsSurplus = All-by_index _ built.dests (λ i p at.
        let (d, at_i, same) =
          get_elem?-map_inv
            (final_dest world.accepts states (plan_options args) (entries_of args world remote))
            states i (rw (build-dests) at at) in
        let (q, xs, at_q, deletions, exact, order) =
          deletions_exact world.accepts states (plan_options args) (entries_of args world remote) i
            d at_i in
        let agree : q ≡ p = cc in
        rw (← agree, deletions)
          (marked-IsSurplus d xs (get_elem?-All (IsWalked args world roots) states i d walked at_i)
            exact))

  plan_of-IsSurplus :
      (p : Planned)
      → IsPlanned args world p
      → All (λ (d : DestPlan). All IsSurplus d.deletions) p.plan.dests
  plan_of-IsSurplus p q =
      subst (λ (plan : Plan). All (λ (d : DestPlan). All IsSurplus d.deletions) plan.dests)
        (sym q.planned)
        (built-IsSurplus p.roots p.missing q.remote q.placed q.scanned
          (states_of p.roots q.locals q.digests)
          (states_of-IsWalked args world p.roots p.roots q.locals q.digests (λ r m. m) q.walked))

  abbrev pub on_plan : Result Stop Planned → Outcome
  on_plan (err e) = record { result = err e; actions = [] }
  on_plan (ok p) =
      if args.dry_run || is_empty_plan p.plan
      then record {
        result = reported (world.write_report p.plan empty_report []) p.missing;
        actions = [];
      }
      else act args world p

  pub run_lem : run args world ≡ on_plan (look args world)
  unfolding run
  run_lem = ground arith

  on_plan-Removes :
      (answer : Result Stop Planned)
      → look args world ≡ answer
      → All Removes (on_plan answer).actions
  on_plan-Removes (err e) h = tt
  on_plan-Removes (ok p) h = elim (Bool-cases (args.dry_run || is_empty_plan p.plan)) [
    | inl e ↦ rw e tt
    | inr e ↦
        let dry : args.dry_run ≡ false = ground (arith, e) in
        rw e (act-Removes p dry (plan_of-IsSurplus p (look-IsPlanned args world p h)))
  ]

  -- A run removes nothing in a dry run or without --delete. Whatever it removes is a destination joined
  -- with the relative path of an entry that its scan found, that the filter accepts, and whose
  -- relative path is that of no considered device entry which the filter accepts.
  pub run-Removes : All Removes (run args world).actions
  run-Removes = rw run_lem (on_plan-Removes (look args world) refl)
