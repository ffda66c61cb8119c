-- ===== src/Cli/Run/Looking.antt =====
-- The phases of `run` that only look, and what a plan says of their answers.
use mathlib.Core.Path.{subst}
use adbrsync.Common.{◌≡◌, refl, ap, sym, ◌∙◌, arith, true, false, ◌||◌}
use adbrsync.Common.{List}
use adbrsync.Common.Text.{Text}
use adbrsync.Common.Result.{Result, ok, err, ◌>>=◌}
use adbrsync.Core.Digests.{Digests}
use adbrsync.Core.Entry.{FilePath, RemoteEntry, LocalEntry}
use adbrsync.Core.Error.{CoreError}
use adbrsync.Core.Plan.{Plan, build}
use adbrsync.Core.Scan.{RemoteScan}
use adbrsync.Cli.Remote.{SourceProbe, missing, file, other, is_file_probe}
use adbrsync.Cli.Destinations.{DestError}
use adbrsync.Cli.Run.{RunArgs, World, Stop, Planned, considered}
use adbrsync.Cli.Run.{source_missing, lift, lift_dest, device_scan, states_of, plan_options}
use adbrsync.Cli.Run.{scan_locals, digests_of, look}

module _ (args : RunArgs) (world : World) where
  abbrev pub entries_of : RemoteScan → List RemoteEntry
  entries_of remote = considered (args.recursive || args.archive) remote.entries

  -- What is known of the plan that the phases that look arrive at.
  pub record IsPlanned (p : Planned) : Type 0 where
    pub remote : RemoteScan
    pub locals : List (List LocalEntry)
    pub digests : List Digests
    pub placed : world.destinations (is_file_probe world.probe) ≡ ok (p.roots, p.missing)
    pub scanned : world.scan_remote ≡ ok remote
    pub walked : scan_locals args world p.roots ≡ ok locals
    pub compared : digests_of args world (entries_of remote) p.roots locals ≡ ok digests
    pub planned :
        p.plan
        ≡ build world.accepts
            (states_of p.roots locals digests)
            (plan_options args)
            (entries_of remote)

  abbrev pub plan_of : List FilePath → RemoteScan → List (List LocalEntry) → List Digests → Plan
  plan_of roots remote locals digests =
      build world.accepts (states_of roots locals digests) (plan_options args) (entries_of remote)

  -- The steps of `look`, each from the answer to the question before it.
  abbrev on_digests :
      List FilePath
      → List Text
      → RemoteScan
      → List (List LocalEntry)
      → Result Stop (List Digests)
      → Result Stop Planned
  on_digests roots absent remote locals answer = answer >>= λ digests.
      ok (record { roots = roots; missing = absent; plan = plan_of roots remote locals digests })

  abbrev on_locals :
      List FilePath
      → List Text
      → RemoteScan
      → Result Stop (List (List LocalEntry))
      → Result Stop Planned
  on_locals roots absent remote answer = answer >>= λ locals.
      on_digests roots absent remote locals (digests_of args world (entries_of remote) roots locals)

  abbrev on_remote : List FilePath → List Text → Result CoreError RemoteScan → Result Stop Planned
  on_remote roots absent answer = lift device_scan answer >>= λ remote.
      on_locals roots absent remote (scan_locals args world roots)

  abbrev on_roots : Result DestError (List FilePath × List Text) → Result Stop Planned
  on_roots answer = lift_dest answer >>= λ (roots, absent). on_remote roots absent world.scan_remote

  abbrev on_probe : SourceProbe → Result Stop Planned
  on_probe missing = err source_missing
  on_probe file = on_roots (world.destinations true)
  on_probe other = on_roots (world.destinations false)

  look_lem : look args world ≡ on_probe world.probe
  unfolding look
  look_lem = ground arith

  module _ (p : Planned) where
    on_digests-IsPlanned :
        (roots : List FilePath) (absent : List Text) (remote : RemoteScan)
        (locals : List (List LocalEntry)) (answer : Result Stop (List Digests))
        → world.destinations (is_file_probe world.probe) ≡ ok (roots, absent)
        → world.scan_remote ≡ ok remote
        → scan_locals args world roots ≡ ok locals
        → digests_of args world (entries_of remote) roots locals ≡ answer
        → on_digests roots absent remote locals answer ≡ ok p
        → IsPlanned p
    on_digests-IsPlanned roots absent remote locals (err e) placed scanned walked compared h = cc
    on_digests-IsPlanned roots absent remote locals (ok digests) placed scanned walked compared h =
        let found : Planned = record {
          roots = roots;
          missing = absent;
          plan = plan_of roots remote locals digests;
        } in
        let same : found ≡ p = cc in
        subst IsPlanned same (record {
          remote = remote;
          locals = locals;
          digests = digests;
          placed = placed;
          scanned = scanned;
          walked = walked;
          compared = compared;
          planned = refl;
        })

    on_locals-IsPlanned :
        (roots : List FilePath) (absent : List Text) (remote : RemoteScan)
        (answer : Result Stop (List (List LocalEntry)))
        → world.destinations (is_file_probe world.probe) ≡ ok (roots, absent)
        → world.scan_remote ≡ ok remote
        → scan_locals args world roots ≡ answer
        → on_locals roots absent remote answer ≡ ok p
        → IsPlanned p
    on_locals-IsPlanned roots absent remote (err e) placed scanned walked h = cc
    on_locals-IsPlanned roots absent remote (ok locals) placed scanned walked h =
        on_digests-IsPlanned roots absent remote locals
          (digests_of args world (entries_of remote) roots locals) placed scanned walked refl h

    on_remote-IsPlanned :
        (roots : List FilePath) (absent : List Text) (answer : Result CoreError RemoteScan)
        → world.destinations (is_file_probe world.probe) ≡ ok (roots, absent)
        → world.scan_remote ≡ answer
        → on_remote roots absent answer ≡ ok p
        → IsPlanned p
    on_remote-IsPlanned roots absent (err e) placed scanned h = cc
    on_remote-IsPlanned roots absent (ok remote) placed scanned h =
        on_locals-IsPlanned roots absent remote (scan_locals args world roots) placed scanned refl h

    on_roots-IsPlanned :
        (answer : Result DestError (List FilePath × List Text))
        → world.destinations (is_file_probe world.probe) ≡ answer
        → on_roots answer ≡ ok p
        → IsPlanned p
    on_roots-IsPlanned (err e) placed h = cc
    on_roots-IsPlanned (ok (roots, absent)) placed h =
        on_remote-IsPlanned roots absent world.scan_remote placed refl h

  on_probe-IsPlanned :
      (probe : SourceProbe) (p : Planned)
      → world.probe ≡ probe
      → on_probe probe ≡ ok p
      → IsPlanned p
  on_probe-IsPlanned missing p e h = cc
  on_probe-IsPlanned file p e h =
      on_roots-IsPlanned p (world.destinations true)
        (ap (λ (x : SourceProbe). world.destinations (is_file_probe x)) e) h
  on_probe-IsPlanned other p e h =
      on_roots-IsPlanned p (world.destinations false)
        (ap (λ (x : SourceProbe). world.destinations (is_file_probe x)) e) h

  pub look-IsPlanned : (p : Planned) → look args world ≡ ok p → IsPlanned p
  look-IsPlanned p h = on_probe-IsPlanned world.probe p refl (sym look_lem ∙ h)
