-- ===== src/Cli/Run.antt =====
-- `run` of crates/adbrsync-cli/src/main.rs after the device is selected: the order of its phases, and
-- the exit code. What the other parts answer is given (`World`), the probe and the destinations too,
-- which Cli/Start computes. Printing is left out, and of the performance report all but whether it can
-- be written.
pub mod Codes
pub mod Looking
pub mod States
pub mod Removing
pub mod Cleaned
pub mod Named
pub mod Escapes
pub mod Exit
mod Examples
mod Trees
use adbrsync.Common.{ℕ, Bool, true, false, not, ◌&&◌, ◌||◌, if◌then◌else◌, is_nil, keep, max}
use adbrsync.Common.{List, [], ◌∷◌, ◌++◌, map, Option, none, some}
use adbrsync.Common.Text.{Text, contains, codes}
use adbrsync.Common.Int.{ℤ}
use adbrsync.Common.Result.{Result, ok, err, ◌>>=◌}
use adbrsync.Core.Entry.{FilePath, RemoteEntry, LocalEntry, EntryKind, dir, file, symlink}
use adbrsync.Core.Digests.{Digests}
use adbrsync.Core.Error.{CoreError}
use adbrsync.Core.Plan.{PlanOptions, DestState, Plan, DestPlan, is_empty_plan, build}
use adbrsync.Core.Scan.{RemoteScan}
use adbrsync.Core.Pool.{Complaint, FileError}
use adbrsync.Core.Pool.Gathering.{TransferReport, empty_report}
use adbrsync.Cli.Remote.{SourceProbe, missing, file, other, is_file_probe}
use adbrsync.Cli.Destinations.{DestError}

-- The options that decide what is done. `parse_size` has been applied to the sizes.
pub record RunArgs : Type 0 where
  pub recursive : Bool
  pub archive : Bool
  pub delete : Bool
  pub dry_run : Bool
  pub checksum : Bool
  pub mtime_tolerance : ℤ
  pub min_size : Option ℕ
  pub max_size : Option ℕ

-- What makes a run a partial one.
pub data Problem : Type 0 where
  of_transfer : FileError → Problem
  skipped : Text → Problem
  unprepared : ℕ → CoreError → Problem
  undeleted : FilePath → Text → Problem

-- What the other parts answer. `accepts` is the filter; `transfer` is told which destinations could
-- not be prepared, and `remove` gives the paths that could not be deleted. `write_report` writes the
-- performance report, if one was asked for, out of what has been done.
pub record World : Type 0 where
  pub probe : SourceProbe
  pub destinations : Bool → Result DestError (List FilePath × List Text)
  pub scan_remote : Result CoreError RemoteScan
  pub scan_local : FilePath → Result CoreError (List LocalEntry)
  pub compare_many :
      List RemoteEntry → List FilePath → List (List LocalEntry) → Result CoreError (List Digests)
  pub accepts : Text → Bool
  pub create_dirs : Plan → List FilePath → Result CoreError (List (ℕ × CoreError))
  pub transfer : Plan → List FilePath → List ℕ → Result CoreError TransferReport
  pub remove : List FilePath → List (FilePath × Text)
  pub write_report : Plan → TransferReport → List Problem → Result Text (Unit {0})

-- Why nothing more is done.
pub data Stop : Type 0 where
  source_missing : Stop
  bad_destination : DestError → Stop
  device_scan : CoreError → Stop
  local_scan : FilePath → CoreError → Stop
  comparison : CoreError → Stop
  preparation : CoreError → Stop
  transfer_failed : CoreError → Stop
  report_failed : Text → Stop

-- What is done to the destinations.
pub data Action : Type 0 where
  prepare : Plan → Action
  copy : Plan → Action
  remove_all : List FilePath → Action

pub record Outcome : Type 0 where
  pub result : Result Stop ℕ
  pub actions : List Action

abbrev pub exit_partial : ℕ
exit_partial = 23

abbrev pub exit_code {ℓ} : {A : Type ℓ} → List A → ℕ
exit_code problems = if is_nil problems then 0 else exit_partial

-- The end of a run. A performance report that was asked for and cannot be written is an error.
abbrev pub reported {ℓ} : {A : Type ℓ} → Result Text (Unit {0}) → List A → Result Stop ℕ
reported (err e) problems = err (report_failed e)
reported (ok u) problems = ok (exit_code problems)

abbrev is_directory : EntryKind → Bool
is_directory dir = true
is_directory kind = false

-- Without `-r` only the top level is considered.
unfoldable pub considered : Bool → List RemoteEntry → List RemoteEntry
considered true entries = entries
considered false entries =
    keep (λ e. not (contains e.rel b'/') && not (is_directory e.kind)) entries

abbrev pub lift {ℓ} : {A : Type ℓ} → (CoreError → Stop) → Result CoreError A → Result Stop A
lift f (ok a) = ok a
lift f (err e) = err (f e)

abbrev pub lift_dest {ℓ} : {A : Type ℓ} → Result DestError A → Result Stop A
lift_dest (ok a) = ok a
lift_dest (err e) = err (bad_destination e)

-- What the run has found out before it does anything.
pub record Planned : Type 0 where
  pub roots : List FilePath
  pub missing : List Text
  pub plan : Plan

unfoldable pub states_of : List FilePath → List (List LocalEntry) → List Digests → List DestState
states_of (r ∷ rs) (l ∷ ls) (d ∷ ds) =
    record { root = r; local = l; digests = d } ∷ states_of rs ls ds
states_of _ _ _ = []

abbrev pub plan_options : RunArgs → PlanOptions
plan_options args = record {
  delete = args.delete;
  mtime_tolerance = args.mtime_tolerance;
  min_size = args.min_size;
  max_size = args.max_size;
  checksum = args.checksum;
}

module _ (args : RunArgs) (world : World) where
  unfoldable pub scan_locals : List FilePath → Result Stop (List (List LocalEntry))
  scan_locals [] = ok []
  scan_locals (root ∷ roots) = lift (local_scan root) (world.scan_local root) >>= λ entries.
      scan_locals roots >>= λ more. ok (entries ∷ more)

  unfoldable pub digests_of :
      List RemoteEntry → List FilePath → List (List LocalEntry) → Result Stop (List Digests)
  digests_of entries roots locals =
      if args.checksum
      then lift comparison (world.compare_many entries roots locals)
      else ok (map (λ root. record { matched = λ rel. false }) roots)

  -- The phases that only look.
  unfoldable pub look : Result Stop Planned
  unfolding scan_locals digests_of considered states_of
  look = elim world.probe [
    | missing ↦ err source_missing
    | probe ↦ lift_dest (world.destinations (is_file_probe probe)) >>= λ (roots, absent).
        lift device_scan world.scan_remote >>= λ remote. scan_locals roots >>= λ locals.
        let entries = considered (args.recursive || args.archive) remote.entries in
        digests_of entries roots locals >>= λ digests. ok (record {
          roots = roots;
          missing = absent;
          plan = build world.accepts (states_of roots locals digests) (plan_options args) entries;
        })
  ]

  -- The loop over the destinations' deletions.
  unfoldable pub delete_all : List DestPlan → List Action × List Problem
  delete_all [] = ([], [])
  delete_all (d ∷ ds) =
      let (actions, problems) = delete_all ds in
      if is_nil d.deletions then (actions, problems) else (
        remove_all d.deletions ∷ actions,
        map (λ e. undeleted e.0 e.1) (world.remove d.deletions) ++ problems,
      )

  -- The phases that write.
  unfoldable pub act : Planned → Outcome
  unfolding delete_all
  act p = elim (world.create_dirs p.plan p.roots) [
    | err e ↦ record { result = err (preparation e); actions = prepare p.plan ∷ [] }
    | ok failed ↦ elim (world.transfer p.plan p.roots (map (λ f. f.0) failed)) [
      | err e ↦ record {
        result = err (transfer_failed e);
        actions = prepare p.plan ∷ copy p.plan ∷ [];
      }
      | ok report ↦
          let (removals, undeletable) = delete_all p.plan.dests in
          let problems =
            map of_transfer report.errors
            ++ (map skipped p.missing ++ (map (λ f. unprepared f.0 f.1) failed ++ undeletable)) in
          record {
            result = reported (world.write_report p.plan report problems) problems;
            actions = prepare p.plan ∷ copy p.plan ∷ removals;
          }
    ]
  ]

  unfoldable pub run : Outcome
  unfolding look act
  run = elim look [
    | err e ↦ record { result = err e; actions = [] }
    | ok p ↦
        if args.dry_run || is_empty_plan p.plan
        then record {
          result = reported (world.write_report p.plan empty_report []) p.missing;
          actions = [];
        }
        else act p
  ]
