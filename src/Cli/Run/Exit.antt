-- ===== src/Cli/Run/Exit.antt =====
-- When a run exits with 0.
use adbrsync.Common.{ℕ, ◌≡◌, Bool, true, false, not, is_nil}
use adbrsync.Common.{List, [], ◌++◌, map}
use adbrsync.Common.Text.{Text}
use adbrsync.Common.Result.{ok}
use adbrsync.Core.Error.{CoreError}
use adbrsync.Core.Plan.{DestPlan}
use adbrsync.Core.Pool.Gathering.{TransferReport}
use adbrsync.Core.Plan.{is_empty_plan}
use adbrsync.Core.Pool.Gathering.{empty_report}
use adbrsync.Common.{all, ◌||◌, ◌⊎◌}
use adbrsync.Common.Result.{Result}
use adbrsync.Cli.Run.{Problem}
use adbrsync.Cli.Run.{RunArgs, World, Planned, delete_all, of_transfer, skipped, unprepared}

module _ (args : RunArgs) (world : World) where
  -- All that was to be deleted in a destination is deleted.
  abbrev pub is_rid : DestPlan → Bool
  is_rid d = is_nil d.deletions || is_nil (world.remove d.deletions)

  -- The phases that write have succeeded for every destination and every file.
  pub record IsDone (p : Planned) : Type 0 where
    pub report : TransferReport
    pub prepared : world.create_dirs p.plan p.roots ≡ ok []
    pub copied : world.transfer p.plan p.roots [] ≡ ok report
    pub fetched : is_nil report.errors ≡ true
    pub rid : all is_rid p.plan.dests ≡ true
    pub written : world.write_report p.plan report [] ≡ ok tt

  abbrev pub has_work : Planned → Bool
  has_work p = not (args.dry_run || is_empty_plan p.plan)

  -- No destination is missing, and there is nothing to write, or all of it has been written.
  abbrev pub IsClean : Planned → Type 0
  IsClean p =
      (is_nil p.missing ≡ true)
      × (((has_work p ≡ false) × (world.write_report p.plan empty_report [] ≡ ok tt))
          ⊎ ((has_work p ≡ true) × IsDone p))

  -- What makes a run a partial one, once the transfer has given a report.
  abbrev problems_of : Planned → List (ℕ × CoreError) → TransferReport → List Problem
  problems_of p failed report =
      map of_transfer report.errors
      ++ (map skipped p.missing
          ++ (map (λ (f : ℕ × CoreError). unprepared f.0 f.1) failed
              ++ (delete_all args world p.plan.dests).1))
