-- ===== src/Cli/Run/Examples.antt =====
-- A run over one destination, and what `--delete` does to it without `-r`.
use mathlib.Core.List.{Mem, mem-cons_self}
use adbrsync.Common.{◌≡◌, refl, Bool, true, false, List, [], ◌∷◌, none, some, map, get_elem?}
use adbrsync.Common.Text.{Text, codes, contains, split, text_eq}
use adbrsync.Common.Sort.{sort_by}
use adbrsync.Common.TextOrder.{dedup}
use adbrsync.Common.Int.{pos}
use adbrsync.Common.Result.{ok}
use adbrsync.Core.Entry.{file, RemoteEntry, LocalEntry, FilePath, path_join}
use adbrsync.Core.Plan.{DestState, DestPlan, build, is_empty_plan}
use adbrsync.Core.Pool.Gathering.{empty_report}
use adbrsync.Cli.Remote.{SourceProbe}
use adbrsync.Cli.Run.{RunArgs, World, Planned, considered, plan_options, run}
use adbrsync.Cli.Run.{prepare, copy, remove_all}
use adbrsync.Core.Digests.{Digests}
use adbrsync.Cli.Run.Codes.{unrecursive_deletes}

abbrev pub photo : RemoteEntry
photo = record {
  rel = codes "sub/a";
  remote = codes "/sdcard/sub/a";
  kind = file;
  size = 3;
  mtime = pos 5;
  mode = 0;
}

abbrev copy_of_photo : LocalEntry
copy_of_photo = record {
  rel = codes "sub/a";
  path = codes "b" ∷ codes "sub" ∷ codes "a" ∷ [];
  kind = file;
  size = 3;
  mtime = pos 5;
}

abbrev pub root : FilePath
root = codes "b" ∷ []

abbrev pub args : RunArgs
args = record {
  recursive = false;
  archive = false;
  delete = true;
  dry_run = false;
  checksum = false;
  mtime_tolerance = pos 1;
  min_size = none;
  max_size = none;
}

abbrev accept_all : Text → Bool
accept_all rel = true

abbrev pub none_match : FilePath → Digests
none_match r = record { matched = λ rel. false }

abbrev pub world : World
world = record {
  probe = SourceProbe.other;
  destinations = λ is_file. ok (root ∷ [], []);
  scan_remote = ok (record { root = codes "/sdcard"; entries = photo ∷ []; denied = [] });
  scan_local = λ p. ok (copy_of_photo ∷ []);
  compare_many = λ es rs ls. ok (map none_match rs);
  accepts = accept_all;
  create_dirs = λ p rs. ok [];
  transfer = λ p rs disabled. ok empty_report;
  remove = λ ps. [];
  write_report = λ plan report problems. ok tt;
}

abbrev dest : DestState
dest = record {
  root = root;
  local = copy_of_photo ∷ [];
  digests = record { matched = λ rel. false };
}

abbrev planned : Planned
planned = record {
  roots = root ∷ [];
  missing = [];
  plan = build accept_all (dest ∷ []) (plan_options args) (considered false (photo ∷ []));
}

-- Paths that the device does not let the scan read leave the exit code at 0.
denied_test :
    (run args (record world {
      scan_remote = ok (record {
        root = codes "/sdcard";
        entries = photo ∷ [];
        denied = codes "/sdcard/Android" ∷ [];
      });
    })).result
    ≡ ok 0
unfolding run is_empty_plan build sort_by contains dedup path_join split text_eq empty_report
denied_test = refl

-- The file is on the device, and the run deletes its copy.
run_test :
    (run args world).actions
    ≡ prepare planned.plan
      ∷ copy planned.plan
      ∷ remove_all ((codes "b" ∷ codes "sub" ∷ codes "a" ∷ []) ∷ [])
      ∷ []
unfolding run is_empty_plan build sort_by contains dedup path_join split text_eq
run_test = refl

unrecursive_deletes_example :
    (p : DestPlan) × (xs : List LocalEntry) × (get_elem?
        (build accept_all (dest ∷ []) (plan_options args) (considered false (photo ∷ []))).dests
        0
      ≡ some p)
    × (p.deletions ≡ map (λ x. path_join root x.rel) xs)
    × Mem copy_of_photo xs
unfolding contains
unrecursive_deletes_example =
    unrecursive_deletes accept_all (dest ∷ []) (plan_options args) (photo ∷ []) 0 dest copy_of_photo
      refl refl mem-cons_self refl refl
