-- ===== src/Core/Perf/Facts.antt =====
-- What `PerfReport::build` says of the source and of the plan.
use adbrsync.Common.{ℕ, ◌+◌, ◌≡◌, refl, arith, Bool, true, false, List, [], ◌∷◌, Option, none, some}
use adbrsync.Common.{length, get_elem?, count_of, sum_of, if◌then◌else◌}
use adbrsync.Common.Text.{Text}
use adbrsync.Core.Entry.{FilePath, EntryKind, file, dir, symlink, RemoteEntry}
use adbrsync.Core.Scan.{RemoteScan}
use adbrsync.Core.Plan.{Plan, DestPlan, unchanged_everywhere, deletions_total}
use adbrsync.Core.Pool.Gathering.{TransferReport, DestOutcome}

pub record SourceFacts : Type 0 where
  pub root : Text
  pub entries : ℕ
  pub files : ℕ
  pub dirs : ℕ
  pub symlinks : ℕ
  pub denied : List Text

pub record DestFacts : Type 0 where
  pub root : FilePath
  pub planned_files : ℕ
  pub planned_bytes : ℕ
  pub unchanged : ℕ
  pub deletions : ℕ
  pub written_files : ℕ
  pub written_bytes : ℕ
  pub failures : ℕ

pub record PlanFacts : Type 0 where
  pub transfers : ℕ
  pub bytes : ℕ
  pub filtered : ℕ
  pub symlinks_skipped : ℕ
  pub unchanged_everywhere : ℕ
  pub destinations : List DestFacts

-- `EntryKind`'s `==`
abbrev pub is_kind : EntryKind → EntryKind → Bool
is_kind file file = true
is_kind dir dir = true
is_kind symlink symlink = true
is_kind file dir = false
is_kind file symlink = false
is_kind dir file = false
is_kind dir symlink = false
is_kind symlink file = false
is_kind symlink dir = false

unfoldable pub count_kind : RemoteScan → EntryKind → ℕ
count_kind scan kind = count_of (λ e. is_kind e.kind kind) scan.entries

unfoldable pub source_facts : RemoteScan → SourceFacts
unfolding count_kind
source_facts scan = record {
  root = scan.root;
  entries = length scan.entries;
  files = count_kind scan file;
  dirs = count_kind scan dir;
  symlinks = count_kind scan symlink;
  denied = scan.denied;
}

-- `got.map(...).unwrap_or(0)`
abbrev or_none : (DestOutcome → ℕ) → Option DestOutcome → ℕ
or_none f none = 0
or_none f (some o) = f o

abbrev dest_facts_of : DestPlan → Option DestOutcome → DestFacts
dest_facts_of d got = record {
  root = d.root;
  planned_files = d.files;
  planned_bytes = d.bytes;
  unchanged = d.unchanged;
  deletions = length d.deletions;
  written_files = or_none (λ o. o.files) got;
  written_bytes = or_none (λ o. o.bytes) got;
  failures = or_none (λ o. o.failures) got;
}

-- The loop over the destinations, from the index `i`.
unfoldable pub dest_facts : List DestOutcome → ℕ → List DestPlan → List DestFacts
dest_facts outcomes i [] = []
dest_facts outcomes i (d ∷ ds) =
    dest_facts_of d (get_elem? outcomes i) ∷ dest_facts outcomes (i + 1) ds

unfoldable pub plan_facts : Plan → TransferReport → PlanFacts
unfolding dest_facts
plan_facts plan report = record {
  transfers = length plan.transfers;
  bytes = plan.total_bytes;
  filtered = plan.filtered;
  symlinks_skipped = plan.symlinks_skipped;
  unchanged_everywhere = unchanged_everywhere plan;
  destinations = dest_facts report.dests 0 plan.dests;
}

one_kind :
    (k : EntryKind)
    → (if is_kind k file then 1 else 0)
        + (if is_kind k dir then 1 else 0)
        + (if is_kind k symlink then 1 else 0)
      ≡ 1
one_kind file = omega arith
one_kind dir = omega arith
one_kind symlink = omega arith

-- Every entry of the scan is counted under one kind.
pub count_kind-entries :
    (scan : RemoteScan)
    → (source_facts scan).entries
      ≡ (source_facts scan).files + (source_facts scan).dirs + (source_facts scan).symlinks
unfolding source_facts
count_kind-entries scan = go scan.entries
  where
    go :
        (es : List RemoteEntry)
        → length es
          ≡ count_of (λ e. is_kind e.kind file) es
            + count_of (λ e. is_kind e.kind dir) es
            + count_of (λ e. is_kind e.kind symlink) es
    go [] = omega arith
    go (e ∷ es) = omega (arith, one_kind e.kind, go es)

dest_facts-deletions :
    (outcomes : List DestOutcome) (i : ℕ) (ds : List DestPlan)
    → sum_of (λ f. f.deletions) (dest_facts outcomes i ds) ≡ sum_of (λ d. length d.deletions) ds
unfolding dest_facts
dest_facts-deletions outcomes i [] = refl
dest_facts-deletions outcomes i (d ∷ ds) = omega (arith, dest_facts-deletions outcomes (i + 1) ds)

-- The deletions of the destinations add up to the plan's.
pub plan_facts-deletions :
    (plan : Plan) (report : TransferReport)
    → sum_of (λ f. f.deletions) (plan_facts plan report).destinations ≡ deletions_total plan
unfolding plan_facts deletions_total
plan_facts-deletions plan report = dest_facts-deletions report.dests 0 plan.dests
