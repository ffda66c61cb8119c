-- ===== src/Core/Plan/Examples.antt =====
-- A small tree against two destinations, and the theorems on it.
use Prim.Native.String.{String}
use mathlib.Core.List.{Mem, mem-cons_self, mem-cons_of_mem}
use adbrsync.Common.{
  ℕ, ◌%◌, ◌^◌, ◌+◌, ◌-◌, ◌≡◌, ◌↔◌, refl, Bool, true, false, not, List, [], ◌∷◌, map, ◌++◌,
}
use adbrsync.Common.{none, some, any, sum_of, get_elem?, if◌then◌else◌, ◌==◌}
use adbrsync.Common.Text.{Text, codes, text_eq, contains, starts_with, split}
use adbrsync.Common.Int.{ℤ, pos, negsuc, ◌-ℤ◌}
use adbrsync.Common.Sort.{sort_by, Sorted}
use adbrsync.Core.Entry.{EntryKind, file, dir, RemoteEntry, LocalEntry, path_join}
use adbrsync.Core.Digests.{Digests}
use adbrsync.Core.Plan.{PlanOptions, DestState, DestPlan, TransferItem, classify, build}
use adbrsync.Core.Plan.{visit_dests, index}
use adbrsync.Core.Plan.Spec.{is_candidate, names, reason_for}
use adbrsync.Core.Plan.Transfers.{IsTransferOf, transfers_sound, transfers_complete}
use adbrsync.Core.Plan.Destinations.{dest_accounts}
use adbrsync.Core.Plan.Deletions.{lies_in, deletions_exact}
use adbrsync.Core.Plan.Comparison.{SameTime, classify-none}
use adbrsync.Core.Plan.{is_file}
use adbrsync.Core.Digests.{matches}
use adbrsync.Common.{arith, ◌⊎◌, ◌^◌}
use adbrsync.Core.Plan.Converge.{IsCurrent, converged}

abbrev remote : String → EntryKind → ℕ → ℤ → RemoteEntry
remote rel kind size mtime = record {
  rel = codes rel;
  remote = codes "/sd/" ++ codes rel;
  kind = kind;
  size = size;
  mtime = mtime;
  mode = 0o644;
}

abbrev local : String → EntryKind → ℕ → ℤ → LocalEntry
local rel kind size mtime = record {
  rel = codes rel;
  path = codes "d" ∷ codes rel ∷ [];
  kind = kind;
  size = size;
  mtime = mtime;
}

abbrev tree : List RemoteEntry
tree =
    remote "" dir 0 (pos 1)
    ∷ remote "a" dir 0 (pos 1)
    ∷ remote "a/x" file 10 (pos 100)
    ∷ remote "b" file 30 (pos 5)
    ∷ remote "skip" file 7 (pos 5)
    ∷ []

abbrev accepts : Text → Bool
accepts rel = not (starts_with rel (codes "sk"))

abbrev no_digests : Digests
no_digests = record { matched = λ rel. false }

abbrev first : DestState
first = record {
  root = codes "one" ∷ [];
  local = local "b" file 30 (pos 6) ∷ local "old" dir 0 (pos 1) ∷ local "old/f" file 1 (pos 1) ∷ [];
  digests = no_digests;
}

abbrev second : DestState
second = record { root = codes "two" ∷ []; local = []; digests = no_digests }

abbrev dests : List DestState
dests = first ∷ second ∷ []

abbrev opts : PlanOptions
opts = record {
  delete = true;
  mtime_tolerance = pos 1;
  min_size = none;
  max_size = some 1000;
  checksum = false;
}

transfers_test :
    map (λ t. t.targets) (build accepts dests opts tree).transfers ≡ (1 ∷ []) ∷ (0 ∷ 1 ∷ []) ∷ []
unfolding build text_eq starts_with visit_dests index classify sort_by ◌-ℤ◌
transfers_test = refl

deletions_test :
    map (λ p. p.deletions) (build accepts dests opts tree).dests
    ≡ ((codes "one" ∷ codes "old" ∷ codes "f" ∷ []) ∷ (codes "one" ∷ codes "old" ∷ []) ∷ [])
      ∷ []
      ∷ []
unfolding build text_eq starts_with visit_dests index classify sort_by ◌-ℤ◌ path_join split contains
deletions_test = refl

abbrev x_item : TransferItem
x_item = record {
  rel = codes "a/x";
  remote = codes "/sd/a/x";
  size = 10;
  mtime = pos 100;
  targets = 0 ∷ 1 ∷ [];
}

transfers_sound_example :
    ∥ ((e : RemoteEntry) × Mem e tree × IsTransferOf accepts dests opts e x_item) ∥₁
unfolding build text_eq starts_with visit_dests index classify sort_by ◌-ℤ◌
transfers_sound_example =
    transfers_sound accepts dests opts tree x_item (mem-cons_of_mem _ mem-cons_self)

transfers_complete_example : ∥ (
    (t : TransferItem) × Mem t (build accepts dests opts tree).transfers
    × IsTransferOf accepts dests opts (remote "b" file 30 (pos 5)) t) ∥₁
unfolding is_candidate reason_for text_eq starts_with index classify ◌-ℤ◌
transfers_complete_example =
    transfers_complete accepts dests opts tree (remote "b" file 30 (pos 5)) 1
      (mem-cons_of_mem _ (mem-cons_of_mem _ (mem-cons_of_mem _ mem-cons_self))) refl refl

dest_accounts_example :
    let plan = build accepts dests opts tree in
    (p : DestPlan) × (get_elem? plan.dests 0 ≡ some p)
    × (p.root ≡ first.root)
    × (p.files ≡ sum_of (λ t. if any (λ k. k == 0) t.targets then 1 else 0) plan.transfers)
    × (p.bytes
        ≡ sum_of (λ t. if any (λ k. k == 0) t.targets then t.size else 0) plan.transfers % 2 ^ 64)
    × (p.files + p.unchanged
        ≡ sum_of (λ e. if is_candidate accepts dests opts e then 1 else 0) tree)
dest_accounts_example = dest_accounts accepts dests opts tree 0 first refl

deletions_exact_example :
    (p : DestPlan) × (xs : List LocalEntry) × (get_elem? (build accepts dests opts tree).dests 0
      ≡ some p)
    × (p.deletions ≡ map (λ l. path_join first.root l.rel) xs)
    × ((l : LocalEntry)
        → Mem l xs ↔ (
            (opts.delete ≡ true)
            × Mem l first.local
            × (not (any (names accepts l.rel) tree) ≡ true)
            × (accepts l.rel ≡ true)))
    × Sorted (λ a b. not (lies_in a b)) xs
deletions_exact_example = deletions_exact accepts dests opts tree 0 first refl

-- The times are 2 ^ 63 apart.
abbrev early : RemoteEntry
early = remote "b" file 30 (negsuc (2 ^ 63 - 1))

abbrev late : LocalEntry
late = local "b" file 30 (pos 0)

overflow_test : classify early (some late) opts no_digests ≡ none
unfolding classify ◌-ℤ◌
overflow_test = refl

classify-none_example : (classify early (some late) opts no_digests ≡ none) ↔ (
    (is_file late.kind ≡ true)
    × (((opts.checksum ≡ true) × (matches no_digests early.rel ≡ true))
        ⊎ ((opts.checksum ≡ false) × (late.size ≡ early.size) × SameTime 1 late.mtime early.mtime)))
classify-none_example =
    classify-none early late opts no_digests 1 refl (omega arith) (omega arith, omega arith)
      (omega arith, omega arith)

abbrev copied : DestState
copied = record first { local = local "b" file 30 (pos 5) ∷ local "a/x" file 10 (pos 100) ∷ [] }

copied_x-IsCurrent : IsCurrent (remote "a/x" file 10 (pos 100)) copied
unfolding text_eq index
copied_x-IsCurrent = record {
  copy = local "a/x" file 10 (pos 100);
  found = refl;
  regular = refl;
  same_size = refl;
  same_time = refl;
}

copied_b-IsCurrent : IsCurrent (remote "b" file 30 (pos 5)) copied
unfolding text_eq index
copied_b-IsCurrent = record {
  copy = local "b" file 30 (pos 5);
  found = refl;
  regular = refl;
  same_size = refl;
  same_time = refl;
}

converged_example : (build accepts (copied ∷ []) opts tree).transfers ≡ []
unfolding is_candidate text_eq starts_with
converged_example = converged opts 1 refl refl accepts (copied ∷ []) tree (
  λ c. cc,
  (λ c. cc, (λ c. (copied_x-IsCurrent, tt), (λ c. (copied_b-IsCurrent, tt), (λ c. cc, tt)))),
)
