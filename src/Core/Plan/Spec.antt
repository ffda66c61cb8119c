-- ===== src/Core/Plan/Spec.antt =====
-- What `build` computes, without its loops: each part of the plan as a function of the entries.
use adbrsync.Common.{ℕ, ◌+◌, Bool, true, false, not, ◌&&◌, List, [], ◌∷◌, map, Option, none, some}
use adbrsync.Common.{if◌then◌else◌, any}
use adbrsync.Common.Text.{Text, text_eq, is_empty}
use adbrsync.Core.Entry.{file, dir, symlink, RemoteEntry, path_join}
use adbrsync.Core.Plan.{PlanOptions, DestState, TransferItem, Reason, DestPlan, add64, is_file}
use adbrsync.Core.Plan.{classify, index, too_small, too_large, extraneous}

-- Why a destination needs an entry, if it does.
unfoldable pub reason_for : PlanOptions → DestState → RemoteEntry → Option Reason
reason_for opts d e = classify e (index d.local e.rel) opts d.digests

abbrev pub is_stale : PlanOptions → DestState → RemoteEntry → Bool
is_stale opts d e = elim (reason_for opts d e) [ none ↦ false | some r ↦ true ]

-- The indices, from `i`, of the destinations that need an entry.
unfoldable pub targets_from : PlanOptions → RemoteEntry → ℕ → List DestState → List ℕ
targets_from opts e i [] = []
targets_from opts e i (d ∷ ds) =
    let rest = targets_from opts e (i + 1) ds in if is_stale opts d e then i ∷ rest else rest

-- One destination's record after one file.
abbrev pub bump : PlanOptions → RemoteEntry → DestState → DestPlan → DestPlan
bump opts e d p =
    if is_stale opts d e
    then record p { files = p.files + 1; bytes = add64 p.bytes e.size }
    else record p { unchanged = p.unchanged + 1 }

-- The directory of an accepted entry.
abbrev pub planned_dir : (Text → Bool) → RemoteEntry → Option Text
planned_dir accepts e =
    if not (is_empty e.rel) && accepts e.rel
    then (elim e.kind [ dir ↦ some e.rel | file ↦ none | symlink ↦ none ])
    else none

-- The device has an accepted entry at this path.
abbrev pub names : (Text → Bool) → Text → RemoteEntry → Bool
names accepts rel e = not (is_empty e.rel) && accepts e.rel && text_eq e.rel rel

module _ (accepts : Text → Bool) (dests : List DestState) (opts : PlanOptions) where
  -- A file that the filter and the size limits let through.
  unfoldable pub is_candidate : RemoteEntry → Bool
  is_candidate e =
      not (is_empty e.rel)
      && accepts e.rel
      && is_file e.kind
      && not (too_small opts.min_size e.size)
      && not (too_large opts.max_size e.size)

  -- The transfer of an entry that some destination needs.
  unfoldable pub planned : RemoteEntry → Option TransferItem
  planned e =
      if is_candidate e
      then (elim (targets_from opts e 0 dests) [
        | [] ↦ none
        | t ∷ ts ↦ some (record {
          rel = e.rel;
          remote = e.remote;
          size = e.size;
          mtime = e.mtime;
          targets = t ∷ ts;
        })
      ])
      else none

  abbrev pub visit_dest : RemoteEntry → DestState → DestPlan → DestPlan
  visit_dest e d p = if is_candidate e then bump opts e d p else p

  -- One destination's record after the entries.
  unfoldable pub dest_after : DestState → DestPlan → List RemoteEntry → DestPlan
  dest_after d p [] = p
  dest_after d p (e ∷ es) = dest_after d (visit_dest e d p) es

  -- What `finish` makes of a destination.
  abbrev pub final_dest : List RemoteEntry → DestState → DestPlan
  final_dest es d =
      let p =
        dest_after d (record { root = d.root; files = 0; bytes = 0; unchanged = 0; deletions = [] })
          es in
      record p {
        deletions =
            if opts.delete
            then map (λ l. path_join d.root l.rel)
                (extraneous accepts (λ rel. any (names accepts rel) es) d.local)
            else p.deletions;
      }
