-- ===== src/Core/LocalScan/Backslash.antt =====
-- Names that hold a backslash, which `scan_local` takes for a separator.
use mathlib.Core.List.{Mem}
use mathlib.Core.Logic.{∥∥₁_map}
use adbrsync.Common.{
  ℕ, ◌≡◌, refl, ◌∙◌, any, arith, Bool, true, false, List, [], ◌∷◌, Option, none, some,
}
use adbrsync.Common.{All, ◌==◌, Bool-cases, inl, inr, get_elem?}
use adbrsync.Common.Text.{Text, text_eq, text_eq_iff, contains}
use adbrsync.Common.Maps.{put}
use adbrsync.Common.Result.{Result, ok}
use adbrsync.Core.Entry.{FilePath, LocalEntry, RemoteEntry}
use adbrsync.Core.Plan.{PlanOptions, DestState, TransferItem, index, index_onto, classify, build}
use adbrsync.Core.Plan.Spec.{is_stale, is_candidate, reason_for}
use adbrsync.Core.Plan.Transfers.{needs, transfers_complete}
use adbrsync.Core.LocalScan.{Found, to_slashes, rel_of, local_entry, scan_local}
use adbrsync.Core.LocalScan.Paths.{local_entry-rel, scan_local-All}

to_slashes-contains : (s : Text) → contains (to_slashes s) 92 ≡ false
unfolding to_slashes contains
to_slashes-contains [] = refl
to_slashes-contains (c ∷ s) = ground (arith, to_slashes-contains s)

abbrev NoBackslash : LocalEntry → Type 0
NoBackslash e = contains e.rel 92 ≡ false

abbrev Anything : Result Text Found → Type 0
Anything item = Unit {0}

All-Anything : (items : List (Result Text Found)) → All Anything items
All-Anything [] = tt
All-Anything (item ∷ items) = (tt, All-Anything items)

-- Entries that hold no backslash leave a path that does out of the map.
index_onto-absent :
    (m : Text → Option LocalEntry) (es : List LocalEntry) (rel : Text)
    → contains rel 92 ≡ true
    → All NoBackslash es
    → m rel ≡ none
    → index_onto m es rel ≡ none
unfolding index_onto
index_onto-absent m [] rel c h e = e
index_onto-absent m (x ∷ xs) rel c h e =
    index_onto-absent (put x.rel x m) xs rel c h.1 (elim (Bool-cases (text_eq x.rel rel)) [
      | inl same ↦ cc (rw ((text_eq_iff x.rel rel).0 same, c) at h.0)
      | inr other ↦ rw other e
    ])

module _ (lossy : Text → Text) (root : FilePath) where
  no_backslash :
      (item : Result Text Found) (e : LocalEntry)
      → Anything item
      → local_entry lossy root item ≡ ok e
      → NoBackslash e
  unfolding rel_of
  no_backslash item e any h =
      let (found, f, path, rel) = local_entry-rel lossy root item e h in
      rw rel (to_slashes-contains _)

  -- A device file with a backslash in its path counts as missing in a destination, whatever the
  -- destination holds.
  backslash_stale :
      (exists : Bool) (items : List (Result Text Found)) (d : DestState) (opts : PlanOptions)
      (e : RemoteEntry)
      → scan_local lossy root exists items ≡ ok d.local
      → contains e.rel 92 ≡ true
      → is_stale opts d e ≡ true
  unfolding reason_for classify index
  backslash_stale exists items d opts e scanned c =
      let clean =
        scan_local-All lossy root NoBackslash Anything no_backslash exists items d.local
          (All-Anything items) scanned in
      rw (index_onto-absent (λ rel. none) d.local e.rel c clean refl, is_stale) refl

  -- Whatever the destinations hold, a device file that the filter and the size limits accept and whose
  -- path has a backslash is transferred to each destination that `scan_local` has read.
  pub backslash-again :
      (accepts : Text → Bool) (dests : List DestState) (opts : PlanOptions) (es : List RemoteEntry)
      (e : RemoteEntry) (i : ℕ) (d : DestState) (exists : Bool) (items : List (Result Text Found))
      → Mem e es
      → is_candidate accepts dests opts e ≡ true
      → get_elem? dests i ≡ some d
      → scan_local lossy root exists items ≡ ok d.local
      → contains e.rel 92 ≡ true
      → ∥ (
          (t : TransferItem) × Mem t (build accepts dests opts es).transfers
          × (t.rel ≡ e.rel)
          × (any (λ k. k == i) t.targets ≡ true)) ∥₁
  backslash-again accepts dests opts es e i d exists items m c at scanned slash =
      let needed : needs opts dests e i ≡ true =
        rw (at, needs) (backslash_stale exists items d opts e scanned slash) in
      ∥∥₁_map (transfers_complete accepts dests opts es e i m c needed)
        (λ (t, there, is). (t, there, is.rel, is.targets i ∙ needed))
