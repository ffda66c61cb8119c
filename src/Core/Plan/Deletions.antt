-- ===== src/Core/Plan/Deletions.antt =====
-- What `build` marks for removal.
use mathlib.Core.List.{Mem, not-mem-nil}
use mathlib.Core.List.Perm
use adbrsync.Common.{ℕ, ◌≤◌, ◌≡◌, ◌↔◌, refl, arith}
use adbrsync.Common.{Bool, true, false, not, List, [], ◌∷◌, ◌++◌, some, map, keep}
use adbrsync.Common.{if◌then◌else◌, any, get_elem?, length, length-append, All-map}
use adbrsync.Common.Members.{mem-keep_iff}
use adbrsync.Common.Text.{Text, starts_with}
use adbrsync.Common.Sort.{sort_by-perm, sort_by-Sorted, Sorted}
use adbrsync.Core.Entry.{RemoteEntry, LocalEntry, FilePath, path_join}
use adbrsync.Core.Plan.{PlanOptions, DestState, DestPlan, deeper, extraneous, build}
use adbrsync.Core.Plan.Spec.{names, visit_dest, dest_after, final_dest}
use adbrsync.Core.Plan.Loop.{build-dests}
use adbrsync.Core.Plan.Destinations.{get_elem?-map}

-- `e` lies in the directory `d`, at any depth.
unfoldable pub lies_in : LocalEntry → LocalEntry → Bool
lies_in d e = starts_with e.rel (d.rel ++ b'/' ∷ [])

length_of_prefix : (s p : Text) → starts_with s p ≡ true → length p ≤ length s
unfolding starts_with
length_of_prefix s [] h = omega arith
length_of_prefix [] (c ∷ p) h = ground arith
length_of_prefix (d ∷ s) (c ∷ p) h = ground (arith, length_of_prefix s p)

deeper-lies_in : (a b : LocalEntry) → deeper a b ≡ true → not (lies_in a b) ≡ true
unfolding lies_in
deeper-lies_in a b h =
    ground (arith, length_of_prefix b.rel (a.rel ++ b'/' ∷ []), length-append a.rel (b'/' ∷ []))

Sorted-map :
    (p q : LocalEntry → LocalEntry → Bool)
    → ((a b : LocalEntry) → p a b ≡ true → q a b ≡ true)
    → (xs : List LocalEntry) → Sorted p xs
    → Sorted q xs
Sorted-map p q f [] s = tt
Sorted-map p q f (x ∷ xs) s = (All-map _ _ xs (f x) s.0, Sorted-map p q f xs s.1)

extraneous_order :
    (accepts wanted : Text → Bool) (local : List LocalEntry)
    → Sorted (λ a b. not (lies_in a b)) (extraneous accepts wanted local)
unfolding extraneous
extraneous_order accepts wanted local =
    Sorted-map deeper _ deeper-lies_in _
      (sort_by-Sorted deeper (λ a b c p q. ground arith) (λ a b p. ground arith) _)

mem-extraneous :
    (accepts wanted : Text → Bool) (local : List LocalEntry) (l : LocalEntry)
    → Mem l (extraneous accepts wanted local)
      ↔ (Mem l local × (not (wanted l.rel) ≡ true) × (accepts l.rel ≡ true))
unfolding extraneous
mem-extraneous accepts wanted local l =
    let kept = mem-keep_iff (λ (e : LocalEntry). not (wanted e.rel)) local {y = l} in
    let shown =
      mem-keep_iff (λ (e : LocalEntry). accepts e.rel) (keep (λ e. not (wanted e.rel)) local)
        {y = l} in
    let sorted : Mem l (extraneous accepts wanted local)
        ↔ Mem l (keep (λ e. accepts e.rel) (keep (λ e. not (wanted e.rel)) local)) =
      Perm.mem_iff (sort_by-perm deeper _) in
    (
      λ m. let (k, a) = shown.0 (sorted.0 m) in let (h, w) = kept.0 k in (h, w, a),
      λ (h, w, a). sorted.1 (shown.1 (kept.1 (h, w), a)),
    )

-- The entries that a destination loses.
marked : Bool → (Text → Bool) → (Text → Bool) → List LocalEntry → List LocalEntry
marked true accepts wanted local = extraneous accepts wanted local
marked false accepts wanted local = []

marked_lem :
    (delete : Bool) (accepts wanted : Text → Bool) (local : List LocalEntry)
    (f : LocalEntry → FilePath)
    → let xs = marked delete accepts wanted local in
      ((if delete then map f (extraneous accepts wanted local) else []) ≡ map f xs)
      × ((l : LocalEntry)
          → Mem l xs ↔ (
              (delete ≡ true) × Mem l local × (not (wanted l.rel) ≡ true) × (accepts l.rel ≡ true)))
      × Sorted (λ a b. not (lies_in a b)) xs
unfolding marked
marked_lem true accepts wanted local f = (
  refl,
  λ l.
      let (there, back) = mem-extraneous accepts wanted local l in
      (λ m. (refl, (there m).0, (there m).1, (there m).2), λ h. back (h.1, h.2, h.3)),
  extraneous_order accepts wanted local,
)
marked_lem false accepts wanted local f = (refl, λ l. (λ m. absurd (not-mem-nil m), λ h. cc), tt)

module _ (accepts : Text → Bool) (dests : List DestState) (opts : PlanOptions) where
  dest_after-deletions :
      (d : DestState) (es : List RemoteEntry) (p : DestPlan)
      → (dest_after accepts dests opts d p es).deletions ≡ p.deletions
  unfolding dest_after
  dest_after-deletions d [] p = refl
  dest_after-deletions d (e ∷ es) p =
      ground (arith, dest_after-deletions d es (visit_dest accepts dests opts e d p))

  -- Without `--delete` nothing is marked. With it, a destination loses exactly the local entries
  -- that the filter accepts and for which the device has no accepted entry of the same path; and an
  -- entry is removed before any directory that it lies in.
  pub deletions_exact :
      (es : List RemoteEntry) (i : ℕ) (d : DestState)
      → get_elem? dests i ≡ some d
      → (p : DestPlan) × (xs : List LocalEntry) × (get_elem? (build accepts dests opts es).dests i
          ≡ some p)
        × (p.deletions ≡ map (λ l. path_join d.root l.rel) xs)
        × ((l : LocalEntry)
            → Mem l xs ↔ (
                (opts.delete ≡ true)
                × Mem l d.local
                × (not (any (names accepts l.rel) es) ≡ true)
                × (accepts l.rel ≡ true)))
        × Sorted (λ a b. not (lies_in a b)) xs
  deletions_exact es i d at =
      let wanted : Text → Bool = λ rel. any (names accepts rel) es in
      let (same, exact, order) =
        marked_lem opts.delete accepts wanted d.local (λ l. path_join d.root l.rel) in
      (
        final_dest accepts dests opts es d,
        marked opts.delete accepts wanted d.local,
        rw (build-dests) (get_elem?-map (final_dest accepts dests opts es) dests i at),
        rw (dest_after-deletions d es) same,
        exact,
        order,
      )
