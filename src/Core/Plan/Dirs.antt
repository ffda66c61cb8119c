-- ===== src/Core/Plan/Dirs.antt =====
-- The directories that `build` lists.
use adbrsync.Common.{◌≡◌, refl, ◌∙◌, arith, Bool, true, false, not, ◌&&◌, ◌||◌}
use adbrsync.Common.{List, [], ◌∷◌, if◌then◌else◌, any, filter_map, All-map}
use adbrsync.Common.{Bool-cases, inl, inr}
use adbrsync.Common.Text.{Text, text_eq, text_eq_iff, is_empty}
use adbrsync.Common.Sort.{sort_by-Sorted, any-sort_by, Sorted}
use adbrsync.Common.TextOrder.{
  text_leb, dedup_after, dedup, text_leb_trans, text_leb_total, text_leb_antisymm,
}
use adbrsync.Core.Entry.{file, dir, symlink, RemoteEntry}
use adbrsync.Core.Plan.{PlanOptions, DestState, build}
use adbrsync.Core.Plan.Spec.{planned_dir}
use adbrsync.Core.Plan.Loop.{build-dirs}

abbrev pub before : Text → Text → Bool
before s t = text_leb s t && not (text_eq s t)

before_trans : (s t u : Text) → before s t ≡ true → before t u ≡ true → before s u ≡ true
before_trans s t u h k = ground (
  arith,
  text_leb_trans s t u,
  text_leb_antisymm s t,
  text_eq_iff s t,
  text_eq_iff s u,
  text_eq_iff t u,
)

dedup_after_step :
    (x y : Text) (ys : List Text)
    → dedup_after x (y ∷ ys) ≡ (if text_eq y x then dedup_after x ys else y ∷ dedup_after y ys)
unfolding dedup_after
dedup_after_step x y ys = ground arith

dedup_after-Sorted :
    (x : Text) (xs : List Text) → Sorted text_leb (x ∷ xs) → Sorted before (x ∷ dedup_after x xs)
dedup_after-Sorted x [] s = unfold dedup_after in (tt, tt)
dedup_after-Sorted x (y ∷ ys) s = elim (Bool-cases (text_eq y x)) [
  | inl e ↦ rw (dedup_after_step, e) (dedup_after-Sorted x ys (s.0.1, s.1.1))
  | inr e ↦
      let xy : before x y ≡ true = ground (arith, s.0.0, text_eq_iff x y, text_eq_iff y x) in
      let rest = dedup_after-Sorted y ys s.1 in
      rw (dedup_after_step, e) ((xy, All-map _ _ _ (λ t h. before_trans x y t xy h) rest.0), rest)
]

dedup-Sorted : (xs : List Text) → Sorted text_leb xs → Sorted before (dedup xs)
unfolding dedup
dedup-Sorted [] s = tt
dedup-Sorted (x ∷ xs) s = dedup_after-Sorted x xs s

abbrev pub listed : Text → List Text → Bool
listed rel = any (λ t. text_eq t rel)

listed-dedup_after :
    (rel x : Text) (xs : List Text)
    → (text_eq x rel || listed rel (dedup_after x xs)) ≡ (text_eq x rel || listed rel xs)
unfolding dedup_after
listed-dedup_after rel x [] = refl
listed-dedup_after rel x (y ∷ ys) = ground (
  arith,
  text_eq_iff y x,
  text_eq_iff y rel,
  text_eq_iff x rel,
  listed-dedup_after rel x ys,
  listed-dedup_after rel y ys,
)

listed-dedup : (rel : Text) (xs : List Text) → listed rel (dedup xs) ≡ listed rel xs
unfolding dedup
listed-dedup rel [] = refl
listed-dedup rel (x ∷ xs) = listed-dedup_after rel x xs

-- The entry is an accepted directory at this path.
abbrev pub is_dir_at : (Text → Bool) → Text → RemoteEntry → Bool
is_dir_at accepts rel e =
    not (is_empty e.rel)
    && accepts e.rel
    && (elim e.kind [ dir ↦ true | file ↦ false | symlink ↦ false ])
    && text_eq e.rel rel

listed-planned_dir :
    (accepts : Text → Bool) (rel : Text) (es : List RemoteEntry)
    → listed rel (filter_map (planned_dir accepts) es) ≡ any (is_dir_at accepts rel) es
listed-planned_dir accepts rel [] = refl
listed-planned_dir accepts rel (e ∷ es) = ground (arith, listed-planned_dir accepts rel es)

module _ (accepts : Text → Bool) (dests : List DestState) (opts : PlanOptions) where
  -- The plan lists exactly the accepted directories of the scan, each once, in ascending order, so
  -- that a directory is created before those inside it.
  pub dirs_exact :
      (es : List RemoteEntry)
      → Sorted before (build accepts dests opts es).dirs
        × ((rel : Text)
            → listed rel (build accepts dests opts es).dirs ≡ any (is_dir_at accepts rel) es)
  dirs_exact es = rw build-dirs (
    dedup-Sorted _ (sort_by-Sorted text_leb text_leb_trans text_leb_total _),
    λ rel. listed-dedup rel _ ∙ any-sort_by text_leb _ _ ∙ listed-planned_dir accepts rel es,
  )
