-- ===== src/Core/Filter/Rules.antt =====
-- What a filter accepts, in terms of its patterns.
use adbrsync.Common.{◌≡◌, refl, arith, Bool, false, not, ◌||◌, List, [], ◌∷◌, ◌++◌, Option}
use adbrsync.Common.{any, inl, inr}
use adbrsync.Common.Text.{Text}
use adbrsync.Common.Result.{ok, err, Result-cases}
use adbrsync.Core.Filter.{GlobLib, Filter, expanded, plain, add_patterns, build, new}
use adbrsync.Core.Filter.{matched, accepts}

pub any-append {ℓ} :
    {A : Type ℓ} (p : A → Bool) (xs ys : List A) → any p (xs ++ ys) ≡ (any p xs || any p ys)
any-append p [] ys = refl
any-append p (x ∷ xs) ys = ground (arith, any-append p xs ys)

-- What globset documents of a set: it matches a path exactly if one of its globs does.
module _ (G : GlobLib) (hits : G.Glob → Text → Bool) where
  abbrev pub MatchesAny : Type 0
  MatchesAny =
      (globs : List G.Glob) (set : G.GlobSet) (path : Text)
      → G.set_build globs ≡ ok set
      → G.is_match set path ≡ any (λ g. hits g path) globs

  -- The path is matched by a pattern: by its expansion, or by the plain glob added beside it.
  abbrev pub pattern_hits : Text → Text → Bool
  pattern_hits path pattern =
      (elim (G.glob_new (expanded G pattern)) [ ok g ↦ hits g path | err e ↦ false ])
      || any (λ g. hits g path) (plain G pattern)

  add_patterns_lem :
      (patterns : List Text) (builder globs : List G.Glob) (path : Text)
      → add_patterns G patterns builder ≡ ok globs
      → any (λ g. hits g path) globs
        ≡ (any (λ g. hits g path) builder || any (pattern_hits path) patterns)
  unfolding add_patterns
  add_patterns_lem [] builder globs path e = ground arith
  add_patterns_lem (p ∷ ps) builder globs path e = elim (Result-cases (G.glob_new (expanded G p))) [
    | inl (g, compiled) ↦ ground (
      arith,
      compiled,
      add_patterns_lem ps (builder ++ (g ∷ plain G p)) globs path,
      any-append (λ g. hits g path) builder (g ∷ plain G p),
    )
    | inr (x, refused) ↦ ground (arith, refused)
  ]

  module _ (law : MatchesAny) where
    build_lem :
        (patterns : List Text) (set : Option G.GlobSet) (path : Text)
        → build G patterns ≡ ok set
        → matched G set path ≡ any (pattern_hits path) patterns
    unfolding build
    build_lem [] set path e = ground arith
    build_lem (p ∷ ps) set path e = elim (Result-cases (add_patterns G (p ∷ ps) [])) [
      | inl (globs, added) ↦ elim (Result-cases (G.set_build globs)) [
        | inl (s, built) ↦ ground (
          arith,
          added,
          built,
          law globs s path built,
          add_patterns_lem (p ∷ ps) [] globs path added,
        )
        | inr (x, refused) ↦ ground (arith, added, refused)
      ]
      | inr (x, refused) ↦ ground (arith, refused)
    ]

    -- A path is accepted exactly if an include pattern matches it or no exclude pattern does: an
    -- include wins over an exclude, wherever the two stand on the command line.
    pub accepts-new :
        (includes excludes : List Text) (f : Filter G) (path : Text)
        → new G includes excludes ≡ ok f
        → accepts G f path
          ≡ (any (pattern_hits path) includes || not (any (pattern_hits path) excludes))
    unfolding new accepts
    accepts-new includes excludes f path e = elim (Result-cases (build G includes)) [
      | inl (inc, i) ↦ elim (Result-cases (build G excludes)) [
        | inl (exc, x) ↦
            ground (arith, i, x, build_lem includes inc path i, build_lem excludes exc path x)
        | inr (x, refused) ↦ ground (arith, i, refused)
      ]
      | inr (x, refused) ↦ ground (arith, refused)
    ]
