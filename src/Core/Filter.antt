-- ===== src/Core/Filter.antt =====
-- crates/adbrsync-core/src/filter.rs. The globset crate is a parameter.
pub mod Rules
mod Examples
use adbrsync.Common.{Bool, true, false, not, List, [], ◌∷◌, ◌++◌, Option, none, some}
use adbrsync.Common.{if◌then◌else◌}
use adbrsync.Common.Text.{Text, codes, contains, trim_start, join}
use adbrsync.Common.Result.{Result, ok, err, ◌>>=◌, map_err}

-- The parts of globset that the filter calls.
pub record GlobLib : Type 1 where
  pub Glob : Type 0
  pub GlobSet : Type 0
  pub GlobError : Type 0
  pub glob_new : Text → Result GlobError Glob
  pub set_build : List Glob → Result GlobError GlobSet
  pub is_match : GlobSet → Text → Bool

module _ (G : GlobLib) where
  open G use {Glob, GlobSet, GlobError, glob_new, set_build, is_match}

  pub record Filter : Type 0 where
    pub includes : Option GlobSet
    pub excludes : Option GlobSet

  pub record FilterError : Type 0 where
    pub pattern : Text
    pub source : GlobError

  -- A pattern without a slash matches at any depth.
  abbrev pub expanded : Text → Text
  expanded pattern =
      if contains pattern b'/' then trim_start b'/' pattern else codes "**/" ++ pattern

  -- The plain glob that is added beside `**/pattern`; one that does not parse is left out.
  abbrev pub plain : Text → List Glob
  plain pattern =
      if contains pattern b'/' then [] else (elim (glob_new pattern) [ ok g ↦ g ∷ [] | err e ↦ [] ])

  -- The loop over the patterns, with the builder's globs so far.
  add_patterns : List Text → List Glob → Result FilterError (List Glob)
  add_patterns [] builder = ok builder
  add_patterns (pattern ∷ patterns) builder = do
    glob ← map_err (λ e. record { pattern = pattern; source = e }) (glob_new (expanded pattern))
    add_patterns patterns (builder ++ (glob ∷ plain pattern))

  unfoldable pub build : List Text → Result FilterError (Option GlobSet)
  unfolding add_patterns
  build [] = ok none
  build (p ∷ ps) = do
    builder ← add_patterns (p ∷ ps) []
    globs ← map_err (λ e. record { pattern = join b',' (p ∷ ps); source = e }) (set_build builder)
    ok (some globs)

  unfoldable pub new : List Text → List Text → Result FilterError Filter
  unfolding build
  new includes excludes = do
    inc ← build includes
    exc ← build excludes
    ok (record { includes = inc; excludes = exc })

  abbrev matched : Option GlobSet → Text → Bool
  matched none rel = false
  matched (some globs) rel = is_match globs rel

  unfoldable pub accepts : Filter → Text → Bool
  accepts f rel =
      if matched f.includes rel
      then true
      else (elim f.excludes [ some exc ↦ not (is_match exc rel) | none ↦ true ])
