-- ===== src/Core/Filter/Examples.antt =====
-- A filter over a toy globset, whose globs match a path that they equal.
use adbrsync.Common.{◌≡◌, refl, arith, ◌||◌, not, Bool, List, [], ◌∷◌, some, any, if◌then◌else◌}
use adbrsync.Common.Text.{Text, codes, text_eq, contains, trim_start}
use adbrsync.Common.Result.{ok, err}
use adbrsync.Core.Filter.{GlobLib, Filter, new, accepts}
use adbrsync.Core.Filter.Rules.{MatchesAny, pattern_hits, accepts-new}

abbrev toy : GlobLib
toy = record {
  Glob = Text;
  GlobSet = List Text;
  GlobError = Text;
  glob_new = λ t. if contains t b'[' then err t else ok t;
  set_build = λ gs. ok gs;
  is_match = λ gs t. any (text_eq t) gs;
}

abbrev hits : Text → Text → Bool
hits g t = text_eq t g

toy-MatchesAny : MatchesAny toy hits
toy-MatchesAny globs set path e = ground (arith, e)

abbrev filter : Filter toy
filter = record {
  includes = some (codes "keep/b" ∷ []);
  excludes = some (codes "**/b" ∷ codes "b" ∷ []);
}

filter_test : new toy (codes "/keep/b" ∷ []) (codes "b" ∷ []) ≡ ok filter
unfolding new contains trim_start
filter_test = refl

accepts-new_example : accepts toy filter (codes "b") ≡ (
    any (pattern_hits toy hits (codes "b")) (codes "/keep/b" ∷ [])
    || not (any (pattern_hits toy hits (codes "b")) (codes "b" ∷ [])))
accepts-new_example =
    accepts-new toy hits toy-MatchesAny (codes "/keep/b" ∷ []) (codes "b" ∷ []) filter (codes "b")
      filter_test
