-- ===== src/Cli/Info.antt =====
-- crates/adbrsync-cli/src/info.rs and `resolve_info` of main.rs: which outputs are switched on.
use adbrsync.Common.{
  ℕ, ◌+◌, ◌≤◌, ◌≡◌, refl, arith, min, max, Bool, true, false, ◌&&◌, not, leb, ltb,
}
use adbrsync.Common.{
  ◌⊎◌, inl, ◌==◌, if◌then◌else◌, List, [], ◌∷◌, ◌++◌, map, keep, Option, none, some,
}
use adbrsync.Common.Text.{Text, codes, text_eq, is_empty, split}
use adbrsync.Common.Words.{trim}
use adbrsync.Core.Records.{parse_unsigned}

pub record InfoFlags : Type 0 where
  pub progress : ℕ
  pub stats : ℕ
  pub name : ℕ

pub data ParseOutcome : Type 0 where
  help : ParseOutcome
  flags : (flags : InfoFlags) (unknown : List Text) (progress_promoted : Bool) → ParseOutcome

-- `to_ascii_lowercase`
abbrev pub lowercase : Text → Text
lowercase = map (λ c. if leb 65 c && leb c 90 then c + 32 else c)

abbrev pub is_digit : ℕ → Bool
is_digit c = leb 48 c && leb c 57

-- A text and the digits at its end.
unfoldable pub split_digits : Text → Text × Text
split_digits [] = ([], [])
split_digits (c ∷ s) =
    let (name, digits) = split_digits s in
    if is_empty name && is_digit c then ([], c ∷ digits) else (c ∷ name, digits)

unfoldable pub split_level : Text → Text × Option ℕ
unfolding split_digits
split_level item =
    let (name, digits) = split_digits item in
    if is_empty digits then (item, none) else (name, parse_unsigned 10 8 digits)

abbrev pub or_one : Option ℕ → ℕ
or_one none = 1
or_one (some n) = n

abbrev pub no_flags : InfoFlags
no_flags = record { progress = 0; stats = 0; name = 0 }

-- The `match` on a flag's name.
unfoldable pub set_flag : Text → Option ℕ → InfoFlags → List Text → Bool → ParseOutcome
set_flag name level f unknown promoted =
    let low = lowercase name in
    if text_eq low (codes "all")
    then flags (record { progress = 2; stats = 1; name = 1 }) unknown promoted
    else if text_eq low (codes "none")
    then flags no_flags unknown promoted
    else if text_eq low (codes "progress")
    then flags (record f { progress = if or_one level == 0 then 0 else 2 }) unknown
        (if or_one level == 1 then true else promoted)
    else if text_eq low (codes "stats")
    then flags (record f { stats = min (or_one level) 1 }) unknown promoted
    else if text_eq low (codes "name")
    then flags (record f { name = min (or_one level) 1 }) unknown promoted
    else flags f (unknown ++ name ∷ []) promoted

-- The loop over the items; an item that asks for help ends it.
unfoldable pub parse_items : ParseOutcome → List Text → ParseOutcome
unfolding set_flag split_level
parse_items help items = help
parse_items (flags f unknown promoted) [] = flags f unknown promoted
parse_items (flags f unknown promoted) (item ∷ items) =
    elim (text_eq (lowercase item) (codes "help")) [
      | true ↦ help
      | false ↦
          let (name, level) = split_level item in
          parse_items (set_flag name level f unknown promoted) items
    ]

unfoldable pub parse : Text → ParseOutcome
unfolding parse_items
parse spec =
    parse_items (flags no_flags [] false)
      (keep (λ s. not (is_empty s)) (map trim (split b',' spec)))

-- The larger level of each; a request for help leaves none.
abbrev pub merged : InfoFlags → ParseOutcome → Option InfoFlags
merged f help = none
merged f (flags parsed unknown promoted) = some (record {
  progress = max f.progress parsed.progress;
  stats = max f.stats parsed.stats;
  name = max f.name parsed.name;
})

-- The switches of the command line that bear on it: `--progress`, `--stats`, the number of `-v`, and
-- `--info`. The warnings are left out.
unfoldable pub resolve_info : Bool → Bool → ℕ → Option Text → Option InfoFlags
unfolding parse
resolve_info progress stats verbose info =
    let f : InfoFlags = record {
      progress = if progress then 2 else 0;
      stats = if stats then 1 else 0;
      name = if ltb 0 verbose then 1 else 0;
    } in
    elim info [ none ↦ some f | some spec ↦ merged f (parse spec) ]

-- The levels are 0 or 2 for progress, and 0 or 1 for the others.
abbrev pub IsLevels : InfoFlags → Type 0
IsLevels f = ((f.progress ≡ 0) ⊎ (f.progress ≡ 2)) × (f.stats ≤ 1) × (f.name ≤ 1)

abbrev HasLevels : ParseOutcome → Type 0
HasLevels help = Unit {0}
HasLevels (flags f unknown promoted) = IsLevels f

set_flag-HasLevels :
    (name : Text) (level : Option ℕ) (f : InfoFlags) (unknown : List Text) (promoted : Bool)
    → IsLevels f
    → HasLevels (set_flag name level f unknown promoted)
unfolding set_flag
set_flag-HasLevels name level f unknown promoted h = ground (arith, h)

parse_items-HasLevels :
    (o : ParseOutcome) (items : List Text) → HasLevels o → HasLevels (parse_items o items)
unfolding parse_items
parse_items-HasLevels help items h = tt
parse_items-HasLevels (flags f unknown promoted) [] h = h
parse_items-HasLevels (flags f unknown promoted) (item ∷ items) h = ground (
  arith,
  parse_items-HasLevels (set_flag (split_level item).0 (split_level item).1 f unknown promoted)
      items (set_flag-HasLevels (split_level item).0 (split_level item).1 f unknown promoted h),
)

parse-HasLevels : (spec : Text) → HasLevels (parse spec)
unfolding parse
parse-HasLevels spec =
    parse_items-HasLevels (flags no_flags [] false) _ (inl refl, omega arith, omega arith)

merged-IsLevels :
    (old f : InfoFlags) (o : ParseOutcome)
    → IsLevels old
    → HasLevels o
    → merged old o ≡ some f
    → IsLevels f × (old.progress ≤ f.progress) × (old.stats ≤ f.stats) × (old.name ≤ f.name)
merged-IsLevels old f help h k e = ground (arith, e)
merged-IsLevels old f (flags g unknown promoted) h k e = ground (arith, h, k, e)

-- Whatever the command line says, the levels that it resolves to are in range, and an output that an
-- older switch turns on stays on.
pub resolve_info-IsLevels :
    (progress stats : Bool) (verbose : ℕ) (info : Option Text) (f : InfoFlags)
    → resolve_info progress stats verbose info ≡ some f
    → IsLevels f
      × ((if progress then 2 else 0) ≤ f.progress)
      × ((if stats then 1 else 0) ≤ f.stats)
      × ((if ltb 0 verbose then 1 else 0) ≤ f.name)
unfolding resolve_info
resolve_info-IsLevels progress stats verbose none f h = ground (arith, h)
resolve_info-IsLevels progress stats verbose (some spec) f h =
    merged-IsLevels _ f (parse spec) (ground arith) (parse-HasLevels spec) h
