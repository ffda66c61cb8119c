-- ===== src/Core/Paths.antt =====
-- The methods of `Path` that crates/adbrsync-core/src/transfer.rs calls, and the name under which it
-- writes a file until the file is complete.
use adbrsync.Common.{[], ◌∷◌, ◌++◌, Option, none, some, if◌then◌else◌}
use adbrsync.Common.Text.{Text, codes, text_eq}
use adbrsync.Core.Entry.{FilePath}

-- `Path::parent` and `Path::file_name`: the root has neither, and `..` is no name.
unfoldable pub parent : FilePath → Option FilePath
parent [] = none
parent (c ∷ []) = some []
parent (c ∷ d ∷ p) = elim (parent (d ∷ p)) [ none ↦ none | some q ↦ some (c ∷ q) ]

unfoldable pub file_name : FilePath → Option Text
file_name [] = none
file_name (c ∷ []) = if text_eq c (codes "..") then none else some c
file_name (c ∷ d ∷ p) = file_name (d ∷ p)

-- `Path::with_file_name`: the last component is replaced if it is a name.
unfoldable pub with_file_name : FilePath → Text → FilePath
with_file_name [] name = name ∷ []
with_file_name (c ∷ []) name = if text_eq c (codes "..") then c ∷ name ∷ [] else name ∷ []
with_file_name (c ∷ d ∷ p) name = c ∷ with_file_name (d ∷ p) name

-- `unwrap_or_else` of the name, of which `to_string_lossy` makes a text.
abbrev pub shown_name : (Text → Text) → Option Text → Text
shown_name lossy none = codes "unnamed"
shown_name lossy (some n) = lossy n

unfoldable pub temp_path_for : (Text → Text) → FilePath → FilePath
unfolding with_file_name file_name
temp_path_for lossy final_path =
    with_file_name final_path
      (codes "." ++ (shown_name lossy (file_name final_path) ++ codes ".adbrsync-tmp"))
