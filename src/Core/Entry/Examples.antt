-- ===== src/Core/Entry/Examples.antt =====
-- Paths that the device may send.
use adbrsync.Common.{◌≡◌, ◌↔◌, refl, true, List, [], ◌∷◌, ◌++◌, none, some, any, All}
use adbrsync.Common.Text.{Text, codes, text_eq, contains, split}
use adbrsync.Core.Entry.{FilePath, is_refused, safe_join}
use adbrsync.Core.Entry.Confined.{IsNormal, safe_join-confined, safe_join_refuses}

abbrev root : FilePath
root = codes "backup" ∷ []

abbrev camera : FilePath
camera = codes "DCIM" ∷ codes "Camera" ∷ []

safe_join_test : safe_join root (codes "/DCIM//./Camera") ≡ some (root ++ camera)
unfolding safe_join split text_eq contains
safe_join_test = refl

safe_join-confined_example :
    (parts : List Text) × (root ++ camera ≡ root ++ parts) × All IsNormal parts
safe_join-confined_example =
    safe_join-confined root (codes "/DCIM//./Camera") (root ++ camera) safe_join_test

safe_join_refuses_example :
    (safe_join root (codes "a/../b") ≡ none) ↔ (any is_refused (split b'/' (codes "a/../b")) ≡ true)
safe_join_refuses_example = safe_join_refuses root (codes "a/../b")

camera-IsNormal : All IsNormal camera
unfolding text_eq contains
camera-IsNormal = ((refl, refl, refl, refl, refl), ((refl, refl, refl, refl, refl), tt))
