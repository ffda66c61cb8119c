-- ===== src/Core/Checksum/Matching.antt =====
-- Which files count as the same by their contents.
use adbrsync.Common.{
  ◌≡◌, arith, Bool, ◌&&◌, ◌||◌, List, [], ◌∷◌, any, Option, none, false, if◌then◌else◌,
}
use adbrsync.Common.Text.{Text, text_eq}
use adbrsync.Common.Result.{Result}
use adbrsync.Common.Maps.{add}
use adbrsync.Core.Entry.{FilePath, RemoteEntry, LocalEntry}
use adbrsync.Core.Digests.{matches}
use adbrsync.Core.Error.{CoreError}
use adbrsync.Core.Checksum.{digests_agree, local_digests, match_all, compare_one}

module _ (sh : Text → Result CoreError Text) (hash : FilePath → Option Text)
    (candidates : List RemoteEntry) where
  match_all_lem :
      (remote local : Text → Option Text) (es : List RemoteEntry) (matched : Text → Bool)
      (rel : Text)
      → match_all sh hash candidates remote local es matched rel ≡ (
          matched rel
          || any
              (λ e.
                text_eq e.rel rel
                && digests_agree sh hash candidates (remote e.remote) (local e.remote))
              es)
  match_all_lem remote local [] matched rel = ground arith
  match_all_lem remote local (e ∷ es) matched rel = ground (
    arith,
    match_all_lem remote local es
        (if digests_agree sh hash candidates (remote e.remote) (local e.remote)
          then add e.rel matched
          else matched)
        rel,
  )

  -- A path counts as the same exactly if some candidate of that path has a digest from the device
  -- and one from the destination, and the two are equal.
  pub matches-compare_one :
      (remote : Text → Option Text) (root : FilePath) (present : Text → Option LocalEntry)
      (rel : Text)
      → let local = local_digests sh hash candidates root present candidates (λ key. none) in
        matches (compare_one sh hash candidates remote root present) rel
        ≡ any
            (λ e.
              text_eq e.rel rel
              && digests_agree sh hash candidates (remote e.remote) (local e.remote))
            candidates
  unfolding compare_one
  matches-compare_one remote root present rel =
      match_all_lem remote (local_digests sh hash candidates root present candidates (λ key. none))
        candidates (λ r. false) rel
