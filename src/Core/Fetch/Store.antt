-- ===== src/Core/Fetch/Store.antt =====
-- What the operations of a fetch do to the files, and what holds at every moment of them.
use adbrsync.Common.{◌≡◌, ◌≢◌, refl, ◌∙◌, List, [], ◌∷◌, ◌++◌}
use adbrsync.Common.{Option, none, some, if◌then◌else◌, inl, inr, Bool-cases, All}
use adbrsync.Common.Text.{Text}
use adbrsync.Core.Entry.{FilePath, path_eq, path_eq_iff}
use adbrsync.Core.Fetch.{FsOp, created, wrote, renamed, removed}

-- The content of each file.
abbrev pub Fs : Type 0
Fs = FilePath → Option Text

abbrev pub put_file : FilePath → Option Text → Fs → Fs
put_file q v fs p = if path_eq p q then v else fs p

abbrev pub apply : FsOp → Fs → Fs
apply (created q) fs = put_file q (some []) fs
apply (wrote q c) fs = put_file q (some c) fs
apply (renamed q r) fs = put_file r (fs q) (put_file q none fs)
apply (removed q) fs = put_file q none fs

unfoldable pub run : List FsOp → Fs → Fs
run [] fs = fs
run (o ∷ os) fs = run os (apply o fs)

-- `P` holds at first and after each of the operations.
unfoldable pub Always : (Fs → Type 0) → List FsOp → Fs → Type 0
Always P [] fs = P fs
Always P (o ∷ os) fs = P fs × Always P os (apply o fs)

-- An operation that does not write at `p`.
abbrev pub Spares : FilePath → FsOp → Type 0
Spares p (created q) = p ≢ q
Spares p (wrote q c) = p ≢ q
Spares p (renamed q r) = (p ≢ q) × (p ≢ r)
Spares p (removed q) = p ≢ q

pub put_file-other : (p q : FilePath) (v : Option Text) (fs : Fs) → p ≢ q → put_file q v fs p ≡ fs p
put_file-other p q v fs h = elim (Bool-cases (path_eq p q)) [
  | inl e ↦ absurd (h ((path_eq_iff p q).0 e))
  | inr e ↦ rw e refl
]

pub put_file-same : (q : FilePath) (v : Option Text) (fs : Fs) → put_file q v fs q ≡ v
put_file-same q v fs = rw ((path_eq_iff q q).1 refl) refl

pub apply-spared : (p : FilePath) (o : FsOp) (fs : Fs) → Spares p o → apply o fs p ≡ fs p
apply-spared p (created q) fs h = put_file-other p q (some []) fs h
apply-spared p (wrote q c) fs h = put_file-other p q (some c) fs h
apply-spared p (renamed q r) fs h =
    put_file-other p r (fs q) (put_file q none fs) h.1 ∙ put_file-other p q none fs h.0
apply-spared p (removed q) fs h = put_file-other p q none fs h

pub run-append : (os more : List FsOp) (fs : Fs) → run (os ++ more) fs ≡ run more (run os fs)
unfolding run
run-append [] more fs = refl
run-append (o ∷ os) more fs = run-append os more (apply o fs)

pub run-spared : (p : FilePath) (os : List FsOp) (fs : Fs) → All (Spares p) os → run os fs p ≡ fs p
unfolding run
run-spared p [] fs h = refl
run-spared p (o ∷ os) fs h = run-spared p os (apply o fs) h.1 ∙ apply-spared p o fs h.0

module _ (P : Fs → Type 0) where
  pub Always-append :
      (os more : List FsOp) (fs : Fs)
      → Always P os fs
      → Always P more (run os fs)
      → Always P (os ++ more) fs
  unfolding Always run
  Always-append [] more fs h k = k
  Always-append (o ∷ os) more fs h k = (h.0, Always-append os more (apply o fs) h.1 k)

  pub Always-weaken :
      (Q : Fs → Type 0) (os : List FsOp) (fs : Fs)
      → ((g : Fs) → P g → Q g)
      → Always P os fs
      → Always Q os fs
  unfolding Always
  Always-weaken Q [] fs w h = w fs h
  Always-weaken Q (o ∷ os) fs w h = (w fs h.0, Always-weaken Q os (apply o fs) w h.1)

-- Operations that spare `p` keep what is known of its content.
pub Always-spared :
    (p : FilePath) (c : Option Text) (os : List FsOp) (fs : Fs)
    → fs p ≡ c
    → All (Spares p) os
    → Always (λ g. g p ≡ c) os fs
unfolding Always
Always-spared p c [] fs e h = e
Always-spared p c (o ∷ os) fs e h =
    (e, Always-spared p c os (apply o fs) (apply-spared p o fs h.0 ∙ e) h.1)
