-- ===== src/Core/Fetch/Moves.antt =====
-- The operations of `fetch_one` on the temporary files and the moves into place.
use adbrsync.Common.{ℕ, ◌≡◌, ◌≢◌, sym, ap, ◌∙◌, Bool, true, false, List, [], ◌∷◌}
use adbrsync.Common.{Option, none, some, inl, inr, ◌⊎◌, All, All-map, map, Option-cases, Bool-cases}
use adbrsync.Common.Text.{Text}
use adbrsync.Core.Entry.{FilePath, path_eq}
use adbrsync.Core.Plan.{TransferItem}
use adbrsync.Core.Fanout.{is_open}
use adbrsync.Core.Fanout.Progress.{AllTaken}
use adbrsync.Core.Fetch.{
  Host, FsOp, wrote, renamed, removed, Target, Settled, writes, creations, removals,
}
use adbrsync.Core.Fetch.{settle_one, settle}
use adbrsync.Core.Fetch.Store.{
  Fs, apply, run, Always, Always-append, Spares, run-spared, apply-spared,
}
use adbrsync.Core.Fetch.Store.{put_file-same}

-- No target is written to `p` before it is complete.
abbrev pub TempsSpare : FilePath → List Target → Type 0
TempsSpare p = All (λ t. p ≢ t.temp_path)

-- The paths of `a` do not touch the temporary file of `b`, and the two files are not the same.
abbrev pub Apart : Target → Target → Type 0
Apart a b =
    (b.temp_path ≢ a.temp_path) × (b.temp_path ≢ a.final_path) × (b.final_path ≢ a.final_path)

abbrev pub AllApart : List Target → Type 0
AllApart [] = Unit
AllApart (t ∷ ts) = All (Apart t) ts × AllApart ts

-- The temporary file of each open target holds `t`.
abbrev pub Ready : Text → List Target → List Bool → Fs → Type 0
Ready t [] os g = Unit
Ready t (x ∷ xs) [] g = Unit
Ready t (x ∷ xs) (true ∷ os) g = (g x.temp_path ≡ some t) × Ready t xs os g
Ready t (x ∷ xs) (false ∷ os) g = Ready t xs os g

pub creations-Spares :
    (p : FilePath) (ts : List Target) → TempsSpare p ts → All (Spares p) (creations ts)
creations-Spares p [] h = tt
creations-Spares p (t ∷ ts) h = (h.0, creations-Spares p ts h.1)

pub removals-Spares :
    (p : FilePath) (ts : List Target) → TempsSpare p ts → All (Spares p) (removals ts)
removals-Spares p [] h = tt
removals-Spares p (t ∷ ts) h = (h.0, removals-Spares p ts h.1)

pub writes-Spares :
    (p : FilePath) (ts : List Target) (files : List (Option Text))
    → TempsSpare p ts
    → All (Spares p) (writes ts files)
unfolding writes
writes-Spares p [] files h = tt
writes-Spares p (t ∷ ts) [] h = tt
writes-Spares p (t ∷ ts) (none ∷ files) h = writes-Spares p ts files h.1
writes-Spares p (t ∷ ts) (some c ∷ files) h = (h.0, writes-Spares p ts files h.1)

spared_by : (t : Target) (ts : List Target) → All (Apart t) ts → TempsSpare t.temp_path ts
spared_by t ts h = All-map _ _ ts (λ b a e. a.0 (sym e)) h

-- Once the open files' bytes are written, the temporary files hold them.
pub writes-Ready :
    (t : Text) (ts : List Target) (files : List (Option Text)) (fs : Fs)
    → AllTaken t (map (λ x. some []) ts) files
    → AllApart ts
    → Ready t ts (map is_open files) (run (writes ts files) fs)
unfolding writes run
writes-Ready t [] [] fs h a = tt
writes-Ready t [] (f ∷ files) fs h a = tt
writes-Ready t (x ∷ xs) [] fs h a = tt
writes-Ready t (x ∷ xs) (none ∷ files) fs h a = writes-Ready t xs files fs h.1 a.1
writes-Ready t (x ∷ xs) (some c ∷ files) fs h a = (
  run-spared x.temp_path (writes xs files) (apply (wrote x.temp_path c) fs)
        (writes-Spares x.temp_path xs files (spared_by x xs a.0))
      ∙ put_file-same x.temp_path (some c) fs
      ∙ ap some h.0,
  writes-Ready t xs files (apply (wrote x.temp_path c) fs) h.1 a.1,
)

pub Ready-rest :
    (t : Text) (x : Target) (xs : List Target) (o : Bool) (os : List Bool) (g : Fs)
    → Ready t (x ∷ xs) (o ∷ os) g
    → Ready t xs os g
Ready-rest t x xs true os g r = r.1
Ready-rest t x xs false os g r = r

-- An operation that spares the temporary files keeps them ready.
Ready-kept :
    (t : Text) (ts : List Target) (os : List Bool) (o : FsOp) (g : Fs)
    → All (λ x. Spares x.temp_path o) ts
    → Ready t ts os g
    → Ready t ts os (apply o g)
Ready-kept t [] os o g h r = tt
Ready-kept t (x ∷ xs) [] o g h r = tt
Ready-kept t (x ∷ xs) (true ∷ os) o g h r =
    (apply-spared x.temp_path o g h.0 ∙ r.0, Ready-kept t xs os o g h.1 r.1)
Ready-kept t (x ∷ xs) (false ∷ os) o g h r = Ready-kept t xs os o g h.1 r

-- What a reader of `p` finds: the old content, or the complete new one.
abbrev pub Whole : FilePath → Option Text → Text → Fs → Type 0
Whole p before t g = (g p ≡ before) ⊎ (g p ≡ some t)

module _ (lossy : Text → Text) (host : Host) (dests : ℕ → FilePath) (item : TransferItem)
    (preserve_mtime : Bool) (bytes : ℕ) where
  -- One round of the loop keeps the temporary files of the targets to come.
  pub settle_one-Ready :
      (t : Text) (x : Target) (xs : List Target) (o : Bool) (os : List Bool) (st : Settled) (g : Fs)
      → All (Apart x) xs
      → Ready t xs os g
      → Ready t xs os (run (settle_one lossy host dests item preserve_mtime bytes x o st).0 g)
  unfolding settle_one run
  settle_one-Ready t x xs false os st g a r =
      Ready-kept t xs os (removed x.temp_path) g (All-map _ _ xs (λ b k. k.0) a) r
  settle_one-Ready t x xs true os st g a r =
      elim (Option-cases (host.rename x.temp_path x.final_path)) [
        | inl e ↦
            rw (settle_one, e)
              (Ready-kept t xs os (renamed x.temp_path x.final_path) g
                (All-map _ _ xs (λ b (k, l, m). (k, l)) a) r)
        | inr (m, e) ↦
            rw (settle_one, e)
              (Ready-kept t xs os (removed x.temp_path) g (All-map _ _ xs (λ b k. k.0) a) r)
      ]

  -- A path that is neither a target's temporary name nor its file is not touched.
  pub settle-Spares :
      (p : FilePath) (ts : List Target) (os : List Bool) (st : Settled)
      → All (λ x. (p ≢ x.temp_path) × (p ≢ x.final_path)) ts
      → All (Spares p) (settle lossy host dests item preserve_mtime bytes ts os st).0
  unfolding settle settle_one
  settle-Spares p [] os st h = tt
  settle-Spares p (x ∷ xs) [] st h = tt
  settle-Spares p (x ∷ xs) (false ∷ os) st h = (h.0.0, settle-Spares p xs os st h.1)
  settle-Spares p (x ∷ xs) (true ∷ os) st h =
      elim (Option-cases (host.rename x.temp_path x.final_path)) [
        | inl e ↦ rw (settle, settle_one, e) (h.0, settle-Spares p xs os _ h.1)
        | inr (m, e) ↦ rw (settle, settle_one, e) (h.0.0, settle-Spares p xs os _ h.1)
      ]

  module _ (t : Text) (p : FilePath) (before : Option Text) where
    Whole-spared :
        (o : FsOp) (g : Fs) → Spares p o → Whole p before t g → Whole p before t (apply o g)
    Whole-spared o g h (inl e) = inl (apply-spared p o g h ∙ e)
    Whole-spared o g h (inr e) = inr (apply-spared p o g h ∙ e)

    Whole-renamed :
        (x : Target) (g : Fs)
        → p ≢ x.temp_path
        → g x.temp_path ≡ some t
        → Whole p before t g
        → Whole p before t (apply (renamed x.temp_path x.final_path) g)
    Whole-renamed x g h r w = elim (Bool-cases (path_eq p x.final_path)) [
      | inl e ↦ inr (rw e r)
      | inr e ↦ rw e (Whole-spared (removed x.temp_path) g h w)
    ]

    removed-Whole :
        (x : Target) (g : Fs)
        → p ≢ x.temp_path
        → Whole p before t g
        → Always (Whole p before t) (removed x.temp_path ∷ []) g
          × Whole p before t (run (removed x.temp_path ∷ []) g)
    unfolding Always run
    removed-Whole x g h w =
        let after = Whole-spared (removed x.temp_path) g h w in ((w, after), after)

    -- One round of the loop.
    settle_one-Whole :
        (x : Target) (xs : List Target) (o : Bool) (os : List Bool) (st : Settled) (g : Fs)
        → p ≢ x.temp_path
        → Ready t (x ∷ xs) (o ∷ os) g
        → Whole p before t g
        → (let ops = (settle_one lossy host dests item preserve_mtime bytes x o st).0 in
            Always (Whole p before t) ops g × Whole p before t (run ops g))
    unfolding settle_one Always run
    settle_one-Whole x xs false os st g h r w = removed-Whole x g h w
    settle_one-Whole x xs true os st g h r w =
        elim (Option-cases (host.rename x.temp_path x.final_path)) [
          | inl e ↦ let after = Whole-renamed x g h r.0 w in rw (settle_one, e) ((w, after), after)
          | inr (m, e) ↦ rw (settle_one, e) (removed-Whole x g h w)
        ]

    pub settle-Always :
        (ts : List Target) (os : List Bool) (st : Settled) (g : Fs)
        → TempsSpare p ts
        → AllApart ts
        → Ready t ts os g
        → Whole p before t g
        → Always (Whole p before t) (settle lossy host dests item preserve_mtime bytes ts os st).0 g
    unfolding settle Always
    settle-Always [] os st g h a r w = w
    settle-Always (x ∷ xs) [] st g h a r w = w
    settle-Always (x ∷ xs) (o ∷ os) st g h a r w =
        let k = settle_one-Whole x xs o os st g h.0 r w in
        Always-append (Whole p before t) _ _ g k.0 (
          settle-Always xs os _ _ h.1 a.1
            (settle_one-Ready t x xs o os st g a.0 (Ready-rest t x xs o os g r)) k.1)
