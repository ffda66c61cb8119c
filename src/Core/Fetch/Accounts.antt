-- ===== src/Core/Fetch/Accounts.antt =====
-- `fetch_one` accounts for every destination that a file is bound for.
use adbrsync.Common.{ℕ, zero, suc, ◌^◌, ◌<◌, ◌≡◌, refl, sym, ap, ◌∙◌, arith, Bool, true, false}
use adbrsync.Common.{is_nil, map, List, [], ◌∷◌, ◌++◌, Option, none, some, inl, inr, ◌⊎◌}
use adbrsync.Common.{Bool-cases, get_elem?, any, ◌==◌, ==_iff}
use adbrsync.Common.Text.{Text}
use adbrsync.Common.Result.{Result, ok, err, Result-cases}
use adbrsync.Proto.Stream.{Stream}
use adbrsync.Proto.Sync.{recv}
use adbrsync.Proto.Sync.Outputs.{take_in, RecvPost}
use adbrsync.Core.Entry.{FilePath, safe_join}
use adbrsync.Core.Plan.{TransferItem}
use adbrsync.Core.Fanout.{Fanout, flush_all, finish, is_open}
use adbrsync.Core.Fanout.Output.{write_out}
use adbrsync.Core.Fanout.Progress.{AllTaken}
use adbrsync.Core.Fanout.Named.{IsNamed}
use adbrsync.Core.Destinations.{DestStats}
use adbrsync.Core.Fetch.{
  Host, Target, FetchOutcome, open_target, open_targets, conclude_fetch, fetch_one,
}
use adbrsync.Core.Error.{CoreError}
use adbrsync.Core.Fetch.{FsOp, Settled, give_up, creations, writes, settle, settle_writes}
use adbrsync.Core.Fetch.Clashes.{RootsApart, NamesEntry, open_targets-AllApart}
use adbrsync.Core.Fetch.Receiving.{IsReceiving, IsCounted}
use adbrsync.Core.Fetch.Received.{Received, received, flush-AllTaken, flush-IsNamed}
use adbrsync.Core.Fetch.Store.{Fs, run, run-append}
use adbrsync.Core.Fetch.Moves.{AllApart, Ready, writes-Ready}
use adbrsync.Core.Fetch.Reports.{
  Reports, Reports-first, settle_writes-kept, settle_writes-Reports, settle-kept,
}
use adbrsync.Core.Fetch.Placed.{settle-Placed}
use adbrsync.Core.Fetch.Atomic.{whole, sent}

module _ (lossy : Text → Text) (host : Host) (dests : ℕ → FilePath) (item : TransferItem)
    (stats : ℕ → DestStats) where
  -- The destination `i` has a target at its path, or is reported.
  abbrev Opened : ℕ → List Target → List (ℕ × Text) → Type 0
  Opened i ts failed =
      Reports i failed
      ⊎ ((k : ℕ) × (x : Target) × (get_elem? ts k ≡ some x)
          × (x.dest ≡ i)
          × (safe_join (dests i) item.rel ≡ some x.final_path))

  open_target-path :
      (i : ℕ) (x : Target)
      → open_target lossy host dests item i ≡ ok x
      → (x.dest ≡ i) × (safe_join (dests i) item.rel ≡ some x.final_path)
  unfolding open_target
  open_target-path i x e = ground arith

  more_targets :
      (i : ℕ) (x : Target) (ts : List Target) (failed : List (ℕ × Text))
      → Opened i ts failed
      → Opened i (x ∷ ts) failed
  more_targets i x ts failed (inl h) = inl h
  more_targets i x ts failed (inr (k, y, e, d, path)) = inr (suc k, y, e, d, path)

  more_failures :
      (i : ℕ) (f : ℕ × Text) (ts : List Target) (failed : List (ℕ × Text))
      → Opened i ts failed
      → Opened i ts (f ∷ failed)
  more_failures i f ts failed (inl h) = inl (ground (arith, h))
  more_failures i f ts failed (inr h) = inr h

  first-Opened :
      (i : ℕ) (js : List ℕ)
      → (stats i).disabled ≡ false
      → (let r = open_targets lossy host dests item stats (i ∷ js) in Opened i r.0 r.1)
  unfolding open_targets
  first-Opened i js d = elim (Result-cases (open_target lossy host dests item i)) [
    | inl (x, e) ↦
        rw (open_targets, d, e)
          (let (d', path) = open_target-path i x e in inr (zero, x, refl, d', path))
    | inr (m, e) ↦ rw (open_targets, d, e) (inl (ground arith))
  ]

  later-Opened :
      (j : ℕ) (js : List ℕ) (i : ℕ)
      → (let r = open_targets lossy host dests item stats js in Opened i r.0 r.1)
      → (let r = open_targets lossy host dests item stats (j ∷ js) in Opened i r.0 r.1)
  unfolding open_targets
  later-Opened j js i h = elim (Bool-cases (stats j).disabled) [
    | inl d ↦ rw (open_targets, d) h
    | inr d ↦ elim (Result-cases (open_target lossy host dests item j)) [
      | inl (x, e) ↦ rw (open_targets, d, e) (more_targets i x _ _ h)
      | inr (m, e) ↦ rw (open_targets, d, e) (more_failures i (j, m) _ _ h)
    ]
  ]

  open_targets-Opened :
      (js : List ℕ) (i : ℕ)
      → any (λ j. j == i) js ≡ true
      → (stats i).disabled ≡ false
      → (let r = open_targets lossy host dests item stats js in Opened i r.0 r.1)
  open_targets-Opened [] i h d = cc
  open_targets-Opened (j ∷ js) i h d = elim (Bool-cases (j == i)) [
    | inl e ↦ rw ((==_iff j i).0 e) (first-Opened i js d)
    | inr e ↦ later-Opened j js i (open_targets-Opened js i (ground arith) d)
  ]

-- A target's file is closed or open.
file_state :
    (t : Text) (ts : List Target) (files : List (Option Text)) (k : ℕ) (x : Target)
    → AllTaken t (map (λ y. some []) ts) files
    → get_elem? ts k ≡ some x
    → (get_elem? files k ≡ some none) ⊎ (get_elem? (map is_open files) k ≡ some true)
file_state t [] files k x h e = cc
file_state t (y ∷ ys) [] k x h e = absurd h
file_state t (y ∷ ys) (none ∷ files) zero x h e = inl refl
file_state t (y ∷ ys) (some c ∷ files) zero x h e = inr refl
file_state t (y ∷ ys) (f ∷ files) (suc k) x h e = file_state t ys files k x h.1 e

module _ (lossy : Text → Text) (host : Host) (dests : ℕ → FilePath) (item : TransferItem)
    (preserve_mtime : Bool) (stats : ℕ → DestStats) (counter : ℕ) (session : Stream) where
  -- The file is at the destination `i` as the device sent it.
  abbrev pub Arrived : ℕ → List FsOp → Fs → Type 0
  Arrived i ops fs =
      (path : FilePath) × (t : Text) × (safe_join (dests i) item.rel ≡ some path)
      × (sent lossy item.remote session ≡ some t)
      × (run ops fs path ≡ some t)

  abbrev Accounted : ℕ → Result CoreError FetchOutcome → List FsOp → Fs → Type 0
  Accounted i (ok o) ops fs = Reports i o.failed ⊎ Arrived i ops fs
  Accounted i (err e) ops fs = Unit

  conclude-Accounted :
      (i : ℕ) (fs : Fs) (ts : List Target) (failed : List (ℕ × Text)) (noted : ℕ → DestStats)
      (o : Received)
      → AllApart ts
      → Opened lossy host dests item stats i ts failed
      → RecvPost lossy write_out
          (IsReceiving (map (λ t. some []) ts) counter)
          (IsCounted counter)
          (recv lossy take_in item.remote [] session)
          o
      → (let r = conclude_fetch lossy host dests item preserve_mtime ts failed noted o in
          Accounted i r.result r.ops fs)
  unfolding conclude_fetch RecvPost sent finish
  conclude-Accounted i fs ts failed noted (err e, w, s) apart h p = tt
  conclude-Accounted i fs ts failed noted (ok n, w, s) apart h (t, g, e) = elim h [
    | inl reported ↦ inl (kept i (settle_writes-kept ts f.failures start i reported))
    | inr (k, x, at_k, d, path) ↦ rw (sym d) (elim (file_state t ts f.files k x taken at_k) [
      | inl closed ↦
          inl (kept x.dest (settle_writes-Reports ts f.failures start k x at_k (named k closed)))
      | inr opened ↦
          elim (settle-Placed lossy host dests item preserve_mtime n t ts (map is_open f.files) st
            before k x at_k opened apart ready) [
              | inl reported ↦ inl (Reports-first x.dest _ _ reported)
              | inr arrived ↦ inr (
                x.final_path,
                t,
                rw (sym d) at path,
                ap whole e,
                ap (λ h. h x.final_path) moved ∙ arrived,
              )
            ]
    ])
  ]
    where
      f : Fanout
      f = flush_all host.flushes w.fanout

      taken : AllTaken t (map (λ x. some []) ts) f.files
      taken = flush-AllTaken host t ts w.fanout g.taken

      before : Fs
      before = run (writes ts f.files) (run (creations ts) fs)

      ready : Ready t ts (map is_open f.files) before
      ready = writes-Ready t ts f.files (run (creations ts) fs) taken apart

      start : Settled
      start = record { stats = noted; failed = failed; written_off = [] }

      named : IsNamed f
      named = flush-IsNamed host w.fanout g.named

      st : Settled
      st = settle_writes ts f.failures start

      settled : List FsOp × Settled
      settled = settle lossy host dests item preserve_mtime n ts (map is_open f.files) st

      kept :
          (j : ℕ)
          → Reports j st.failed
          → Reports j (settled.1.failed ++ map give_up settled.1.written_off)
      kept j r =
          Reports-first j _ _
            (settle-kept lossy host dests item preserve_mtime n ts (map is_open f.files) st j r)

      moved : run (creations ts ++ (writes ts f.files ++ settled.0)) fs ≡ run settled.0 before
      moved =
          run-append (creations ts) (writes ts f.files ++ settled.0) fs
          ∙ run-append (writes ts f.files) settled.0 (run (creations ts) fs)

  -- After a fetch that succeeds and has opened some target, each destination that the file was
  -- bound for and that was enabled is reported as failed, or has the whole file in its place, if
  -- none of the destinations lies in another.
  pub fetch_one-accounts :
      (i : ℕ) (fs : Fs) (o : FetchOutcome)
      → counter < 2 ^ 64
      → NamesEntry item.rel
      → RootsApart dests item.targets
      → is_nil (open_targets lossy host dests item stats item.targets).0 ≡ false
      → any (λ j. j == i) item.targets ≡ true
      → (stats i).disabled ≡ false
      → (fetch_one lossy host dests item preserve_mtime stats counter session).result ≡ ok o
      → (any (λ x. x.0 == i) o.failed ≡ true)
        ⊎ Arrived i (fetch_one lossy host dests item preserve_mtime stats counter session).ops fs
  unfolding fetch_one
  fetch_one-accounts i fs o u64 named apart some_open bound enabled done =
      let r = fetch_one lossy host dests item preserve_mtime stats counter session in
      let accounted : Accounted i r.result r.ops fs =
        rw (fetch_one, some_open)
          (conclude-Accounted i fs (open_targets lossy host dests item stats item.targets).0 _ _ _
            (open_targets-AllApart lossy host dests item stats item.targets named apart)
            (open_targets-Opened lossy host dests item stats item.targets i bound enabled)
            (received lossy host item.remote counter session _ u64)) in
      rw done at accounted
