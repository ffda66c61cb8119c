-- ===== src/Core/Pool/Once.antt =====
-- The pool hands out every file once.
use mathlib.Core.List.{Perm}
use mathlib.Core.List.Perm
use mathlib.Core.List.{perm_append_comm}
use adbrsync.Common.{ℕ, zero, suc, ◌≡◌, refl, sym, ap, ◌∙◌, all}
use adbrsync.Common.{List, [], ◌∷◌, ◌++◌, append-nil, append_assoc, some, inl, inr}
use adbrsync.Common.{get_elem?, set, Option-cases, Bool-cases}
use adbrsync.Common.Result.{Result, ok, err}
use adbrsync.Core.Error.{CoreError}
use adbrsync.Core.Plan.{TransferItem}
use adbrsync.Core.Destinations.{DestStats, breaks_stream}
use adbrsync.Core.Fetch.{FetchOutcome}
use adbrsync.Core.Pool.{Phase, opening, idle, fetching, reopening, ended, Worker, Shared, Event}
use adbrsync.Core.Pool.{session, pull, fetch, Pool, worker_step, pool_step, run_pool, start_pool}
use adbrsync.Core.Pool.{on_open, on_reopen, on_pull, pop_front, on_fetch, repeat_worker}

-- The file that a worker is fetching.
abbrev pub in_hand : Phase → List TransferItem
in_hand (fetching item) = item ∷ []
in_hand phase = []

-- The files that a worker has taken from the queue.
abbrev pub taken : Worker → List TransferItem
taken w = w.handled ++ in_hand w.phase

abbrev pub all_taken : List Worker → List TransferItem
all_taken [] = []
all_taken (w ∷ ws) = taken w ++ all_taken ws

-- What has been taken, and what has not.
abbrev pub out_and_in : Pool → List TransferItem
out_and_in p = all_taken p.workers ++ p.shared.queue

pop_taken :
    (q : List TransferItem) (sh : Shared) (w : Worker)
    → sh.queue ≡ q
    → w.phase ≡ idle
    → (let (sh', v) = pop_front q sh w in taken v ++ sh'.queue ≡ taken w ++ q)
unfolding pop_front
pop_taken [] sh w q h = rw (q, h) refl
pop_taken (item ∷ rest) sh w q h = rw h (
    append_assoc w.handled (item ∷ []) rest
    ∙ ap (λ t. t ++ item ∷ rest) (sym (append-nil w.handled)))

pull_taken :
    (sh : Shared) (w : Worker)
    → w.phase ≡ idle
    → (let (sh', v) = on_pull sh w in taken v ++ sh'.queue ≡ taken w ++ sh.queue)
unfolding on_pull
pull_taken sh w h = elim (Bool-cases (all (λ d. d.disabled) sh.dests)) [
  | inl e ↦ rw (on_pull, e, h) refl
  | inr e ↦ rw (on_pull, e) (pop_taken sh.queue sh w refl h)
]

fetch_taken :
    (item : TransferItem) (r : Result CoreError FetchOutcome) (w : Worker)
    → w.phase ≡ fetching item
    → taken (on_fetch item r w) ≡ taken w
unfolding on_fetch
fetch_taken item (ok o) w h = rw h (append-nil (w.handled ++ item ∷ []))
fetch_taken item (err e) w h = elim (Bool-cases (breaks_stream e)) [
  | inl b ↦ rw (on_fetch, b, h) (append-nil (w.handled ++ item ∷ []))
  | inr b ↦ rw (on_fetch, b, h) (append-nil (w.handled ++ item ∷ []))
]

-- One worker's step moves at most one file, from the queue to its hands.
step_taken :
    (phase : Phase) (event : Event) (sh : Shared) (w : Worker)
    → w.phase ≡ phase
    → (let (sh', v) = worker_step phase event sh w in taken v ++ sh'.queue ≡ taken w ++ sh.queue)
unfolding worker_step on_open on_reopen
step_taken opening (session (ok u)) sh w h = rw h refl
step_taken opening (session (err e)) sh w h = rw h refl
step_taken opening pull sh w h = refl
step_taken opening (fetch r d) sh w h = refl
step_taken idle (session r) sh w h = refl
step_taken idle pull sh w h = pull_taken sh w h
step_taken idle (fetch r d) sh w h = refl
step_taken (fetching item) (session r) sh w h = refl
step_taken (fetching item) pull sh w h = refl
step_taken (fetching item) (fetch r d) sh w h = ap (λ t. t ++ sh.queue) (fetch_taken item r w h)
step_taken reopening (session (ok u)) sh w h = rw h refl
step_taken reopening (session (err e)) sh w h = rw h refl
step_taken reopening pull sh w h = refl
step_taken reopening (fetch r d) sh w h = refl
step_taken (ended e) event sh w h = refl

-- Of one worker and the queue, the rest may stand between them.
between : (a b c : List TransferItem) → Perm ((a ++ b) ++ c) ((a ++ c) ++ b)
between a b c =
    rw (append_assoc a b c, append_assoc a c b) (Perm.append_left a (perm_append_comm b c))

replaced :
    (ws : List Worker) (i : ℕ) (w v : Worker) (q r : List TransferItem)
    → get_elem? ws i ≡ some w
    → taken v ++ r ≡ taken w ++ q
    → Perm (all_taken (set ws i v) ++ r) (all_taken ws ++ q)
replaced [] i w v q r h k = cc
replaced (x ∷ ws) zero w v q r h k =
    let same : x ≡ w = cc in
    rw same (
      Perm.trans (between (taken v) (all_taken ws) r) (
        Perm.trans (Perm.append_right (all_taken ws) (rw k (Perm.refl (taken w ++ q))))
          (between (taken w) q (all_taken ws))))
replaced (x ∷ ws) (suc i) w v q r h k =
    rw (append_assoc (taken x) (all_taken (set ws i v)) r, append_assoc (taken x) (all_taken ws) q)
      (Perm.append_left (taken x) (replaced ws i w v q r h k))

step_out_and_in : (e : ℕ × Event) (p : Pool) → Perm (out_and_in (pool_step e p)) (out_and_in p)
unfolding pool_step
step_out_and_in (i, event) p = elim (Option-cases (get_elem? p.workers i)) [
  | inl n ↦ rw (pool_step, n) (Perm.refl (out_and_in p))
  | inr (w, n) ↦
      rw (pool_step, n) (replaced p.workers i w _ _ _ n (step_taken w.phase event p.shared w refl))
]

pub run_out_and_in :
    (es : List (ℕ × Event)) (p : Pool) → Perm (out_and_in (run_pool es p)) (out_and_in p)
unfolding run_pool
run_out_and_in [] p = Perm.refl (out_and_in p)
run_out_and_in (e ∷ es) p = Perm.trans (run_out_and_in es (pool_step e p)) (step_out_and_in e p)

nothing_taken : (n : ℕ) → all_taken (repeat_worker n) ≡ []
unfolding repeat_worker
nothing_taken zero = refl
nothing_taken (suc n) = nothing_taken n

-- In any interleaving of the workers, the files that they have taken and those still in the queue
-- are the planned ones, each once.
pub run_pool-once :
    (streams : ℕ) (transfers : List TransferItem) (dests : List DestStats) (es : List (ℕ × Event))
    → (let p = run_pool es (start_pool streams transfers dests) in
        Perm (all_taken p.workers ++ p.shared.queue) transfers)
unfolding start_pool
run_pool-once streams transfers dests es =
    Perm.trans (run_out_and_in es (start_pool streams transfers dests))
      (rw (nothing_taken _) (Perm.refl transfers))
