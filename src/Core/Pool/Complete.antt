-- ===== src/Core/Pool/Complete.antt =====
-- A pool of which one worker has found the queue empty has dealt with every file.
use mathlib.Core.List.{Perm}
use adbrsync.Common.{ℕ, zero, suc, ◌≡◌, refl, arith, Bool, true, false}
use adbrsync.Common.{List, [], ◌∷◌, ◌++◌, append-nil, some, inl, inr, ◌⊎◌}
use adbrsync.Common.{length, get_elem?, set, all, any, &&_iff, Option-cases, Bool-cases}
use adbrsync.Common.Result.{Result, ok, err}
use adbrsync.Core.Plan.{TransferItem}
use adbrsync.Core.Destinations.{DestStats, breaks_stream}
use adbrsync.Core.Pool.{Phase, opening, idle, fetching, reopening, ended, Worker, Shared, Event}
use adbrsync.Core.Pool.{drained, session, pull, fetch, Pool, worker_step}
use adbrsync.Core.Pool.{
  on_open, on_reopen, on_pull, pop_front, on_fetch, pool_step, run_pool, start_pool,
}
use adbrsync.Core.Pool.{repeat_worker, stream_count}
use adbrsync.Core.Error.{CoreError}
use adbrsync.Core.Fetch.{FetchOutcome}
use adbrsync.Core.Pool.Once.{in_hand, all_taken, run_pool-once}

abbrev ended_phase : Phase → Bool
ended_phase (ended e) = true
ended_phase phase = false

abbrev pub is_ended : Worker → Bool
is_ended w = ended_phase w.phase

abbrev drained_phase : Phase → Bool
drained_phase (ended drained) = true
drained_phase phase = false

abbrev pub is_drained : Worker → Bool
is_drained w = drained_phase w.phase

-- What a step keeps: an empty queue, and that a worker ends as drained only at an empty queue.
abbrev StaysDry : Shared × Worker → Shared → Worker → Type 0
StaysDry o sh w =
    (sh.queue ≡ [] → o.0.queue ≡ [])
    × (is_drained o.1 ≡ true → (is_drained w ≡ true) ⊎ (o.0.queue ≡ []))

unmoved :
    (sh : Shared) (w v : Worker)
    → (is_drained v ≡ true → is_drained w ≡ true)
    → StaysDry (sh, v) sh w
unmoved sh w v h = (λ q. q, λ d. inl (h d))

pop_dry :
    (q : List TransferItem) (sh : Shared) (w : Worker)
    → sh.queue ≡ q
    → StaysDry (pop_front q sh w) sh w
unfolding pop_front
pop_dry [] sh w h = (λ q. q, λ d. inr h)
pop_dry (item ∷ rest) sh w h = (λ q. cc, λ d. cc)

pull_dry : (sh : Shared) (w : Worker) → StaysDry (on_pull sh w) sh w
unfolding on_pull
pull_dry sh w = elim (Bool-cases (all (λ d. d.disabled) sh.dests)) [
  | inl e ↦ rw (on_pull, e) ((λ q. q, λ d. cc))
  | inr e ↦ rw (on_pull, e) (pop_dry sh.queue sh w refl)
]

fetch_dry :
    (item : TransferItem) (r : Result CoreError FetchOutcome) (w : Worker)
    → is_drained (on_fetch item r w) ≡ false
unfolding on_fetch
fetch_dry item (ok o) w = refl
fetch_dry item (err e) w = elim (Bool-cases (breaks_stream e)) [
  | inl b ↦ rw (on_fetch, b) refl
  | inr b ↦ rw (on_fetch, b) refl
]

step_dry :
    (phase : Phase) (event : Event) (sh : Shared) (w : Worker)
    → StaysDry (worker_step phase event sh w) sh w
unfolding worker_step on_open on_reopen
step_dry opening (session (ok u)) sh w = (λ q. q, λ d. cc)
step_dry opening (session (err e)) sh w = (λ q. q, λ d. cc)
step_dry opening pull sh w = unmoved sh w w (λ d. d)
step_dry opening (fetch r x) sh w = unmoved sh w w (λ d. d)
step_dry idle (session r) sh w = unmoved sh w w (λ d. d)
step_dry idle pull sh w = pull_dry sh w
step_dry idle (fetch r x) sh w = unmoved sh w w (λ d. d)
step_dry (fetching item) (session r) sh w = unmoved sh w w (λ d. d)
step_dry (fetching item) pull sh w = unmoved sh w w (λ d. d)
step_dry (fetching item) (fetch r x) sh w = (λ q. q, λ d. let none_left = fetch_dry item r w in cc)
step_dry reopening (session (ok u)) sh w = (λ q. q, λ d. cc)
step_dry reopening (session (err e)) sh w = (λ q. q, λ d. cc)
step_dry reopening pull sh w = unmoved sh w w (λ d. d)
step_dry reopening (fetch r x) sh w = unmoved sh w w (λ d. d)
step_dry (ended e) event sh w = unmoved sh w w (λ d. d)

any-set :
    (ws : List Worker) (i : ℕ) (w v : Worker)
    → get_elem? ws i ≡ some w
    → any is_drained (set ws i v) ≡ true
    → (is_drained v ≡ true) ⊎ (any is_drained ws ≡ true)
any-set [] i w v h k = inr k
any-set (x ∷ ws) zero w v h k = ground arith
any-set (x ∷ ws) (suc i) w v h k = ground (arith, any-set ws i w v h)

any_at :
    (ws : List Worker) (i : ℕ) (w : Worker)
    → get_elem? ws i ≡ some w
    → is_drained w ≡ true
    → any is_drained ws ≡ true
any_at [] i w h k = cc
any_at (x ∷ ws) zero w h k = ground arith
any_at (x ∷ ws) (suc i) w h k = ground (arith, any_at ws i w h k)

abbrev IsDry : Pool → Type 0
IsDry p = any is_drained p.workers ≡ true → p.shared.queue ≡ []

step-IsDry : (e : ℕ × Event) (p : Pool) → IsDry p → IsDry (pool_step e p)
unfolding pool_step
step-IsDry (i, event) p h = elim (Option-cases (get_elem? p.workers i)) [
  | inl n ↦ rw (pool_step, n) h
  | inr (w, n) ↦
      rw (pool_step, n)
        (λ d.
          let dry = step_dry w.phase event p.shared w in
          elim (any-set p.workers i w _ n d) [
            | inl new ↦ elim (dry.1 new) [
              | inl old ↦ dry.0 (h (any_at p.workers i w n old))
              | inr q ↦ q
            ]
            | inr old ↦ dry.0 (h old)
          ])
]

run-IsDry : (es : List (ℕ × Event)) (p : Pool) → IsDry p → IsDry (run_pool es p)
unfolding run_pool
run-IsDry [] p h = h
run-IsDry (e ∷ es) p h = run-IsDry es (pool_step e p) (step-IsDry e p h)

repeat_undrained : (n : ℕ) → any is_drained (repeat_worker n) ≡ false
unfolding repeat_worker
repeat_undrained zero = refl
repeat_undrained (suc n) = repeat_undrained n

abbrev pub all_handled : List Worker → List TransferItem
all_handled [] = []
all_handled (w ∷ ws) = w.handled ++ all_handled ws

empty_hand : (phase : Phase) → ended_phase phase ≡ true → in_hand phase ≡ []
empty_hand (ended e) h = refl
empty_hand opening h = refl
empty_hand idle h = refl
empty_hand (fetching item) h = cc
empty_hand reopening h = refl

ended_handled : (ws : List Worker) → all is_ended ws ≡ true → all_taken ws ≡ all_handled ws
ended_handled [] h = refl
ended_handled (w ∷ ws) h =
    let (first, rest) = (&&_iff (is_ended w) (all is_ended ws)).0 h in
    rw (empty_hand w.phase first, append-nil w.handled, ended_handled ws rest) refl

-- Once all workers have ended, and one of them because the queue was empty, the files that the
-- workers have dealt with are the planned ones, each once.
pub run_pool-complete :
    (streams : ℕ) (transfers : List TransferItem) (dests : List DestStats) (es : List (ℕ × Event))
    → all is_ended (run_pool es (start_pool streams transfers dests)).workers ≡ true
    → any is_drained (run_pool es (start_pool streams transfers dests)).workers ≡ true
    → Perm (all_handled (run_pool es (start_pool streams transfers dests)).workers) transfers
unfolding start_pool
run_pool-complete streams transfers dests es done dry =
    let p = run_pool es (start_pool streams transfers dests) in
    let empty : p.shared.queue ≡ [] =
      run-IsDry es (start_pool streams transfers dests)
        (λ d. let no = repeat_undrained (stream_count streams (length transfers)) in cc) dry in
    rw (ended_handled p.workers done, empty, append-nil (all_handled p.workers)) at
      (run_pool-once streams transfers dests es)
