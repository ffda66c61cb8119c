-- ===== src/Core/Pool/Ends.antt =====
-- The pool comes to an end, and with what.
use adbrsync.Common.{ℕ, zero, suc, ◌+◌, ◌*◌, ◌≤◌, ◌≡◌, refl, arith, Bool, true, false}
use adbrsync.Common.{List, [], ◌∷◌, none, some, inl, inr, if◌then◌else◌}
use adbrsync.Common.{length, get_elem?, set, all, sum_of, Option-cases, Bool-cases}
use adbrsync.Common.Result.{ok, err}
use adbrsync.Core.Plan.{TransferItem}
use adbrsync.Core.Destinations.{DestStats, breaks_stream}
use adbrsync.Core.Pool.{Phase, opening, idle, fetching, reopening, ended, Worker, Shared, Event}
use adbrsync.Core.Pool.{session, pull, fetch, Pool, worker_step}
use adbrsync.Core.Pool.{on_open, on_reopen, on_pull, pop_front, on_fetch, pool_step, start_pool}
use adbrsync.Core.Pool.{repeat_worker, stream_count}

-- Whether the phase waits for the event.
abbrev pub awaits : Phase → Event → Bool
awaits opening (session r) = true
awaits idle pull = true
awaits (fetching item) (fetch r dests) = true
awaits reopening (session r) = true
awaits phase event = false

-- Whether the event is a step of the pool.
abbrev pub moves : ℕ × Event → Pool → Bool
moves e p = elim (get_elem? p.workers e.0) [ none ↦ false | some w ↦ awaits w.phase e.1 ]

unfoldable pub count_moves : List (ℕ × Event) → Pool → ℕ
count_moves [] p = 0
count_moves (e ∷ es) p = (if moves e p then 1 else 0) + count_moves es (pool_step e p)

abbrev weight : Phase → ℕ
weight opening = 2
weight idle = 1
weight (fetching item) = 3
weight reopening = 2
weight (ended e) = 0

abbrev pub work : Pool → ℕ
work p = 4 * length p.shared.queue + sum_of (λ w. weight w.phase) p.workers

pop_weight :
    (q : List TransferItem) (sh : Shared) (w : Worker)
    → sh.queue ≡ q
    → w.phase ≡ idle
    → (let (sh', v) = pop_front q sh w in
        4 * length sh'.queue + weight v.phase + 1 ≤ 4 * length q + weight w.phase)
unfolding pop_front
pop_weight [] sh w e h = rw (e, h) (omega arith)
pop_weight (item ∷ rest) sh w e h = rw h (omega arith)

pull_weight :
    (sh : Shared) (w : Worker)
    → w.phase ≡ idle
    → (let (sh', v) = on_pull sh w in
        4 * length sh'.queue + weight v.phase + 1 ≤ 4 * length sh.queue + weight w.phase)
unfolding on_pull
pull_weight sh w h = elim (Bool-cases (all (λ d. d.disabled) sh.dests)) [
  | inl e ↦ rw (on_pull, e, h) (omega arith)
  | inr e ↦ rw (on_pull, e) (pop_weight sh.queue sh w refl h)
]

-- A worker's step takes work away if it is awaited, and else changes nothing.
step_weight :
    (phase : Phase) (event : Event) (sh : Shared) (w : Worker)
    → w.phase ≡ phase
    → (let (sh', v) = worker_step phase event sh w in
        4 * length sh'.queue + weight v.phase + (if awaits phase event then 1 else 0)
        ≤ 4 * length sh.queue + weight w.phase)
unfolding worker_step on_open on_reopen on_pull on_fetch
step_weight opening (session (ok u)) sh w h = rw h (omega arith)
step_weight opening (session (err e)) sh w h = rw h (omega arith)
step_weight opening pull sh w h = omega arith
step_weight opening (fetch r d) sh w h = omega arith
step_weight idle (session r) sh w h = omega arith
step_weight idle pull sh w h = pull_weight sh w h
step_weight idle (fetch r d) sh w h = omega arith
step_weight (fetching item) (session r) sh w h = omega arith
step_weight (fetching item) pull sh w h = omega arith
step_weight (fetching item) (fetch (ok o) d) sh w h = rw h (omega arith)
step_weight (fetching item) (fetch (err e) d) sh w h = elim (Bool-cases (breaks_stream e)) [
  | inl b ↦ rw (worker_step, b, h) (omega arith)
  | inr b ↦ rw (worker_step, b, h) (omega arith)
]
step_weight reopening (session (ok u)) sh w h = rw h (omega arith)
step_weight reopening (session (err e)) sh w h = rw h (omega arith)
step_weight reopening pull sh w h = omega arith
step_weight reopening (fetch r d) sh w h = omega arith
step_weight (ended e) event sh w h = omega arith

sum_of-set :
    (ws : List Worker) (i : ℕ) (w v : Worker)
    → get_elem? ws i ≡ some w
    → sum_of (λ x. weight x.phase) (set ws i v) + weight w.phase
      ≡ sum_of (λ x. weight x.phase) ws + weight v.phase
sum_of-set [] i w v h = cc
sum_of-set (x ∷ ws) zero w v h = let same : x ≡ w = cc in rw same (omega arith)
sum_of-set (x ∷ ws) (suc i) w v h = omega (arith, sum_of-set ws i w v h)

pub step-work :
    (e : ℕ × Event) (p : Pool) → work (pool_step e p) + (if moves e p then 1 else 0) ≤ work p
unfolding pool_step
step-work (i, event) p = elim (Option-cases (get_elem? p.workers i)) [
  | inl n ↦
      let no_move : moves (i, event) p ≡ false = rw (moves, n) refl in
      rw (pool_step, n, no_move) (omega arith)
  | inr (w, n) ↦
      let stepped = worker_step w.phase event p.shared w in
      let moved : moves (i, event) p ≡ awaits w.phase event = rw (moves, n) refl in
      rw (pool_step, n, moved)
        (omega
          (arith, step_weight w.phase event p.shared w refl, sum_of-set p.workers i w stepped.1 n))
]

moves-work : (es : List (ℕ × Event)) (p : Pool) → count_moves es p ≤ work p
unfolding count_moves
moves-work [] p = omega arith
moves-work (e ∷ es) p = omega (arith, step-work e p, moves-work es (pool_step e p))

weight-repeat : (n : ℕ) → sum_of (λ w. weight w.phase) (repeat_worker n) ≡ 2 * n
unfolding repeat_worker
weight-repeat zero = refl
weight-repeat (suc n) = omega (arith, weight-repeat n)

-- In any interleaving the workers take at most four steps for each file and two for each stream.
pub run_pool-ends :
    (streams : ℕ) (transfers : List TransferItem) (dests : List DestStats) (es : List (ℕ × Event))
    → count_moves es (start_pool streams transfers dests)
      ≤ 4 * length transfers + 2 * stream_count streams (length transfers)
unfolding start_pool
run_pool-ends streams transfers dests es = omega (
  arith,
  moves-work es (start_pool streams transfers dests),
  weight-repeat (stream_count streams (length transfers)),
)
