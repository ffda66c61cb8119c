-- ===== src/Core/Pool/Report.antt =====
-- The report of a run counts every file.
use adbrsync.Common.{
  ℕ, zero, suc, ◌+◌, ◌-◌, ◌%◌, ◌^◌, ◌≡◌, ◌≢◌, refl, ap, ◌∙◌, arith, Bool, true, false, ltb,
}
use adbrsync.Common.{List, [], ◌∷◌, ◌++◌, append-nil, map, Option, none, some, inl, inr, is_nil}
use adbrsync.Common.{length, length-append, get_elem?, set, all, any, All, count_of, ◌==◌}
use adbrsync.Common.{Option-cases, Bool-cases}
use adbrsync.Common.Text.{Text, codes}
use adbrsync.Common.Result.{Result, ok, err}
use adbrsync.Common.Members.{length-perm}
use adbrsync.Core.Entry.{FilePath}
use adbrsync.Core.Error.{CoreError}
use adbrsync.Core.Fetch.{FetchOutcome}
use adbrsync.Core.Plan.{TransferItem}
use adbrsync.Core.Destinations.{DestStats}
use adbrsync.Core.Pool.{Complaint, not_fetched, stream_lost, fewer_streams, FileError}
use adbrsync.Core.Pool.{Phase, opening, idle, fetching, reopening, ended, Worker, Shared, Event}
use adbrsync.Core.Pool.{session, pull, fetch, Pool, worker_step, missed}
use adbrsync.Core.Pool.{
  on_open, on_reopen, on_pull, pop_front, on_fetch, pool_step, run_pool, start_pool,
}
use adbrsync.Core.Pool.{repeat_worker, stream_count}
use adbrsync.Core.Pool.Gathering.{
  Gathered, TransferReport, count_stream, add_result, gather, nothing, report_of, run,
}
use adbrsync.Core.Pool.Complete.{is_ended, is_drained, all_handled, run_pool-complete}

abbrev is_not_fetched : Complaint → Bool
is_not_fetched (not_fetched e) = true
is_not_fetched c = false

-- The files that could not be fetched.
abbrev pub unfetched : List FileError → ℕ
unfetched = count_of (λ e. is_not_fetched e.message)

unfetched-append : (xs ys : List FileError) → unfetched (xs ++ ys) ≡ unfetched xs + unfetched ys
unfetched-append [] ys = omega arith
unfetched-append (x ∷ xs) ys = ground (arith, unfetched-append xs ys)

unfetched-missed :
    (item : TransferItem) (fs : List (ℕ × Text)) → unfetched (map (missed item) fs) ≡ 0
unfetched-missed item [] = refl
unfetched-missed item (f ∷ fs) = omega (arith, unfetched-missed item fs)

-- A worker has counted each file that it has handled.
abbrev Tally : Worker → Type 0
Tally w = (w.result.files + unfetched w.result.errors) % 2 ^ 64 ≡ length w.handled % 2 ^ 64

fetch-Tally :
    (item : TransferItem) (r : Result CoreError FetchOutcome) (w : Worker)
    → Tally w
    → Tally (on_fetch item r w)
unfolding on_fetch
fetch-Tally item (ok o) w h = omega (
  arith,
  h,
  unfetched-append w.result.errors (map (missed item) o.failed),
  unfetched-missed item o.failed,
  length-append w.handled (item ∷ []),
)
fetch-Tally item (err e) w h = omega (
  arith,
  h,
  unfetched-append w.result.errors
      (record { rel = item.rel; dest = none; message = not_fetched e } ∷ []),
  length-append w.handled (item ∷ []),
)

-- The tally, and that nothing is handled before the first session.
record Sound (w : Worker) : Type 0 where
  tally : Tally w
  unbegun : w.phase ≡ opening → w.handled ≡ []

pop-Sound :
    (q : List TransferItem) (sh : Shared) (w : Worker) → Tally w → Sound (pop_front q sh w).1
unfolding pop_front
pop-Sound [] sh w h = record { tally = h; unbegun = λ e. cc }
pop-Sound (item ∷ rest) sh w h = record { tally = h; unbegun = λ e. cc }

pull-Sound : (sh : Shared) (w : Worker) → Tally w → Sound (on_pull sh w).1
unfolding on_pull
pull-Sound sh w h = elim (Bool-cases (all (λ d. d.disabled) sh.dests)) [
  | inl e ↦ rw (on_pull, e) (record { tally = h; unbegun = λ q. cc })
  | inr e ↦ rw (on_pull, e) (pop-Sound sh.queue sh w h)
]

fetched-phase :
    (item : TransferItem) (r : Result CoreError FetchOutcome) (w : Worker)
    → (on_fetch item r w).phase ≢ opening
unfolding on_fetch
fetched-phase item (ok o) w h = cc
fetched-phase item (err e) w h = ground (arith, h)

step-Sound :
    (phase : Phase) (event : Event) (sh : Shared) (w : Worker)
    → w.phase ≡ phase
    → Sound w
    → Sound (worker_step phase event sh w).1
unfolding worker_step on_open on_reopen
step-Sound opening (session (ok u)) sh w h s = record { tally = s.tally; unbegun = λ e. cc }
step-Sound opening (session (err e)) sh w h s = record {
  tally = rw (s.unbegun h) refl;
  unbegun = λ e. cc;
}
step-Sound opening pull sh w h s = s
step-Sound opening (fetch r x) sh w h s = s
step-Sound idle (session r) sh w h s = s
step-Sound idle pull sh w h s = pull-Sound sh w s.tally
step-Sound idle (fetch r x) sh w h s = s
step-Sound (fetching item) (session r) sh w h s = s
step-Sound (fetching item) pull sh w h s = s
step-Sound (fetching item) (fetch r x) sh w h s = record {
  tally = fetch-Tally item r w s.tally;
  unbegun = λ e. absurd (fetched-phase item r w e);
}
step-Sound reopening (session (ok u)) sh w h s = record { tally = s.tally; unbegun = λ e. cc }
step-Sound reopening (session (err e)) sh w h s = record {
  tally = omega (
    arith,
    s.tally,
    unfetched-append w.result.errors
        (record { rel = codes "<stream>"; dest = none; message = stream_lost e } ∷ []),
  );
  unbegun = λ q. cc;
}
step-Sound reopening pull sh w h s = s
step-Sound reopening (fetch r x) sh w h s = s
step-Sound (ended e) event sh w h s = s

All-set : (ws : List Worker) (i : ℕ) (v : Worker) → Sound v → All Sound ws → All Sound (set ws i v)
All-set [] i v s h = tt
All-set (x ∷ ws) zero v s h = (s, h.1)
All-set (x ∷ ws) (suc i) v s h = (h.0, All-set ws i v s h.1)

Sound-at :
    (ws : List Worker) (i : ℕ) (w : Worker) → get_elem? ws i ≡ some w → All Sound ws → Sound w
Sound-at [] i w e h = cc
Sound-at (x ∷ ws) zero w e h = let same : x ≡ w = cc in rw same at h.0
Sound-at (x ∷ ws) (suc i) w e h = Sound-at ws i w e h.1

run-Sound :
    (es : List (ℕ × Event)) (p : Pool) → All Sound p.workers → All Sound (run_pool es p).workers
unfolding run_pool pool_step
run-Sound [] p h = h
run-Sound ((i, event) ∷ es) p h = elim (Option-cases (get_elem? p.workers i)) [
  | inl n ↦ rw (run_pool, pool_step, n) (run-Sound es p h)
  | inr (w, n) ↦
      rw (run_pool, pool_step, n)
        (run-Sound es _ (
          All-set p.workers i _
            (step-Sound w.phase event p.shared w refl (Sound-at p.workers i w n h)) h))
]

repeat-Sound : (n : ℕ) → All Sound (repeat_worker n)
unfolding repeat_worker
repeat-Sound zero = tt
repeat-Sound (suc n) = (record { tally = refl; unbegun = λ e. refl }, repeat-Sound n)

counted_stream :
    (e : Option CoreError) (g : Gathered)
    → ((count_stream e g).files ≡ g.files) × ((count_stream e g).errors ≡ g.errors)
unfolding count_stream
counted_stream none g = (refl, refl)
counted_stream (some e) g = (refl, refl)

-- The sum over the workers.
gather_tally :
    (ws : List Worker) (g : Gathered)
    → All Sound ws
    → (let h = gather (map (λ w. w.result) ws) g in
        (h.files + unfetched h.errors) % 2 ^ 64
        ≡ (g.files + unfetched g.errors + length (all_handled ws)) % 2 ^ 64)
unfolding gather
gather_tally [] g s = omega arith
gather_tally (w ∷ ws) g s =
    let h = count_stream w.result.stream_error g in
    let same = counted_stream w.result.stream_error g in
    omega (
      arith,
      gather_tally ws (add_result w.result h) s.1,
      s.0.tally,
      same.0,
      ap unfetched same.1,
      unfetched-append h.errors w.result.errors,
      length-append w.handled (all_handled ws),
    )

abbrev reduced : ℕ → FileError
reduced n = record { rel = codes "<streams>"; dest = none; message = fewer_streams n }

-- The errors that the report adds are of no file.
report_tally :
    (streams : ℕ) (ws : List Worker) (dests : List (FilePath × DestStats)) (r : TransferReport)
    → All Sound ws
    → report_of streams (map (λ w. w.result) ws) dests ≡ ok r
    → (r.files + unfetched r.errors) % 2 ^ 64 ≡ length (all_handled ws) % 2 ^ 64
unfolding report_of
report_tally streams ws dests r s h =
    let g = gather (map (λ w. w.result) ws) nothing in
    let tally = gather_tally ws nothing s in
    elim (Bool-cases (g.started == 0)) [
      | inl e ↦ ground (arith, h, e)
      | inr e ↦ elim (Bool-cases (ltb g.started streams)) [
        | inl k ↦
            let more : r.errors ≡ g.errors ++ reduced (streams - g.started) ∷ [] =
              ground (arith, h, e, k) in
            let same : r.files ≡ g.files = ground (arith, h, e) in
            omega (
              arith,
              tally,
              same,
              ap unfetched more,
              unfetched-append g.errors (reduced (streams - g.started) ∷ []),
            )
        | inr k ↦
            let none_more : r.errors ≡ g.errors = ground (arith, h, e, k, append-nil g.errors) in
            let same : r.files ≡ g.files = ground (arith, h, e) in
            omega (arith, tally, same, ap unfetched none_more)
      ]
    ]

-- If some worker has found the queue empty, the files that the report counts and those that it
-- reports as not fetched are as many as were planned.
pub run-files :
    (streams : ℕ) (transfers : List TransferItem) (roots : List FilePath) (dests : List DestStats)
    (es : List (ℕ × Event)) (r : TransferReport)
    → is_nil transfers ≡ false
    → all is_ended (run_pool es (start_pool streams transfers dests)).workers ≡ true
    → any is_drained (run_pool es (start_pool streams transfers dests)).workers ≡ true
    → run streams transfers roots dests es ≡ ok r
    → (r.files + unfetched r.errors) % 2 ^ 64 ≡ length transfers % 2 ^ 64
unfolding run start_pool
run-files streams transfers roots dests es r some_files done dry h =
    let p = run_pool es (start_pool streams transfers dests) in
    let sound : All Sound p.workers =
      run-Sound es (start_pool streams transfers dests) (repeat-Sound _) in
    report_tally (stream_count streams (length transfers)) p.workers _ r sound
      (rw (run, some_files) at h)
    ∙ ap (λ n. n % 2 ^ 64) (length-perm (run_pool-complete streams transfers dests es done dry))
