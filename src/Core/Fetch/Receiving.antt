-- ===== src/Core/Fetch/Receiving.antt =====
-- What the fan-out has taken and counted while `fetch_one` of crates/adbrsync-core/src/transfer.rs
-- reads a file into it.
use adbrsync.Common.{ℕ, ◌+◌, ◌%◌, ◌^◌, ◌<◌, ◌≡◌, refl, sym, ap, ◌∙◌, arith, false}
use adbrsync.Common.{List, [], ◌∷◌, ◌++◌, Option, none, some, inl, inr, length, append-nil, ◌==◌}
use adbrsync.Common.{append_assoc, Bool-cases}
use adbrsync.Common.Text.{Text, is_empty}
use adbrsync.Common.Result.{Result}
use adbrsync.Core.Fanout.{Fanout, Poll, ready, pending, all_closed, drive}
use adbrsync.Core.Fanout.Output.{Sink, write_out, all_polls, later_polls, outcome}
use adbrsync.Core.Fanout.Named.{IsNamed, drive-IsNamed}
use adbrsync.Core.Fanout.Progress.{Taken, AllTaken}
use adbrsync.Core.Fanout.Delivery.{Delivered, drive-Delivered, drive_uncounted}
use adbrsync.Proto.Sync.Outputs.{StepPost}

Taken-append : (s t : Text) (x y z : Option Text) → Taken s x y → Taken t y z → Taken (s ++ t) x z
Taken-append s t x y none h k = tt
Taken-append s t x none (some e) h k = absurd k
Taken-append s t none (some d) (some e) h k = h
Taken-append s t (some c) (some d) (some e) h k = k ∙ ap (λ u. u ++ t) h ∙ append_assoc c s t

pub AllTaken-append :
    (s t : Text) (xs ys zs : List (Option Text))
    → AllTaken s xs ys
    → AllTaken t ys zs
    → AllTaken (s ++ t) xs zs
AllTaken-append s t [] [] [] h k = tt
AllTaken-append s t [] [] (z ∷ zs) h k = k
AllTaken-append s t [] (y ∷ ys) zs h k = absurd h
AllTaken-append s t (x ∷ xs) [] zs h k = absurd h
AllTaken-append s t (x ∷ xs) (y ∷ ys) [] h k = k
AllTaken-append s t (x ∷ xs) (y ∷ ys) (z ∷ zs) h k =
    (Taken-append s t x y z h.0 k.0, AllTaken-append s t xs ys zs h.1 k.1)

pub AllTaken-nothing : (xs : List (Option Text)) → AllTaken [] xs xs
AllTaken-nothing [] = tt
AllTaken-nothing (none ∷ xs) = (tt, AllTaken-nothing xs)
AllTaken-nothing (some c ∷ xs) = (sym (append-nil c), AllTaken-nothing xs)

-- The shared counter, which was `counter`, has grown by what this fan-out has written.
abbrev pub IsCounted : ℕ → Sink → Type 0
IsCounted counter w =
    (w.fanout.counter ≡ (counter + w.fanout.written) % 2 ^ 64) × (w.fanout.written < 2 ^ 64)

-- After `n` bytes, the text `t`: every file that was open at first is closed or has taken `t`.
pub record IsReceiving (files : List (Option Text)) (counter n : ℕ) (t : Text) (w : Sink)
    : Type 0 where
  pub taken : AllTaken t files w.fanout.files
  pub counted : IsCounted counter w
  pub written : w.fanout.written ≡ n
  pub idle : w.fanout.stash ≡ []
  pub named : IsNamed w.fanout

module _ (lossy : Text → Text) (files : List (Option Text)) (counter n : ℕ) (t : Text) (w : Sink)
    (g : IsReceiving files counter n t w) where
  abbrev Post : Text → Poll (Result Text ℕ) × Fanout → Type 0
  Post c p =
      StepPost lossy write_out (IsReceiving files counter) (IsCounted counter) n t c
        (outcome p.0, record { fanout = p.1; polls = later_polls w.polls })

  uncounted :
      (f : Fanout)
      → f.counter ≡ w.fanout.counter
      → f.written ≡ w.fanout.written
      → IsCounted counter (record { fanout = f; polls = later_polls w.polls })
  uncounted f h k = omega (arith, g.counted)

  Delivered-Post :
      (c : Text) (r : Result Text ℕ) (f : Fanout)
      → is_empty c ≡ false
      → Delivered c w.fanout r f
      → IsNamed f
      → Post c (ready r, f)
  unfolding StepPost
  Delivered-Post c r f some_data d named = elim (Bool-cases (all_closed f)) [
    | inl e ↦ let (failed, same, same') = d.fails e in rw failed (uncounted f same same')
    | inr e ↦
        let (succeeded, counter_grows, written_grows, idle) = d.succeeds e in
        let more : (length c == 0) ≡ false = ground arith in
        rw (succeeded, more)
          (record {
            taken = AllTaken-append t c files w.fanout.files f.files g.taken d.taken;
            counted = omega (arith, counter_grows, written_grows, g.counted);
            written = omega (arith, written_grows, g.written);
            idle = idle;
            named = named;
          })
  ]

  written-Post :
      (c : Text) (p : Poll (Result Text ℕ) × Fanout)
      → is_empty c ≡ false
      → drive c (all_polls c w) w.fanout ≡ p
      → Post c p
  unfolding StepPost
  written-Post c (pending, f) some_data e =
      let same = drive_uncounted c (all_polls c w) w.fanout f (λ h. ground arith) g.idle e in
      uncounted f same.0 same.1
  written-Post c (ready r, f) some_data e =
      Delivered-Post c r f some_data
        (drive-Delivered c (all_polls c w) w.fanout r f (λ h. ground arith) g.idle e)
        (λ i. rw e at (drive-IsNamed c (all_polls c w) w.fanout g.named) i)

  pub write_out-StepPost :
      (c : Text)
      → StepPost lossy write_out
          (IsReceiving files counter)
          (IsCounted counter)
          n
          t
          c
          (write_out c w)
  unfolding write_out StepPost
  write_out-StepPost [] = record {
    taken = rw (append-nil t) (g.taken);
    counted = g.counted;
    written = omega (arith, g.written, g.counted);
    idle = g.idle;
    named = g.named;
  }
  write_out-StepPost (b ∷ c) =
      written-Post (b ∷ c) (drive (b ∷ c) (all_polls (b ∷ c) w) w.fanout) refl refl
