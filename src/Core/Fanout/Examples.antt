-- ===== src/Core/Fanout/Examples.antt =====
-- Writes to three files, of which one fails and one is not ready at first.
use adbrsync.Common.{◌≡◌, ◌≢◌, refl, arith, List, [], ◌∷◌, none, some}
use adbrsync.Common.Text.{codes}
use adbrsync.Common.Result.{ok}
use adbrsync.Core.Fanout.{Fanout, ready, pending, Answer, took, failed, poll_write, drive}
use adbrsync.Core.Fanout.Delivery.{Delivered, drive-Delivered}
use adbrsync.Core.Fanout.Termination.{poll_write-ready}

abbrev fresh : Fanout
fresh = record {
  files = some (codes "x") ∷ some [] ∷ some [] ∷ [];
  failures = [];
  stash = [];
  at = 0;
  off = 0;
  counter = 7;
  written = 0;
}

abbrev polls : List (List Answer)
polls = (took 2 ∷ []) ∷ (took 9 ∷ failed (codes "full") ∷ []) ∷ (took 1 ∷ took 1 ∷ took 1 ∷ []) ∷ []

abbrev written : Fanout
written = record {
  files = some (codes "xabc") ∷ none ∷ some (codes "abc") ∷ [];
  failures = (1, codes "full") ∷ [];
  stash = [];
  at = 3;
  off = 0;
  counter = 10;
  written = 3;
}

drive_test : drive (codes "abc") polls fresh ≡ (ready (ok 3), written)
unfolding drive poll_write
drive_test = refl

drive-Delivered_example : Delivered (codes "abc") fresh (ok 3) written
drive-Delivered_example =
    drive-Delivered (codes "abc") polls fresh (ok 3) written (λ e. cc) refl drive_test

abbrev halfway : Fanout
halfway = record fresh {
  files = some (codes "xab") ∷ some [] ∷ some [] ∷ [];
  stash = codes "abc";
  off = 2;
}

drive-halfway : drive (codes "abc") ((took 2 ∷ []) ∷ []) fresh ≡ (pending, halfway)
unfolding drive poll_write
drive-halfway = refl

abbrev plenty : List Answer
plenty = took 3 ∷ took 1 ∷ took 2 ∷ took 0 ∷ took 3 ∷ took 3 ∷ took 3 ∷ took 3 ∷ took 3 ∷ []

poll_write-ready_example : (poll_write (codes "abc") plenty fresh).0 ≢ pending
poll_write-ready_example = poll_write-ready (codes "abc") plenty fresh refl (omega arith)
