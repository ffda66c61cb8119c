-- ===== src/Core/Fetch/Examples.antt =====
-- A file fetched to two destinations, of which the second fails.
use adbrsync.Common.{ℕ, ◌≡◌, ◌≢◌, refl, arith, true, false, [], ◌∷◌, ◌++◌}
use adbrsync.Common.{none, some, ◌⊎◌, any, ◌==◌, is_nil, if◌then◌else◌}
use adbrsync.Common.Text.{Text, codes, split, text_eq, contains}
use adbrsync.Common.Int.{pos}
use adbrsync.Common.Result.{ok}
use adbrsync.Proto.Error.{unexpected_eof}
use adbrsync.Proto.Stream.{Stream, read_exact}
use adbrsync.Proto.Bytes.{from_le}
use adbrsync.Proto.Sync.{id_data, id_done, recv}
use adbrsync.Proto.Stream.Frames.{header, frame}
use adbrsync.Core.Entry.{FilePath, safe_join, is_below}
use adbrsync.Core.Plan.{TransferItem}
use adbrsync.Core.Destinations.{DestStats, fresh, note_failure_of}
use adbrsync.Core.Fanout.{took, failed, drive, poll_write, new, finish, flush_all}
use adbrsync.Core.Fanout.Output.{write_out}
use adbrsync.Core.Fetch.{Host, FetchOutcome, open_targets, fetch_one}
use adbrsync.Core.Fetch.Store.{Fs, Always}
use adbrsync.Core.Paths.{file_name}
use adbrsync.Core.Fetch.Clashes.{temp_suffix, RootsApart, NamesEntry}
use adbrsync.Core.Fetch.Atomic.{sent, fetch_one-atomic}
use adbrsync.Core.Fetch.Counting.{Counts, fetch_one-Counts}
use adbrsync.Core.Fetch.Accounts.{Arrived, fetch_one-accounts}

abbrev shown : Text → Text
shown s = s

-- The second of the open files is full.
abbrev host : Host
host = record {
  create_dir_all = λ p. none;
  create = λ p. none;
  rename = λ p q. none;
  set_mtime = λ p t. none;
  polls = ((took 1 ∷ took 1 ∷ failed (codes "full") ∷ []) ∷ []) ∷ [];
  flushes = [];
}

abbrev dests : ℕ → FilePath
dests i = if i == 0 then codes "a" ∷ [] else codes "b" ∷ []

abbrev item : TransferItem
item = record {
  rel = codes "d/f";
  remote = codes "/sdcard/d/f";
  size = 2;
  mtime = pos 5;
  targets = 0 ∷ 1 ∷ [];
}

abbrev session : Stream
session = record {
  incoming = frame id_data (codes "hi") ++ header id_done 0;
  ending = unexpected_eof;
  outgoing = [];
  writable = true;
}

abbrev stats : ℕ → DestStats
stats i = fresh

abbrev before : Fs
before p = none

abbrev place : FilePath
place = codes "a" ∷ codes "d" ∷ codes "f" ∷ []

abbrev outcome : FetchOutcome
outcome = record { bytes = 2; failed = (1, codes "full") ∷ [] }

fetch_one_test : (fetch_one shown host dests item true stats 7 session).result ≡ ok outcome
unfolding fetch_one safe_join split text_eq contains recv read_exact from_le write_out drive
    poll_write new finish flush_all note_failure_of
fetch_one_test = refl

plain : (n : Text) → file_name place ≢ some (n ++ temp_suffix)
unfolding file_name text_eq
plain [] e = cc
plain (c ∷ []) e = cc
plain (c ∷ d ∷ n) e = cc

apart : RootsApart dests item.targets
unfolding is_below text_eq
apart = (((refl, refl), tt), (tt, tt))

named : NamesEntry item.rel
unfolding split text_eq
named = refl

fetch_one-atomic_example :
    Always
      (λ g.
        (g place ≡ before place)
        ⊎ ((t : Text) × (sent shown item.remote session ≡ some t) × (g place ≡ some t)))
      (fetch_one shown host dests item true stats 7 session).ops
      before
fetch_one-atomic_example =
    fetch_one-atomic shown host dests item true stats 7 session place before (omega arith) named
      apart plain

fetch_one-Counts_example :
    Counts 7
      (fetch_one shown host dests item true stats 7 session).result
      (fetch_one shown host dests item true stats 7 session).counter
fetch_one-Counts_example = fetch_one-Counts shown host dests item true stats 7 session (omega arith)

some_open : is_nil (open_targets shown host dests item stats item.targets).0 ≡ false
unfolding open_targets safe_join split text_eq contains
some_open = refl

fetch_one-accounts_example :
    (any (λ x. x.0 == 0) outcome.failed ≡ true)
    ⊎ Arrived shown host dests item true stats 7 session 0
        (fetch_one shown host dests item true stats 7 session).ops
        before
fetch_one-accounts_example =
    fetch_one-accounts shown host dests item true stats 7 session 0 before outcome (omega arith)
      named apart some_open refl refl fetch_one_test

-- The tenth failure of the only destination is to create the file. It is counted, and nothing of it
-- is reported: the file counts as fetched.
abbrev broken : Host
broken = record host { create = λ p. some (codes "read-only") }

abbrev nine : ℕ → DestStats
nine i = record fresh { failures = 9 }

unreported_test :
    (fetch_one shown broken dests (record item { targets = 0 ∷ [] }) true nine 7 session).result
    ≡ ok (record { bytes = 0; failed = [] })
unfolding fetch_one safe_join split text_eq contains note_failure_of
unreported_test = refl
