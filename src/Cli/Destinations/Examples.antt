-- ===== src/Cli/Destinations/Examples.antt =====
-- A file for two drives, and a source that ends in `..`.
use mathlib.Core.List.{Mem, mem-cons_self}
use adbrsync.Common.{
  ℕ, ◌≡◌, ◌≢◌, refl, arith, true, false, List, [], ◌∷◌, ◌++◌, map, Option, none, some,
}
use adbrsync.Common.{◌⊎◌, keep, ◌||◌, if◌then◌else◌}
use adbrsync.Common.Text.{Text, codes, split, text_eq}
use adbrsync.Common.Int.{pos}
use adbrsync.Common.Sort.{sort_by}
use adbrsync.Common.Result.{ok}
use adbrsync.Proto.Error.{unexpected_eof}
use adbrsync.Proto.Stream.{Stream}
use adbrsync.Proto.Sync.{id_data, id_done}
use adbrsync.Proto.Stream.Frames.{header, frame}
use adbrsync.Core.Entry.{FilePath, file, RemoteEntry}
use adbrsync.Core.Plan.{PlanOptions, DestState, TransferItem, build, visit_dests, index, classify}
use adbrsync.Core.Destinations.{DestStats, fresh}
use adbrsync.Core.Fanout.{took}
use adbrsync.Core.Fetch.{Host, fetch_one}
use adbrsync.Core.Fetch.Store.{Fs, Always}
use adbrsync.Core.Fetch.Atomic.{sent}
use adbrsync.Core.Fetch.Clashes.{temp_suffix, NamesEntry}
use adbrsync.Core.Paths.{file_name}
use adbrsync.Cli.Remote.{RemoteSpec, parse_remote}
use adbrsync.Cli.Destinations.{Found, directory, absent, DestArgs, resolve_destinations}
use adbrsync.Cli.Destinations.Apart.{is_taken}
use adbrsync.Cli.Destinations.Placed.{places-parent}
use adbrsync.Cli.Destinations.Fetching.{place_at, planned_fetch-atomic}

abbrev drives : Text → Found
drives raw = if text_eq raw (codes "a") || text_eq raw (codes "b") then directory else absent

abbrev args : DestArgs
args = record { dests = codes "a" ∷ codes "b" ∷ []; mkpath = false; skip_missing_dest = false }

abbrev created : Text → Option Text
created raw = none

abbrev in_mnt : Text → FilePath
in_mnt raw = codes "mnt" ∷ raw ∷ []

abbrev source : RemoteSpec
source = record { serial = none; path = codes "/sdcard/DCIM"; trailing_slash = false }

abbrev places : List FilePath
places =
    (codes "mnt" ∷ codes "a" ∷ codes "DCIM" ∷ [])
    ∷ (codes "mnt" ∷ codes "b" ∷ codes "DCIM" ∷ [])
    ∷ []

abbrev picture : RemoteEntry
picture = record {
  rel = codes "f";
  remote = codes "/sdcard/DCIM/f";
  kind = file;
  size = 2;
  mtime = pos 5;
  mode = 0o644;
}

abbrev item : TransferItem
item = record {
  rel = codes "f";
  remote = codes "/sdcard/DCIM/f";
  size = 2;
  mtime = pos 5;
  targets = 0 ∷ 1 ∷ [];
}

abbrev empty_state : FilePath → DestState
empty_state p = record { root = p; local = []; digests = record { matched = λ rel. false } }

abbrev states : List DestState
states = map empty_state places

abbrev opts : PlanOptions
opts = record {
  delete = true;
  mtime_tolerance = pos 1;
  min_size = none;
  max_size = none;
  checksum = false;
}

item_planned : Mem item (build (λ rel. true) states opts (picture ∷ [])).transfers
unfolding build visit_dests index classify sort_by text_eq
item_planned = mem-cons_self

abbrev host : Host
host = record {
  create_dir_all = λ p. none;
  create = λ p. none;
  rename = λ p q. none;
  set_mtime = λ p t. none;
  polls = ((took 2 ∷ took 2 ∷ []) ∷ []) ∷ [];
  flushes = [];
}

abbrev session : Stream
session = record {
  incoming = frame id_data (codes "hi") ++ header id_done 0;
  ending = unexpected_eof;
  outgoing = [];
  writable = true;
}

abbrev stats : ℕ → DestStats
stats i = fresh

abbrev before : Fs
before p = none

abbrev place : FilePath
place = codes "mnt" ∷ codes "a" ∷ codes "DCIM" ∷ codes "f" ∷ []

abbrev shown : Text → Text
shown s = s

plain : (n : Text) → file_name place ≢ some (n ++ temp_suffix)
unfolding file_name text_eq
plain [] e = cc
plain (c ∷ []) e = cc
plain (c ∷ d ∷ n) e = cc

accepted : resolve_destinations drives created args in_mnt in_mnt source false ≡ ok (places, [])
unfolding resolve_destinations parse_remote text_eq split
accepted = refl

named : NamesEntry item.rel
unfolding split text_eq
named = refl

planned_fetch-atomic_example :
    Always
      (λ g.
        (g place ≡ before place)
        ⊎ ((s : Text) × (sent shown item.remote session ≡ some s) × (g place ≡ some s)))
      (fetch_one shown host (place_at places) item true stats 7 session).ops
      before
planned_fetch-atomic_example =
    planned_fetch-atomic drives created args in_mnt in_mnt source false places [] (λ rel. true)
      states opts (picture ∷ []) item shown host true stats 7 session place before accepted
      (λ raw. refl) refl item_planned (omega arith) named plain

-- `device:/sdcard/DCIM/..`
abbrev above : RemoteSpec
above = record { serial = none; path = codes "/sdcard/DCIM/.."; trailing_slash = false }

abbrev parents : List FilePath
parents =
    (codes "mnt" ∷ codes "a" ∷ codes ".." ∷ []) ∷ (codes "mnt" ∷ codes "b" ∷ codes ".." ∷ []) ∷ []

places-parent_example :
    parents
    ≡ map (λ r. in_mnt r ++ codes ".." ∷ []) (keep (is_taken drives created args) args.dests)
unfolding resolve_destinations parse_remote text_eq split
places-parent_example =
    places-parent drives created args in_mnt in_mnt above false parents [] refl refl refl refl
