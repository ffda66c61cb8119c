-- ===== src/Cli/Start/Examples.antt =====
-- A run for two drives that begins: the pictures of a phone, with an exclude file.
use adbrsync.Common.{ℕ, ◌≡◌, refl, true, false, List, [], ◌∷◌, ◌++◌, none, some, any}
use adbrsync.Common.Text.{Text, codes, split, text_eq, starts_with, trim_end}
use adbrsync.Common.Words.{lines, trim, split_whitespace}
use adbrsync.Common.Int.{pos}
use adbrsync.Common.Result.{ok}
use adbrsync.Core.Filter.{GlobLib, new}
use adbrsync.Proto.Error.{unexpected_eof}
use adbrsync.Proto.Stream.{Stream, request, read_exact, digit_16}
use adbrsync.Proto.Client.{serial_of, resolve, open_service}
use adbrsync.Proto.Bytes.{from_le}
use adbrsync.Proto.Sync.Stats.{StatRecord, stat_bytes}
use adbrsync.Cli.Remote.{parse_remote}
use adbrsync.Cli.Info.{resolve_info}
use adbrsync.Cli.Destinations.{directory}
use adbrsync.Cli.Start.{
  StartArgs, Outside, reads_excludes, lists_devices, asks_source, begin, probe_source,
}
use adbrsync.Cli.Start.{stopped, source_missing}
use adbrsync.Cli.Start.Conditions.{Ordered}
use adbrsync.Cli.Start.Order.{begin-Ordered}

-- A globset whose globs match a path that they equal.
abbrev plain : GlobLib
plain = record {
  Glob = Text;
  GlobSet = List Text;
  GlobError = Text;
  glob_new = λ t. ok t;
  set_build = λ gs. ok gs;
  is_match = λ gs t. any (text_eq t) gs;
}

abbrev args : StartArgs
args = record {
  src = codes "device:/sd/P";
  dest_args = record {
    dests = codes "a" ∷ codes "b" ∷ [];
    mkpath = false;
    skip_missing_dest = false;
  };
  exclude = codes "t" ∷ [];
  exclude_from = some (codes "x");
  include = [];
  progress = false;
  stats = false;
  verbose = 0;
  info = none;
}

abbrev sends : Text → Stream
sends t = record { incoming = t; ending = unexpected_eof; outgoing = []; writable = true }

-- What the stat service says of a path with this mode.
abbrev said_of : ℕ → StatRecord
said_of mode = record {
  error = 0;
  dev = 1;
  ino = 7;
  mode = mode;
  nlink = 1;
  uid = 0;
  gid = 0;
  size = 0;
  atime = 3;
  mtime = pos 3;
  ctime = 3;
}

abbrev with_mode : ℕ → Outside
with_mode mode = record {
  lossy = λ t. t;
  read_file = λ path. ok (codes "# none\n u ");
  devices_stream = some (sends (codes "OKAY0009A1 device"));
  sync_stream = some (sends (codes "OKAYOKAYSTA2" ++ stat_bytes (said_of mode)));
  found = λ raw. directory;
  create = λ raw. none;
  path_of = λ raw. raw ∷ [];
  canonical = λ raw. raw ∷ [];
}

-- A zero mode means that the path is absent, and the destinations are not looked at.
absent_test : begin plain args (with_mode 0) ≡ (
  stopped (source_missing (codes "/sd/P")),
  reads_excludes (codes "x")
      ∷ lists_devices
      ∷ asks_source (serial_of (codes "A1")) (codes "/sd/P")
      ∷ [],
)
unfolding begin resolve_info parse_remote starts_with new lines split trim resolve request
    read_exact text_eq digit_16 split_whitespace probe_source trim_end open_service from_le
absent_test = refl

begin-Ordered_example :
    Ordered plain args (with_mode 0o40755) (begin plain args (with_mode 0o40755))
begin-Ordered_example = begin-Ordered plain args (with_mode 0o40755)

-- A no-break space and an ideographic one go too.
trim_test : trim (0xc2 ∷ 0xa0 ∷ codes "u v" ++ 0xe3 ∷ 0x80 ∷ 0x80 ∷ []) ≡ codes "u v"
unfolding trim
trim_test = refl
