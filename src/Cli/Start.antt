-- ===== src/Cli/Start.antt =====
-- `run` of crates/adbrsync-cli/src/main.rs up to the scans, and `probe_source`: what is settled before
-- anything is read or written, in the order in which it is reported. What the server, the device and
-- the file system answer is given (`Outside`). The result comes with what was asked of them, in order.
-- Warnings are left out.
pub mod Conditions
pub mod Order
mod Examples
use adbrsync.Common.{ℕ, Bool, true, false, not, ◌&&◌, if◌then◌else◌, List, [], ◌∷◌, ◌++◌, map, keep}
use adbrsync.Common.{Option, none, some}
use adbrsync.Common.Text.{Text, codes, is_empty, starts_with}
use adbrsync.Common.Words.{trim, lines}
use adbrsync.Common.Result.{Result, ok, err}
use adbrsync.Core.Entry.{FilePath}
use adbrsync.Core.Filter.{GlobLib, Filter, FilterError, new}
use adbrsync.Proto.Error
use adbrsync.Proto.Stream.{Stream}
use adbrsync.Proto.Client.{DeviceSelector, any_device, serial_of, DeviceInfo, is_usable, resolve}
use adbrsync.Proto.Client.{open_service}
use adbrsync.Proto.Sync.{SyncStat, stat}
use adbrsync.Cli.Remote.{
  RemoteSpec, parse_remote, SourceProbe, missing, file, other, classify, is_file_probe,
}
use adbrsync.Cli.Info.{InfoFlags, resolve_info}
use adbrsync.Cli.Destinations.{Found, DestArgs, DestError, resolve_destinations}

pub record StartArgs : Type 0 where
  pub src : Text
  pub dest_args : DestArgs
  pub exclude : List Text
  pub exclude_from : Option Text
  pub include : List Text
  pub progress : Bool
  pub stats : Bool
  pub verbose : ℕ
  pub info : Option Text

pub record Outside : Type 0 where
  pub lossy : Text → Text
  pub read_file : Text → Result Text Text
  pub devices_stream : Option Stream
  pub sync_stream : Option Stream
  pub found : Text → Found
  pub create : Text → Option Text
  pub path_of : Text → FilePath
  pub canonical : Text → FilePath

-- What is asked. Where the destinations are looked at, --mkpath creates them.
pub data Question : Type 0 where
  reads_excludes : Text → Question
  lists_devices : Question
  asks_source : DeviceSelector → Text → Question
  looks_at_destinations : Question

-- The lines of an exclude file that are patterns.
abbrev pub is_pattern : Text → Bool
is_pattern line = not (is_empty line) && not (starts_with line (codes "#"))

unfoldable pub patterns_of : Text → List Text
patterns_of text = keep is_pattern (map trim (lines text))

abbrev pub selector_of : Option Text → DeviceSelector
selector_of none = any_device
selector_of (some serial) = serial_of serial

abbrev probe_stat : Result Error.Error SyncStat → SourceProbe
probe_stat (ok st) = classify st
probe_stat (err e) = other

unfoldable pub probe_source : (Text → Text) → Option Stream → DeviceSelector → Text → SourceProbe
unfolding stat classify
probe_source lossy connection selector path =
    elim (open_service lossy connection selector (codes "sync:")) [
      | err e ↦ other
      | ok session ↦ probe_stat ((stat path session).0)
    ]

module _ (G : GlobLib) where
  pub data StartError : Type 0 where
    not_a_device_path : Text → StartError
    unreadable_excludes : Text → Text → StartError
    bad_pattern : FilterError G → StartError
    no_device : Error.Error → StartError
    unusable : DeviceInfo → StartError
    source_missing : Text → StartError
    bad_destination : DestError → StartError

  pub record Started : Type 0 where
    pub source : RemoteSpec
    pub excludes : List Text
    pub filter : Filter G
    pub device : DeviceInfo
    pub selector : DeviceSelector
    pub probe : SourceProbe
    pub roots : List FilePath
    pub skipped : List Text

  -- `--info=help` ends the run at once.
  pub data Begun : Type 0 where
    helped : Begun
    stopped : StartError → Begun
    started : Started → Begun

  abbrev pub after : Question → Begun × List Question → Begun × List Question
  after q (b, qs) = (b, q ∷ qs)

  module _ (args : StartArgs) (outside : Outside) where
    unfoldable pub take_destinations :
        RemoteSpec → List Text → Filter G → DeviceInfo → SourceProbe → Begun × List Question
    take_destinations source excludes filter device probe = (
      elim (resolve_destinations outside.found outside.create args.dest_args outside.path_of
          outside.canonical source (is_file_probe probe)) [
            | err e ↦ stopped (bad_destination e)
            | ok (roots, skipped) ↦ started (record {
              source = source;
              excludes = excludes;
              filter = filter;
              device = device;
              selector = serial_of device.serial;
              probe = probe;
              roots = roots;
              skipped = skipped;
            })
          ],
      looks_at_destinations ∷ [],
    )

    -- The resolved serial is pinned.
    unfoldable pub check_source :
        RemoteSpec → List Text → Filter G → DeviceInfo → Begun × List Question
    unfolding take_destinations
    check_source source excludes filter device =
        let selector = serial_of device.serial in
        after (asks_source selector source.path)
          (elim (probe_source outside.lossy outside.sync_stream selector source.path) [
            | missing ↦ (stopped (source_missing source.path), [])
            | file ↦ take_destinations source excludes filter device file
            | other ↦ take_destinations source excludes filter device other
          ])

    unfoldable pub choose_device : RemoteSpec → List Text → Filter G → Begun × List Question
    unfolding check_source
    choose_device source excludes filter =
        after lists_devices
          (elim (resolve outside.lossy outside.devices_stream (selector_of source.serial)) [
            | err e ↦ (stopped (no_device e), [])
            | ok device ↦
                if is_usable device
                then check_source source excludes filter device
                else (stopped (unusable device), [])
          ])

    unfoldable pub build_filter : RemoteSpec → List Text → Begun × List Question
    unfolding choose_device
    build_filter source excludes = elim (new G args.include excludes) [
      | err e ↦ (stopped (bad_pattern e), [])
      | ok filter ↦ choose_device source excludes filter
    ]

    unfoldable pub read_excludes : RemoteSpec → Begun × List Question
    unfolding build_filter patterns_of
    read_excludes source = elim args.exclude_from [
      | none ↦ build_filter source args.exclude
      | some path ↦ after (reads_excludes path) (elim (outside.read_file path) [
        | err e ↦ (stopped (unreadable_excludes path e), [])
        | ok text ↦ build_filter source (args.exclude ++ patterns_of text)
      ])
    ]

    unfoldable pub begin : Begun × List Question
    unfolding read_excludes
    begin = elim (resolve_info args.progress args.stats args.verbose args.info) [
      | none ↦ (helped, [])
      | some flags ↦ elim (parse_remote args.src) [
        | none ↦ (stopped (not_a_device_path args.src), [])
        | some source ↦ read_excludes source
      ]
    ]
