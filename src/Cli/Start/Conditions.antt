-- ===== src/Cli/Start/Conditions.antt =====
-- What each way to begin a run, or to refuse it, says of the arguments and of what was asked.
use adbrsync.Common.{◌≡◌, ◌≢◌, Bool, true, false, List, ◌++◌}
use adbrsync.Common.{none, some, any, ◌⊎◌}
use adbrsync.Common.Text.{Text}
use adbrsync.Common.Result.{ok, err}
use adbrsync.Core.Filter.{GlobLib, Filter, new}
use adbrsync.Proto.Client.{serial_of, DeviceInfo, is_usable, resolve}
use adbrsync.Cli.Remote.{RemoteSpec, parse_remote, SourceProbe, missing, is_file_probe}
use adbrsync.Cli.Info.{resolve_info}
use adbrsync.Cli.Destinations.{resolve_destinations}
use adbrsync.Cli.Start.{StartArgs, Outside, Question, reads_excludes, lists_devices, asks_source}
use adbrsync.Cli.Start.{looks_at_destinations, patterns_of, selector_of, probe_source, StartError}
use adbrsync.Cli.Start.{not_a_device_path, unreadable_excludes, bad_pattern, no_device, unusable}
use adbrsync.Cli.Start.{source_missing, bad_destination, Started, Begun, helped, stopped, started}

abbrev pub is_look : Question → Bool
is_look looks_at_destinations = true
is_look (reads_excludes path) = false
is_look lists_devices = false
is_look (asks_source selector path) = false

module _ (G : GlobLib) (args : StartArgs) (outside : Outside) where
  abbrev pub probed : RemoteSpec → DeviceInfo → SourceProbe
  probed source device =
      probe_source outside.lossy outside.sync_stream (serial_of device.serial) source.path

  -- The exclude patterns are those of the command line, and those of the file if there is one.
  abbrev pub Patterns : List Text → Type 0
  Patterns excludes =
      ((args.exclude_from ≡ none) × (excludes ≡ args.exclude))
      ⊎ ((path : Text) × (text : Text) × (args.exclude_from ≡ some path)
          × (outside.read_file path ≡ ok text)
          × (excludes ≡ args.exclude ++ patterns_of text))

  abbrev pub IsBuilt : RemoteSpec → List Text → Filter G → Type 0
  IsBuilt source excludes filter =
      (parse_remote args.src ≡ some source)
      × Patterns excludes
      × (new G args.include excludes ≡ ok filter)

  abbrev pub IsChosen : RemoteSpec → List Text → Filter G → DeviceInfo → Type 0
  IsChosen source excludes filter device =
      IsBuilt source excludes filter
      × (resolve outside.lossy outside.devices_stream (selector_of source.serial) ≡ ok device)

  abbrev pub IsThere : RemoteSpec → List Text → Filter G → DeviceInfo → Type 0
  IsThere source excludes filter device =
      IsChosen source excludes filter device
      × (is_usable device ≡ true)
      × (probed source device ≢ missing)

  -- Why a run stops: all that comes before in the order has succeeded.
  abbrev pub Reason : StartError G → Type 0
  Reason (not_a_device_path src) = (src ≡ args.src) × (parse_remote args.src ≡ none)
  Reason (unreadable_excludes path e) =
      (source : RemoteSpec) × (parse_remote args.src ≡ some source)
      × (args.exclude_from ≡ some path)
      × (outside.read_file path ≡ err e)
  Reason (bad_pattern e) =
      (source : RemoteSpec) × (excludes : List Text) × (parse_remote args.src ≡ some source)
      × Patterns excludes
      × (new G args.include excludes ≡ err e)
  Reason (no_device e) =
      (source : RemoteSpec) × (excludes : List Text) × (filter : Filter G) × IsBuilt source excludes
        filter
      × (resolve outside.lossy outside.devices_stream (selector_of source.serial) ≡ err e)
  Reason (unusable device) =
      (source : RemoteSpec) × (excludes : List Text) × (filter : Filter G) × IsChosen source
        excludes filter device
      × (is_usable device ≡ false)
  Reason (source_missing path) =
      (source : RemoteSpec) × (excludes : List Text) × (filter : Filter G) × (device : DeviceInfo)
      × IsChosen source excludes filter device
      × (is_usable device ≡ true)
      × (probed source device ≡ missing)
      × (path ≡ source.path)
  Reason (bad_destination e) =
      (source : RemoteSpec) × (excludes : List Text) × (filter : Filter G) × (device : DeviceInfo)
      × IsThere source excludes filter device
      × (resolve_destinations outside.found outside.create args.dest_args outside.path_of
            outside.canonical source (is_file_probe (probed source device))
          ≡ err e)

  abbrev pub of_destinations : StartError G → Bool
  of_destinations (bad_destination e) = true
  of_destinations e = false

  -- What is known of a run that starts.
  pub record IsReady (s : Started G) : Type 0 where
    pub there : IsThere s.source s.excludes s.filter s.device
    pub selector : s.selector ≡ serial_of s.device.serial
    pub probe : s.probe ≡ probed s.source s.device
    pub destinations :
        resolve_destinations outside.found outside.create args.dest_args outside.path_of
          outside.canonical s.source
          (is_file_probe s.probe)
        ≡ ok (s.roots, s.skipped)

  abbrev pub Ordered : Begun G × List Question → Type 0
  Ordered (helped, qs) =
      (resolve_info args.progress args.stats args.verbose args.info ≡ none)
      × (any is_look qs ≡ false)
  Ordered (stopped e, qs) = Reason e × (any is_look qs ≡ of_destinations e)
  Ordered (started s, qs) = IsReady s
