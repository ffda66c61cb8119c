-- ===== src/Cli/Start/Order.antt =====
-- Each way to begin a run, or to refuse it, meets its condition.
use adbrsync.Common.{◌≡◌, ◌≢◌, refl, sym, ◌∙◌, arith, true, false, if◌then◌else◌, List, [], ◌++◌}
use adbrsync.Common.{Option, none, some, inl, inr, Bool-cases, Option-cases}
use adbrsync.Common.Text.{Text}
use adbrsync.Common.Result.{Result, ok, err, Result-cases}
use adbrsync.Core.Filter.{GlobLib, Filter, FilterError, new}
use adbrsync.Proto.Error
use adbrsync.Proto.Client.{serial_of, DeviceInfo, is_usable, resolve}
use adbrsync.Cli.Remote.{RemoteSpec, parse_remote, SourceProbe, missing, file, other, is_file_probe}
use adbrsync.Cli.Info.{InfoFlags, resolve_info}
use adbrsync.Cli.Destinations.{resolve_destinations}
use adbrsync.Cli.Start.{StartArgs, Outside, Question, reads_excludes, lists_devices, asks_source}
use adbrsync.Cli.Start.{patterns_of, selector_of}
use adbrsync.Cli.Start.{not_a_device_path, unreadable_excludes, bad_pattern, no_device, unusable}
use adbrsync.Cli.Start.{source_missing, Begun, helped, stopped, started}
use adbrsync.Cli.Start.{take_destinations, check_source, choose_device, build_filter, read_excludes}
use adbrsync.Cli.Start.{begin, after}
use adbrsync.Cli.Start.Conditions.{is_look, Patterns, IsBuilt, IsChosen, Ordered, probed}

module _ (G : GlobLib) (args : StartArgs) (outside : Outside) where
  after-Ordered :
      (q : Question) (x : Begun G × List Question)
      → is_look q ≡ false
      → Ordered G args outside x
      → Ordered G args outside (after G q x)
  after-Ordered q (helped, qs) n h = (h.0, ground (arith, h.1))
  after-Ordered q (stopped e, qs) n h = (h.0, ground (arith, h.1))
  after-Ordered q (started s, qs) n h = h

  take_destinations-Ordered :
      (source : RemoteSpec) (excludes : List Text) (filter : Filter G) (device : DeviceInfo)
      (probe : SourceProbe)
      → probed G args outside source device ≡ probe
      → probe ≢ missing
      → IsChosen G args outside source excludes filter device
      → is_usable device ≡ true
      → Ordered G args outside
          (take_destinations G args outside source excludes filter device probe)
  unfolding take_destinations
  take_destinations-Ordered source excludes filter device probe e there chosen usable =
      elim (Result-cases (
        resolve_destinations outside.found outside.create args.dest_args outside.path_of
          outside.canonical source (is_file_probe probe))) [
            | inl ((roots, skipped), f) ↦ rw f (record {
              there = (chosen, usable, λ m. there (sym e ∙ m));
              selector = refl;
              probe = sym e;
              destinations = f;
            })
            | inr (x, f) ↦ rw f (
              (source, excludes, filter, device, (chosen, usable, λ m. there (sym e ∙ m)), rw e f),
              refl,
            )
          ]

  -- What follows the probe.
  abbrev on_probe :
      RemoteSpec → List Text → Filter G → DeviceInfo → SourceProbe → Begun G × List Question
  on_probe source excludes filter device missing = (stopped (source_missing source.path), [])
  on_probe source excludes filter device file =
      take_destinations G args outside source excludes filter device file
  on_probe source excludes filter device other =
      take_destinations G args outside source excludes filter device other

  module _ (source : RemoteSpec) (excludes : List Text) (filter : Filter G) where
    on_probe-Ordered :
        (device : DeviceInfo) (probe : SourceProbe)
        → probed G args outside source device ≡ probe
        → IsChosen G args outside source excludes filter device
        → is_usable device ≡ true
        → Ordered G args outside (on_probe source excludes filter device probe)
    on_probe-Ordered device missing e chosen usable =
        ((source, excludes, filter, device, chosen, usable, e, refl), refl)
    on_probe-Ordered device file e chosen usable =
        take_destinations-Ordered source excludes filter device file e (λ m. cc) chosen usable
    on_probe-Ordered device other e chosen usable =
        take_destinations-Ordered source excludes filter device other e (λ m. cc) chosen usable

    check_source_lem :
        (device : DeviceInfo)
        → check_source G args outside source excludes filter device
          ≡ after G
              (asks_source (serial_of device.serial) source.path)
              (on_probe source excludes filter device (probed G args outside source device))
    unfolding check_source
    check_source_lem device = ground arith

    check_source-Ordered :
        (device : DeviceInfo)
        → IsChosen G args outside source excludes filter device
        → is_usable device ≡ true
        → Ordered G args outside (check_source G args outside source excludes filter device)
    check_source-Ordered device chosen usable = rw (check_source_lem device) (
        after-Ordered (asks_source (serial_of device.serial) source.path)
          (on_probe source excludes filter device (probed G args outside source device)) refl
          (on_probe-Ordered device (probed G args outside source device) refl chosen usable))

    abbrev on_device : Result Error.Error DeviceInfo → Begun G × List Question
    on_device (err e) = (stopped (no_device e), [])
    on_device (ok device) =
        if is_usable device
        then check_source G args outside source excludes filter device
        else (stopped (unusable device), [])

    choose_device_lem :
        choose_device G args outside source excludes filter
        ≡ after G lists_devices
            (on_device (resolve outside.lossy outside.devices_stream (selector_of source.serial)))
    unfolding choose_device
    choose_device_lem = ground arith

    choose_device-Ordered :
        IsBuilt G args outside source excludes filter
        → Ordered G args outside (choose_device G args outside source excludes filter)
    choose_device-Ordered built =
        elim (Result-cases
          (resolve outside.lossy outside.devices_stream (selector_of source.serial))) [
            | inr (e, f) ↦ rw (choose_device_lem, f) ((source, excludes, filter, built, f), refl)
            | inl (device, f) ↦ elim (Bool-cases (is_usable device)) [
              | inr u ↦
                  rw (choose_device_lem, f, u) ((source, excludes, filter, (built, f), u), refl)
              | inl u ↦
                  rw (choose_device_lem, f, u)
                    (after-Ordered lists_devices
                      (check_source G args outside source excludes filter device) refl
                      (check_source-Ordered device (built, f) u))
            ]
          ]

  module _ (source : RemoteSpec) (parsed : parse_remote args.src ≡ some source) where
    abbrev on_filter : List Text → Result (FilterError G) (Filter G) → Begun G × List Question
    on_filter excludes (err e) = (stopped (bad_pattern e), [])
    on_filter excludes (ok filter) = choose_device G args outside source excludes filter

    build_filter_lem :
        (excludes : List Text)
        → build_filter G args outside source excludes
          ≡ on_filter excludes (new G args.include excludes)
    unfolding build_filter
    build_filter_lem excludes = ground arith

    build_filter-Ordered :
        (excludes : List Text)
        → Patterns G args outside excludes
        → Ordered G args outside (build_filter G args outside source excludes)
    build_filter-Ordered excludes patterns = elim (Result-cases (new G args.include excludes)) [
      | inr (e, f) ↦ rw (build_filter_lem, f) ((source, excludes, parsed, patterns, f), refl)
      | inl (filter, f) ↦
          rw (build_filter_lem, f)
            (choose_device-Ordered source excludes filter (parsed, patterns, f))
    ]

    abbrev on_text : Text → Result Text Text → Begun G × List Question
    on_text path (err e) = (stopped (unreadable_excludes path e), [])
    on_text path (ok text) = build_filter G args outside source (args.exclude ++ patterns_of text)

    abbrev on_path : Option Text → Begun G × List Question
    on_path none = build_filter G args outside source args.exclude
    on_path (some path) = after G (reads_excludes path) (on_text path (outside.read_file path))

    read_excludes_lem : read_excludes G args outside source ≡ on_path args.exclude_from
    unfolding read_excludes
    read_excludes_lem = ground arith

    on_text-Ordered :
        (path : Text)
        → args.exclude_from ≡ some path
        → Ordered G args outside (on_text path (outside.read_file path))
    on_text-Ordered path given = elim (Result-cases (outside.read_file path)) [
      | inr (e, f) ↦ rw f ((source, parsed, given, f), refl)
      | inl (text, f) ↦ rw f (
          build_filter-Ordered (args.exclude ++ patterns_of text)
            (inr (path, text, given, f, refl)))
    ]

    on_path-Ordered :
        (given : Option Text) → args.exclude_from ≡ given → Ordered G args outside (on_path given)
    on_path-Ordered none e = build_filter-Ordered args.exclude (inl (e, refl))
    on_path-Ordered (some path) e =
        after-Ordered (reads_excludes path) (on_text path (outside.read_file path)) refl
          (on_text-Ordered path e)

    read_excludes-Ordered : Ordered G args outside (read_excludes G args outside source)
    read_excludes-Ordered = rw read_excludes_lem (on_path-Ordered args.exclude_from refl)

  abbrev on_source : Option RemoteSpec → Begun G × List Question
  on_source none = (stopped (not_a_device_path args.src), [])
  on_source (some source) = read_excludes G args outside source

  abbrev on_flags : Option InfoFlags → Begun G × List Question
  on_flags none = (helped, [])
  on_flags (some flags) = on_source (parse_remote args.src)

  begin_lem :
      begin G args outside ≡ on_flags (resolve_info args.progress args.stats args.verbose args.info)
  unfolding begin
  begin_lem = ground arith

  on_source-Ordered :
      (source : Option RemoteSpec)
      → parse_remote args.src ≡ source
      → Ordered G args outside (on_source source)
  on_source-Ordered none e = ((refl, e), refl)
  on_source-Ordered (some source) e = read_excludes-Ordered source e

  -- Each refusal of a run says which check failed on which value, and that every check before it in
  -- the order passed: the source, the exclude file, the patterns, the device, its state, the source on
  -- the device, the destinations. The destinations are looked at only if all before them passed. A run
  -- that starts has passed all of them, with the serial of the device that was found.
  pub begin-Ordered : Ordered G args outside (begin G args outside)
  begin-Ordered =
      elim (Option-cases (resolve_info args.progress args.stats args.verbose args.info)) [
        | inl e ↦ rw (begin_lem, e) (e, refl)
        | inr (flags, e) ↦ rw (begin_lem, e) (on_source-Ordered (parse_remote args.src) refl)
      ]
