-- ===== src/Proto/Client.antt =====
-- `AdbClient` of crates/adb-proto/src/client.rs: which device a request is aimed at, what the server
-- says of the connected devices, and the device that a selector means. Opening a TCP connection is
-- the environment's: a query is given the connection that it opened, or none.
pub mod Resolving
use adbrsync.Common.{ℕ, ◌++◌, Bool, not, true, false, if◌then◌else◌, Option, none, some, ◌||◌, ◌==◌}
use adbrsync.Common.{List, [], ◌∷◌, map, keep, filter_map, ◌&&◌, leb}
use adbrsync.Common.Text.{Text, codes, text_eq, is_empty, split, strip_prefix}
use adbrsync.Common.Result.{Result, ok, err, ◌>>=◌}
use adbrsync.Common.Sort.{sort_by}
use adbrsync.Common.TextOrder.{text_leb, dedup}
use adbrsync.Common.Words.{split_whitespace, trim, lines}
use adbrsync.Proto.Error.{Error, no_device, unknown_serial, ambiguous_device, server_unreachable}
use adbrsync.Proto.Stream.{Stream, ◌>>◌, request, read_length_prefixed}

pub data DeviceSelector : Type 0 where
  any_device : DeviceSelector
  serial_of : Text → DeviceSelector

unfoldable pub transport_request : DeviceSelector → Text
transport_request any_device = codes "host:transport-any"
transport_request (serial_of s) = codes "host:transport:" ++ s

unfoldable pub host_request : DeviceSelector → Text → Text
host_request any_device service = codes "host:" ++ service
host_request (serial_of s) service = codes "host-serial:" ++ s ++ codes ":" ++ service

pub record DeviceInfo : Type 0 where
  pub serial : Text
  pub state : Text
  pub model : Option Text

unfoldable pub is_usable : DeviceInfo → Bool
is_usable d = text_eq d.state (codes "device")

-- `find_map`
abbrev pub first_some : (Text → Option Text) → List Text → Option Text
first_some f [] = none
first_some f (x ∷ xs) = elim (f x) [ none ↦ first_some f xs | some y ↦ some y ]

unfoldable pub parse_device_line : Text → Option DeviceInfo
parse_device_line line = elim (split_whitespace line) [
  | [] ↦ none
  | serial ∷ ws ↦ elim ws [
    | [] ↦ none
    | state ∷ parts ↦ some (record {
      serial = serial;
      state = state;
      model = first_some (λ p. strip_prefix p (codes "model:")) parts;
    })
  ]
]

-- `Iterator::find`
abbrev pub find_serial : Text → List DeviceInfo → Option DeviceInfo
find_serial serial [] = none
find_serial serial (d ∷ ds) =
    let rest = find_serial serial ds in if text_eq d.serial serial then some d else rest

-- `resolve`, once the server has listed the devices.
unfoldable pub choose : DeviceSelector → List DeviceInfo → Result Error DeviceInfo
unfolding is_usable
choose (serial_of serial) devices = elim (find_serial serial devices) [
  | some d ↦ ok d
  | none ↦ err (unknown_serial serial (map (λ d. d.serial) devices))
]
choose any_device devices = elim (keep is_usable devices) [
  | [] ↦ err no_device
  | d ∷ ds ↦ elim ds [
    | [] ↦ ok d
    | e ∷ es ↦ err (ambiguous_device (map (λ d. d.serial) (d ∷ e ∷ es)))
  ]
]

module _ (lossy : Text → Text) where
  -- A query has a connection of its own, or could not connect.
  unfoldable pub host_query : Option Stream → Text → Result Error Text
  host_query none text = err server_unreachable
  host_query (some s) text = ((request lossy text >> read_length_prefixed lossy) s).0

  unfoldable pub devices : Option Stream → Result Error (List DeviceInfo)
  unfolding host_query parse_device_line
  devices connection = host_query connection (codes "host:devices-l") >>= λ raw.
      ok (filter_map parse_device_line (lines raw))

  unfoldable pub resolve : Option Stream → DeviceSelector → Result Error DeviceInfo
  unfolding devices choose
  resolve connection selector = devices connection >>= choose selector

  -- The set is an ordered list of texts here.
  unfoldable pub features : Option Stream → DeviceSelector → Result Error (List Text)
  unfolding host_query host_request
  features connection selector =
      host_query connection (host_request selector (codes "features")) >>= λ raw.
      ok (dedup (sort_by text_leb (keep (λ s. not (is_empty s)) (map trim (split b',' raw)))))

  unfoldable pub open_service : Option Stream → DeviceSelector → Text → Result Error Stream
  unfolding transport_request
  open_service none selector service = err server_unreachable
  open_service (some s) selector service =
      let (r, t) = (request lossy (transport_request selector) >> request lossy service) s in
      r >>= λ u. ok t
