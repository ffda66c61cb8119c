-- ===== src/Proto/Client/Resolving.antt =====
-- Which device a selector means, how a line on a device is read, and what opening a service sends.
use mathlib.Core.List.{Mem, mem-cons_self, mem-cons_of_mem}
use adbrsync.Common.{◌^◌, ◌≤◌, ◌<◌, ◌≡◌, refl, arith, Bool, true, false}
use adbrsync.Common.{List, [], ◌∷◌, ◌++◌, Option, none, some, All, all, not, keep, count_of, length}
use adbrsync.Common.{length-map, map, Bool-cases, inl, inr, sym, ap, ◌∙◌}
use adbrsync.Common.Members.{mem-keep_iff}
use adbrsync.Common.Text.{Text, codes, text_eq, text_eq_iff, join, strip_prefix}
use adbrsync.Common.Words.{IsWord, split_whitespace-join}
use adbrsync.Common.Result.{Result, ok, err}
use adbrsync.Proto.Error.{Error, no_device, unknown_serial}
use adbrsync.Proto.Error.{ambiguous_device}
use adbrsync.Proto.Stream.{Stream, hex4}
use adbrsync.Proto.Stream.Frames.{feed}
use adbrsync.Proto.Stream.Handshake.{answer_bytes, okay, request_answered}
use adbrsync.Proto.Client.{
  DeviceSelector, any_device, serial_of, DeviceInfo, is_usable, find_serial, choose, first_some,
  parse_device_line, transport_request, open_service,
}

-- What each result of `choose` says of the devices.
abbrev pub IsChoice : DeviceSelector → List DeviceInfo → Result Error DeviceInfo → Type 0
IsChoice any_device ds (ok d) = Mem d ds × (is_usable d ≡ true) × (count_of is_usable ds ≡ 1)
IsChoice (serial_of s) ds (ok d) = Mem d ds × (d.serial ≡ s)
IsChoice any_device ds (err e) = elim e [
  | no_device ↦ count_of is_usable ds ≡ 0
  | ambiguous_device names ↦ (2 ≤ count_of is_usable ds) × (length names ≡ count_of is_usable ds)
  | _ ↦ ⊥
]
IsChoice (serial_of s) ds (err e) = elim e [
  | unknown_serial t names ↦
      (t ≡ s) × (names ≡ map (λ d. d.serial) ds) × (all (λ d. not (text_eq d.serial s)) ds ≡ true)
  | _ ↦ ⊥
]

-- What the search for a serial finds.
abbrev Finds : Text → List DeviceInfo → Option DeviceInfo → Type 0
Finds s ds none = all (λ d. not (text_eq d.serial s)) ds ≡ true
Finds s ds (some d) = Mem d ds × (d.serial ≡ s)

Finds-cons :
    (s : Text) (d : DeviceInfo) (ds : List DeviceInfo) (o : Option DeviceInfo)
    → text_eq d.serial s ≡ false
    → Finds s ds o
    → Finds s (d ∷ ds) o
Finds-cons s d ds none e h = ground (arith, e, h)
Finds-cons s d ds (some x) e h = (mem-cons_of_mem d h.0, h.1)

find_serial-Finds : (s : Text) (ds : List DeviceInfo) → Finds s ds (find_serial s ds)
find_serial-Finds s [] = refl
find_serial-Finds s (d ∷ ds) = elim (Bool-cases (text_eq d.serial s)) [
  | inl e ↦ rw e (mem-cons_self, (text_eq_iff d.serial s).0 e)
  | inr e ↦ rw e (Finds-cons s d ds (find_serial s ds) e (find_serial-Finds s ds))
]

length-keep : (p : DeviceInfo → Bool) (ds : List DeviceInfo) → length (keep p ds) ≡ count_of p ds
length-keep p [] = refl
length-keep p (d ∷ ds) = ground (arith, length-keep p ds)

-- The names of the devices that are usable, if they are `us`.
any-IsChoice :
    (ds us : List DeviceInfo)
    → keep is_usable ds ≡ us
    → IsChoice any_device ds (elim us [
      | [] ↦ err no_device
      | d ∷ vs ↦ elim vs [
        | [] ↦ ok d
        | e ∷ es ↦ err (ambiguous_device (map (λ d. d.serial) (d ∷ e ∷ es)))
      ]
    ])
any-IsChoice ds [] h = sym (length-keep is_usable ds) ∙ ap length h
any-IsChoice ds (d ∷ []) h =
    let m = (mem-keep_iff is_usable ds).0 (rw h (mem-cons_self {a = d})) in
    (m.0, m.1, sym (length-keep is_usable ds) ∙ ap length h)
any-IsChoice ds (d ∷ e ∷ es) h =
    let n = sym (length-keep is_usable ds) ∙ ap length h in
    (omega (arith, n), omega (arith, n, length-map (λ d. d.serial) es))

-- The device that a selector is resolved to is listed by the server. Without a serial it is the only
-- usable one, and the error says that there is none or names at least two; with a serial it has that
-- serial, and the error says that no device has it and names them all.
pub choose-IsChoice :
    (selector : DeviceSelector) (ds : List DeviceInfo) → IsChoice selector ds (choose selector ds)
unfolding choose
choose-IsChoice any_device ds = any-IsChoice ds (keep is_usable ds) refl
choose-IsChoice (serial_of s) ds = go (find_serial s ds) (find_serial-Finds s ds)
  where
    go :
        (o : Option DeviceInfo)
        → Finds s ds o
        → IsChoice
            (serial_of s)
            ds
            (elim o [ some d ↦ ok d | none ↦ err (unknown_serial s (map (λ d. d.serial) ds)) ])
    go none h = (refl, refl, h)
    go (some d) h = h

-- A line of the server's list, words joined by spaces, gives the first as the serial, the second as
-- the state and the first further word that starts with `model:` as the model.
pub parse_device_line-join :
    (serial state : Text) (props : List Text)
    → All IsWord (serial ∷ state ∷ props)
    → parse_device_line (join 32 (serial ∷ state ∷ props))
      ≡ some (record {
        serial = serial;
        state = state;
        model = first_some (λ p. strip_prefix p (codes "model:")) props;
      })
unfolding parse_device_line
parse_device_line-join serial state props h =
    rw (parse_device_line, split_whitespace-join (serial ∷ state ∷ props) h) refl

-- Opening a service that the server and the device accept sends the request for the device and then
-- the service, each with its length, and leaves the connection at the first byte of the service.
pub open_service-okay :
    (lossy : Text → Text) (selector : DeviceSelector) (service rest : Text) (s : Stream)
    → length (transport_request selector) < 2 ^ 16
    → length service < 2 ^ 16
    → s.writable ≡ true
    → open_service lossy
        (some (feed s (answer_bytes okay ++ (answer_bytes okay ++ rest))))
        selector
        service
      ≡ ok (record s {
        incoming = rest;
        outgoing =
            s.outgoing
            ++ (hex4 (length (transport_request selector)) ++ transport_request selector)
            ++ (hex4 (length service) ++ service);
      })
unfolding open_service
open_service-okay lossy selector service rest s ht hs hw =
    rw
      (
        request_answered lossy (transport_request selector) (answer_bytes okay ++ rest) okay s ht tt
            hw,
        request_answered lossy service rest okay
            (record s {
              outgoing =
                  s.outgoing
                  ++ (hex4 (length (transport_request selector)) ++ transport_request selector);
            })
            hs tt hw,
      )
      refl
