-- ===== src/Proto/Examples.antt =====
-- A session with a server and a device, and the theorems on it.
use adbrsync.Common.{◌≡◌, refl, arith, true, List, [], ◌∷◌, ◌++◌, some, none}
use adbrsync.Common.Text.{Text, codes}
use adbrsync.Common.Int.{pos, negsuc}
use adbrsync.Common.Result.{Result, ok}
use adbrsync.Proto.Error.{Error, unexpected_eof}
use adbrsync.Proto.Stream.{Stream}
use adbrsync.Proto.Stream.Frames.{feed, header}
use adbrsync.Proto.Sync.{id_recv, recv}
use adbrsync.Proto.Sync.Receive.{done, data_frames, end_frame, write_each, recv-frames}
use adbrsync.Proto.Sync.Stats.{StatRecord}
use adbrsync.Proto.Shell.{shell_quote, read_output}
use adbrsync.Proto.Shell.Quoting.{plain, read_word, read_word-shell_quote}
use adbrsync.Proto.Shell.Packets.{exited, packets, end_bytes, output, read_output-packets}
use adbrsync.Proto.Client.{DeviceInfo, any_device, choose}
use adbrsync.Proto.Client.Resolving.{IsChoice, choose-IsChoice}

abbrev as_is : Text → Text
as_is s = s

abbrev line : Stream
line = record { incoming = []; ending = unexpected_eof; outgoing = []; writable = true }

-- An output that takes everything.
abbrev append_to : Text → Text → Result Error (Unit {0}) × Text
append_to chunk w = (ok tt, w ++ chunk)

abbrev path : Text
path = codes "/sd/x"

abbrev chunks : List Text
chunks = codes "he" ∷ codes "llo" ∷ []

recv-frames_example :
    recv as_is append_to path []
      (feed line (data_frames chunks ++ (end_frame (done 7) ++ codes "next")))
    ≡ (
      ok 5,
      codes "hello",
      record line { incoming = codes "next"; outgoing = header id_recv 5 ++ path },
    )
unfolding write_each
recv-frames_example =
    recv-frames as_is append_to path (codes "next") chunks (done 7) [] (codes "hello") line
      (omega arith, (omega arith, tt)) (omega arith) refl refl

abbrev photo : StatRecord
photo = record {
  error = 0;
  dev = 1;
  ino = 77;
  mode = 0o100644;
  nlink = 1;
  uid = 0;
  gid = 0;
  size = 123456;
  atime = 3;
  mtime = negsuc 41;
  ctime = 4;
}

read_word-shell_quote_example :
    read_word plain (shell_quote (codes "a'; rm -rf $(x)") ++ codes " b")
    ≡ some (codes "a'; rm -rf $(x)", codes " b")
read_word-shell_quote_example = read_word-shell_quote (codes "a'; rm -rf $(x)") (codes " b") refl

read_output-packets_example :
    read_output (
      feed line (
        packets ((1, codes "ab") ∷ (2, codes "e") ∷ (1, codes "c") ∷ [])
        ++ end_bytes (exited (2 ∷ []) [])))
    ≡ (ok (output (codes "abc") (codes "e") (pos 2)), feed line [])
read_output-packets_example =
    read_output-packets ((1, codes "ab") ∷ (2, codes "e") ∷ (1, codes "c") ∷ [])
      (exited (2 ∷ []) []) line
      ((refl, omega arith), ((refl, omega arith), ((refl, omega arith), tt))) (omega arith) refl

abbrev phone : DeviceInfo
phone = record { serial = codes "A1"; state = codes "device"; model = none }

abbrev locked : DeviceInfo
locked = record { serial = codes "B2"; state = codes "unauthorized"; model = none }

choose-IsChoice_example :
    IsChoice any_device (locked ∷ phone ∷ []) (choose any_device (locked ∷ phone ∷ []))
choose-IsChoice_example = choose-IsChoice any_device (locked ∷ phone ∷ [])
