-- ===== src/Proto/Shell.antt =====
-- crates/adb-proto/src/shell.rs: the framing of `shell,v2` and the quoting of paths.
pub mod Quoting
pub mod Packets
use adbrsync.Common.{
  ℕ, zero, suc, ◌==◌, if◌then◌else◌, Bool, true, false, ◌&&◌, [], ◌∷◌, ◌++◌, length, Option,
}
use adbrsync.Common.Text.{Text, codes, is_empty}
use adbrsync.Common.Int.{ℤ, pos, negsuc}
use adbrsync.Common.Result.{Result, ok, err, ◌>>=◌}
use adbrsync.Proto.Client.{DeviceSelector, open_service}
use adbrsync.Proto.Bytes.{number_at}
use adbrsync.Proto.Error.{Error, io, protocol, IoKind, unexpected_eof, other}
use adbrsync.Proto.Stream.{Stream, Io, and_then, read_exact}

pub record ShellOutput : Type 0 where
  pub stdout : Text
  pub stderr : Text
  pub exit_code : ℤ

abbrev is_zero : ℤ → Bool
is_zero (pos n) = n == 0
is_zero (negsuc n) = false

unfoldable pub is_clean : ShellOutput → Bool
is_clean out = is_zero out.exit_code && is_empty out.stderr

-- `payload.first()`, else 255, as the exit code.
abbrev pub first_or_255 : Text → ℤ
first_or_255 [] = pos 255
first_or_255 (b ∷ bs) = pos b

-- A packet that is not the exit packet, by its id.
abbrev pub collect : ℕ → Text → ShellOutput → ShellOutput
collect id payload out =
    if id == 1
    then record out { stdout = out.stdout ++ payload }
    else if id == 2
    then record out { stderr = out.stderr ++ payload }
    else out

-- The id is the header's first byte.
abbrev pub id_of : Text → ℕ
id_of [] = 0
id_of (b ∷ bs) = b

-- The loop, on fuel: each round reads five bytes or ends.
unfoldable pub run_loop : ℕ → ShellOutput → Io ShellOutput
run_loop zero out s = (err protocol, s)
run_loop (suc fuel) out s =
    let (r, s1) = read_exact 5 s in
    elim r [
      | err e ↦ elim e [ io unexpected_eof ↦ (ok out, s1) | other_error ↦ (err other_error, s1) ]
      | ok header ↦ and_then (read_exact (number_at 1 4 header) s1) λ payload s2.
          elim (id_of header == 3) [
            | true ↦ (ok (record out { exit_code = first_or_255 payload }), s2)
            | false ↦ run_loop fuel (collect (id_of header) payload out) s2
          ]
    ]

-- The output on the stream that the service was opened on.
unfoldable pub read_output : Io ShellOutput
unfolding run_loop
read_output s =
    run_loop (suc (length s.incoming)) (record { stdout = []; stderr = []; exit_code = negsuc 0 }) s

-- The connection is the environment's, if there is one.
unfoldable pub run :
    (Text → Text) → Option Stream → DeviceSelector → Text → Result Error ShellOutput
unfolding read_output
run lossy connection selector command =
    open_service lossy connection selector (codes "shell,v2,raw:" ++ command) >>= λ s.
    (read_output s).0

unfoldable pub quote_chars : Text → Text
quote_chars [] = []
quote_chars (c ∷ s) = if c == 39 then codes "'\\''" ++ quote_chars s else c ∷ quote_chars s

unfoldable pub shell_quote : Text → Text
unfolding quote_chars
shell_quote s = 39 ∷ quote_chars s ++ 39 ∷ []
