-- ===== src/Proto/Shell/Packets.antt =====
-- What `run` reads: the packets of `shell,v2`.
use adbrsync.Common.{ℕ, zero, suc, ◌^◌, ◌<◌, ◌≡◌, sym, ◌∙◌, arith, ◌==◌}
use adbrsync.Common.{List, [], ◌∷◌, ◌++◌, append_assoc, append-nil, length, length-append, All}
use adbrsync.Common.{if◌then◌else◌, false}
use adbrsync.Common.Text.{Text}
use adbrsync.Common.Int.{ℤ, negsuc}
use adbrsync.Common.Result.{ok, err}
use adbrsync.Proto.Bytes.{from_le-le}
use adbrsync.Proto.Error.{io, unexpected_eof}
use adbrsync.Proto.Stream.{Stream, read_exact}
use adbrsync.Proto.Stream.Frames.{feed, header, read_exact-append}
use adbrsync.Proto.Shell.{ShellOutput, first_or_255, collect, run_loop, read_output}

abbrev pub packet : ℕ → Text → Text
packet id payload = header (id ∷ []) (length payload) ++ payload

-- The packets before the end: an id that is not the exit packet's, and a payload.
abbrev pub IsPacket : ℕ × Text → Type 0
IsPacket (id, payload) = ((id == 3) ≡ false) × (length payload < 2 ^ 32)

abbrev pub packets : List (ℕ × Text) → Text
packets [] = []
packets ((id, payload) ∷ ps) = packet id payload ++ packets ps

-- The payloads of one id, in order.
abbrev pub stream_of : ℕ → List (ℕ × Text) → Text
stream_of k [] = []
stream_of k ((id, payload) ∷ ps) = (if id == k then payload else []) ++ stream_of k ps

-- The exit packet with what follows it, or the end of the connection, possibly inside a header.
pub data Ending : Type 0 where
  exited : (payload rest : Text) → Ending
  closed : Text → Ending

abbrev pub IsEnding : Ending → Type 0
IsEnding (exited payload rest) = length payload < 2 ^ 32
IsEnding (closed part) = length part < 5

abbrev pub end_bytes : Ending → Text
end_bytes (exited payload rest) = packet 3 payload ++ rest
end_bytes (closed part) = part

abbrev pub end_code : Ending → ℤ
end_code (exited payload rest) = first_or_255 payload
end_code (closed part) = negsuc 0

abbrev pub end_rest : Ending → Text
end_rest (exited payload rest) = rest
end_rest (closed part) = []

packet_round :
    (id : ℕ) (payload rest : Text) (fuel : ℕ) (out : ShellOutput) (s : Stream)
    → (id == 3) ≡ false
    → length payload < 2 ^ 32
    → run_loop (suc fuel) out (feed s (packet id payload ++ rest))
      ≡ run_loop fuel (collect id payload out) (feed s rest)
unfolding run_loop
packet_round id payload rest fuel out s hi hl = ground (
  arith,
  hi,
  read_exact-append (header (id ∷ []) (length payload)) (payload ++ rest) s,
  from_le-le 4 (length payload) (omega (arith, hl)),
  read_exact-append payload rest s,
)

closed_read :
    (part : Text) (s : Stream)
    → length part < 5
    → read_exact 5 (feed s part) ≡ (err (io s.ending), feed s [])
unfolding read_exact
closed_read part s h = ground (arith, h)

-- What is collected so far, with the exit code.
abbrev pub output : Text → Text → ℤ → ShellOutput
output stdout stderr code = record { stdout = stdout; stderr = stderr; exit_code = code }

end_round :
    (end : Ending) (fuel : ℕ) (a b : Text) (s : Stream)
    → IsEnding end
    → s.ending ≡ unexpected_eof
    → run_loop (suc fuel) (output a b (negsuc 0)) (feed s (end_bytes end))
      ≡ (ok (output a b (end_code end)), feed s (end_rest end))
unfolding run_loop
end_round (exited payload rest) fuel a b s h hs = ground (
  arith,
  read_exact-append (header (3 ∷ []) (length payload)) (payload ++ rest) s,
  from_le-le 4 (length payload) (omega (arith, h)),
  read_exact-append payload rest s,
)
end_round (closed part) fuel a b s h hs = ground (arith, closed_read part s h, hs)

collect-output :
    (id : ℕ) (payload a b : Text) (code : ℤ)
    → collect id payload (output a b code)
      ≡ output
          (a ++ (if id == 1 then payload else []))
          (b ++ (if id == 2 then payload else []))
          code
collect-output id payload a b code = ground (arith, append-nil a, append-nil b)

loop-packets :
    (ps : List (ℕ × Text)) (end : Ending) (fuel : ℕ) (a b : Text) (s : Stream)
    → All IsPacket ps
    → IsEnding end
    → s.ending ≡ unexpected_eof
    → length ps < fuel
    → run_loop fuel (output a b (negsuc 0)) (feed s (packets ps ++ end_bytes end)) ≡ (
      ok (output (a ++ stream_of 1 ps) (b ++ stream_of 2 ps) (end_code end)),
      feed s (end_rest end),
    )
loop-packets ps end zero a b s hp he hs hf = ground (arith, hf)
loop-packets [] end (suc fuel) a b s hp he hs hf =
    rw (append-nil a, append-nil b) (end_round end fuel a b s he hs)
loop-packets ((id, payload) ∷ ps) end (suc fuel) a b s hp he hs hf =
    let one = if id == 1 then payload else [] in
    let two = if id == 2 then payload else [] in
    rw (append_assoc payload (packets ps) (end_bytes end)) (
      packet_round id payload (packets ps ++ end_bytes end) fuel (output a b (negsuc 0)) s hp.0.0
        hp.0.1
      ∙ rw
          (
            collect-output id payload a b (negsuc 0),
            sym (append_assoc a one (stream_of 1 ps)),
            sym (append_assoc b two (stream_of 2 ps)),
          )
          (loop-packets ps end fuel (a ++ one) (b ++ two) s hp.1 he hs (omega (arith, hf))))

length-packets :
    (ps : List (ℕ × Text)) (rest : Text) → length ps < suc (length (packets ps ++ rest))
length-packets [] rest = omega arith
length-packets ((id, payload) ∷ ps) rest =
    rw (append_assoc payload (packets ps) rest)
      (omega (arith, length-append payload (packets ps ++ rest), length-packets ps rest))

-- Reading the packets of a command keeps standard output and standard error apart and in order. The
-- exit code is the first byte of the exit packet, 255 if that is empty, and -1 if the connection
-- closes before an exit packet, also inside a header.
pub read_output-packets :
    (ps : List (ℕ × Text)) (end : Ending) (s : Stream)
    → All IsPacket ps
    → IsEnding end
    → s.ending ≡ unexpected_eof
    → read_output (feed s (packets ps ++ end_bytes end))
      ≡ (ok (output (stream_of 1 ps) (stream_of 2 ps) (end_code end)), feed s (end_rest end))
unfolding read_output
read_output-packets ps end s hp he hs =
    loop-packets ps end (suc (length (packets ps ++ end_bytes end))) [] [] s hp he hs
      (length-packets ps (end_bytes end))
