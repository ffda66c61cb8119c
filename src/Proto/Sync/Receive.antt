-- ===== src/Proto/Sync/Receive.antt =====
-- `recv` on the responses of the sync service.
use adbrsync.Common.{ℕ, zero, suc, ◌+◌, ◌%◌, ◌^◌, ◌≤◌, ◌<◌, ◌≡◌, refl, sym, ◌∙◌, arith, true, false}
use adbrsync.Common.{List, [], ◌∷◌, ◌++◌, append_assoc, length, length-append, All, sum_of, ltb}
use adbrsync.Common.Text.{Text, text_eq}
use adbrsync.Common.Result.{Result, ok, err}
use adbrsync.Proto.Bytes.{from_le-le}
use adbrsync.Proto.Error.{Error, sync}
use adbrsync.Proto.Stream.{Stream}
use adbrsync.Proto.Sync.{
  id_data, id_done, id_fail, id_recv, data_max, respond, recv_loop, recv, on_write, send_request,
}
use adbrsync.Proto.Stream.Frames.{feed, header, frame, read_exact-append}

ltb-false : {n : ℕ} → n ≤ data_max → ltb data_max n ≡ false
ltb-false h = ground arith

wrap_add : (a b c : ℕ) → ((a + b) % 2 ^ 64 + c) % 2 ^ 64 ≡ (a + (b + c)) % 2 ^ 64
wrap_add a b c = omega arith

-- How the device ends a transfer.
pub data Ending : Type 0 where
  done : ℕ → Ending
  refused : Text → Ending

abbrev pub end_frame : Ending → Text
end_frame (done n) = header id_done n
end_frame (refused msg) = frame id_fail msg

abbrev pub data_frames : List Text → Text
data_frames [] = []
data_frames (c ∷ cs) = frame id_data c ++ data_frames cs

length-data_frames :
    (chunks : List Text) (rest : Text) → length chunks < suc (length (data_frames chunks ++ rest))
length-data_frames [] rest = omega arith
length-data_frames (c ∷ cs) rest =
    rw (append_assoc c (data_frames cs) rest)
      (omega (arith, length-append c (data_frames cs ++ rest), length-data_frames cs rest))

abbrev pub total : List Text → ℕ
total = sum_of length

abbrev pub IsEnding : Ending → Type 0
IsEnding (done n) = n < 2 ^ 32
IsEnding (refused msg) = length msg < 2 ^ 32

abbrev pub IsChunk : Text → Type 0
IsChunk c = length c ≤ data_max

module _ {ℓ} (lossy : Text → Text) {W : Type ℓ}
    (write_out : Text → W → Result Error (Unit {0}) × W) where
  -- The chunks written in order, until a write fails.
  unfoldable pub write_each : List Text → W → Result Error (Unit {0}) × W
  write_each [] w = (ok tt, w)
  write_each (c ∷ cs) w =
      let (r, w1) = write_out c w in elim r [ ok u ↦ write_each cs w1 | err e ↦ (err e, w1) ]

  abbrev pub outcome : Text → ℕ → Ending → Result Error ℕ
  outcome path n (done k) = ok n
  outcome path n (refused msg) = err (sync path (lossy msg))

  -- A round of the loop on a header.
  round :
      (path rest : Text) (a b c d n fuel written : ℕ) (w : W) (s : Stream)
      → n < 2 ^ 32
      → recv_loop lossy write_out path
          (suc fuel)
          written
          w
          (feed s (header (a ∷ b ∷ c ∷ d ∷ []) n ++ rest))
        ≡ respond lossy write_out path
            (a ∷ b ∷ c ∷ d ∷ [])
            n
            (recv_loop lossy write_out path fuel)
            written
            w
            (feed s rest)
  unfolding recv_loop
  round path rest a b c d n fuel written w s h =
      rw (read_exact-append (header (a ∷ b ∷ c ∷ d ∷ []) n) rest s, from_le-le 4 n h) refl

  data_step :
      (path c rest : Text) (next : ℕ → W → Stream → Result Error ℕ × W × Stream) (written : ℕ)
      (w : W) (s : Stream)
      → IsChunk c
      → respond lossy write_out path id_data (length c) next written w (feed s (c ++ rest))
        ≡ on_write lossy write_out
            (write_out c w)
            (feed s rest)
            (λ w1. next ((written + length c) % 2 ^ 64) w1 (feed s rest))
  unfolding respond text_eq
  data_step path c rest next written w s h = ground (arith, read_exact-append c rest s, h)

  end_step :
      (path rest : Text) (end : Ending) (fuel written : ℕ) (w : W) (s : Stream)
      → IsEnding end
      → recv_loop lossy write_out path (suc fuel) written w (feed s (end_frame end ++ rest))
        ≡ (outcome path written end, w, feed s rest)
  unfolding respond text_eq
  end_step path rest (done n) fuel written w s h = round path rest 68 79 78 69 n fuel written w s h
  end_step path rest (refused msg) fuel written w s h =
      round path (msg ++ rest) 70 65 73 76 (length msg) fuel written w s h
      ∙ (ground (arith, read_exact-append msg rest s))

  data_round :
      (path c rest : Text) (fuel written : ℕ) (w : W) (s : Stream)
      → IsChunk c
      → recv_loop lossy write_out path (suc fuel) written w (feed s (frame id_data c ++ rest))
        ≡ on_write lossy write_out (write_out c w) (feed s rest) (λ w1.
          recv_loop lossy write_out path fuel ((written + length c) % 2 ^ 64) w1 (feed s rest))
  data_round path c rest fuel written w s h =
      round path (c ++ rest) 68 65 84 65 (length c) fuel written w s (omega (arith, h))
      ∙ data_step path c rest (recv_loop lossy write_out path fuel) written w s h

  on_write_ok :
      (p : Result Error (Unit {0}) × W) (cs : List Text) (w' : W) (s : Stream)
      (next : W → Result Error ℕ × W × Stream) (goal : Result Error ℕ × W × Stream)
      → (let (r, w1) = p in elim r [ ok u ↦ write_each cs w1 | err e ↦ (err e, w1) ]) ≡ (ok tt, w')
      → ((w1 : W) → write_each cs w1 ≡ (ok tt, w') → next w1 ≡ goal)
      → on_write lossy write_out p s next ≡ goal
  on_write_ok (ok u, w1) cs w' s next goal h k = k w1 h
  on_write_ok (err e, w1) cs w' s next goal h k = ground (arith, h)

  -- What a run of frames gives: the chunks are written and counted, and the end decides.
  loop-frames :
      (path rest : Text) (chunks : List Text) (end : Ending) (fuel written : ℕ) (w w' : W)
      (s : Stream)
      → All IsChunk chunks
      → IsEnding end
      → length chunks < fuel
      → written < 2 ^ 64
      → write_each chunks w ≡ (ok tt, w')
      → recv_loop lossy write_out path fuel written w
          (feed s (data_frames chunks ++ (end_frame end ++ rest)))
        ≡ (outcome path ((written + total chunks) % 2 ^ 64) end, w', feed s rest)
  unfolding write_each
  loop-frames path rest chunks end zero written w w' s hc he hf hb hw = ground (arith, hf)
  loop-frames path rest [] end (suc fuel) written w w' s hc he hf hb hw =
      ground (arith, hw, end_step path rest end fuel written w s he)
  loop-frames path rest (c ∷ cs) end (suc fuel) written w w' s hc he hf hb hw =
      rw (append_assoc c (data_frames cs) (end_frame end ++ rest)) (
        data_round path c (data_frames cs ++ (end_frame end ++ rest)) fuel written w s hc.0
        ∙ on_write_ok (write_out c w) cs w' _ _ _ hw (λ w1 hw1.
          rw (sym (wrap_add written (length c) (total cs))) (
            loop-frames path rest cs end fuel ((written + length c) % 2 ^ 64) w1 w' s hc.1 he
              (omega (arith, hf)) (omega arith) hw1)))

  -- `recv` of a file that the device sends in chunks of at most 64 KiB: the chunks are written to the
  -- output in order, and if no write fails, DONE gives the number of bytes, FAIL gives the error with
  -- the reason, and either way nothing is read past the response.
  pub recv-frames :
      (path rest : Text) (chunks : List Text) (end : Ending) (w w' : W) (s : Stream)
      → All IsChunk chunks
      → IsEnding end
      → s.writable ≡ true
      → write_each chunks w ≡ (ok tt, w')
      → recv lossy write_out path w (feed s (data_frames chunks ++ (end_frame end ++ rest))) ≡ (
        outcome path (total chunks % 2 ^ 64) end,
        w',
        record s { incoming = rest; outgoing = s.outgoing ++ header id_recv (length path) ++ path },
      )
  unfolding recv send_request
  recv-frames path rest chunks end w w' s hc he hs hw = ground (
    arith,
    append_assoc s.outgoing (header id_recv (length path)) path,
    loop-frames path rest chunks end (suc (length (data_frames chunks ++ (end_frame end ++ rest))))
        0 w w' (record s { outgoing = s.outgoing ++ header id_recv (length path) ++ path }) hc he
        (length-data_frames chunks (end_frame end ++ rest)) (omega arith) hw,
  )
