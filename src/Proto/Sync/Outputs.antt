-- ===== src/Proto/Sync/Outputs.antt =====
-- `recv` to any output compared with `recv` to a buffer that takes every write.
use adbrsync.Common.{ℕ, zero, suc, ◌+◌, ◌%◌, ◌^◌, ◌≡◌, refl, sym, arith, inl, inr}
use adbrsync.Common.{[], ◌++◌, length, length-take, leb, leb→le, Bool-cases, ltb}
use adbrsync.Common.Text.{Text, text_eq}
use adbrsync.Common.Result.{Result, ok, err}
use adbrsync.Proto.Error.{Error}
use adbrsync.Proto.Stream.{Stream, read_exact}
use adbrsync.Proto.Sync.{
  id_data, id_recv, id_done, id_fail, data_max, respond, recv_loop, recv, on_write,
}
use adbrsync.Proto.Sync.{send_request, on_read}

-- The buffer.
abbrev pub take_in : Text → Text → Result Error (Unit {0}) × Text
take_in c t = (ok tt, t ++ c)

-- What a read that succeeds gives has the length asked for.
length-read_exact : (n : ℕ) (s t : Stream) (a : Text) → read_exact n s ≡ (ok a, t) → length a ≡ n
unfolding read_exact
length-read_exact n s t a h = elim (Bool-cases (leb n (length s.incoming))) [
  | inl e ↦ ground (arith, e, length-take n s.incoming, leb→le n (length s.incoming) e)
  | inr e ↦ ground (arith, e)
]

module _ (lossy : Text → Text) {W : Type 0} (write_out : Text → W → Result Error (Unit {0}) × W)
    (Good : ℕ → Text → W → Type 0) (Failed : W → Type 0) where
  -- `w` after `n` bytes, which are the text `t`, is good; what a failed write leaves is `Failed`.
  unfoldable pub StepPost : ℕ → Text → Text → Result Error (Unit {0}) × W → Type 0
  StepPost n t c (ok u, w) = Good ((n + length c) % 2 ^ 64) (t ++ c) w
  StepPost n t c (err e, w) = Failed w

  -- The result of a run to the output, beside that of the same run to the buffer.
  unfoldable pub RecvPost : Result Error ℕ × Text × Stream → Result Error ℕ × W × Stream → Type 0
  RecvPost o (ok n, w, s) = (t : Text) × Good n t w × (o ≡ (ok n, t, s))
  RecvPost o (err e, w, s) = Failed w

  module _
      (step : (c : Text) (n : ℕ) (t : Text) (w : W) → Good n t w → StepPost n t c (write_out c w))
      (weaken : (n : ℕ) (t : Text) (w : W) → Good n t w → Failed w) where
    write_post :
        (path : Text) (n : ℕ) (t c : Text) (s : Stream) (p : Result Error (Unit {0}) × W)
        (next' : Text → Result Error ℕ × Text × Stream) (next : W → Result Error ℕ × W × Stream)
        → StepPost n t c p
        → ((w : W) → Good ((n + length c) % 2 ^ 64) (t ++ c) w → RecvPost (next' (t ++ c)) (next w))
        → RecvPost
            (on_write lossy take_in (take_in c t) s next')
            (on_write lossy write_out p s next)
    unfolding StepPost RecvPost
    write_post path n t c s (ok u, w) next' next g h = h w g
    write_post path n t c s (err e, w) next' next g h = g

    read_post :
        (len : ℕ) (s : Stream) (n : ℕ) (t : Text) (w : W)
        (next' : Text → Stream → Result Error ℕ × Text × Stream)
        (next : Text → Stream → Result Error ℕ × W × Stream) (p : Result Error Text × Stream)
        → Good n t w
        → read_exact len s ≡ p
        → ((a : Text) (u : Stream) → length a ≡ len → RecvPost (next' a u) (next a u))
        → RecvPost (on_read lossy take_in p t next') (on_read lossy write_out p w next)
    unfolding RecvPost
    read_post len s n t w next' next (ok a, u) g e h = h a u (length-read_exact len s u a e)
    read_post len s n t w next' next (err x, u) g e h = weaken n t w g

    respond_post :
        (path id : Text) (len : ℕ) (next' : ℕ → Text → Stream → Result Error ℕ × Text × Stream)
        (next : ℕ → W → Stream → Result Error ℕ × W × Stream) (n : ℕ) (t : Text) (w : W)
        (s : Stream)
        → Good n t w
        → ((m : ℕ) (u : Text) (v : W) (r : Stream)
            → Good m u v
            → RecvPost (next' m u r) (next m v r))
        → RecvPost
            (respond lossy take_in path id len next' n t s)
            (respond lossy write_out path id len next n w s)
    unfolding respond RecvPost
    respond_post path id len next' next n t w s g h = elim (Bool-cases (text_eq id id_data)) [
      | inl e ↦ elim (Bool-cases (ltb data_max len)) [
        | inl k ↦ rw (respond, e, k) (weaken n t w g)
        | inr k ↦
            rw (respond, e, k)
              (read_post len s n t w _ _ (read_exact len s) g refl (λ a u q. rw (sym q) (
                write_post path n t a u (write_out a w) (λ v. next' ((n + length a) % 2 ^ 64) v u)
                  (λ v. next ((n + length a) % 2 ^ 64) v u) (step a n t w g) (λ v y. h _ _ v u y))))
      ]
      | inr e ↦ elim (Bool-cases (text_eq id id_done)) [
        | inl k ↦ rw (respond, e, k) (t, g, refl)
        | inr k ↦ elim (Bool-cases (text_eq id id_fail)) [
          | inl j ↦
              rw (respond, e, k, j)
                (read_post len s n t w _ _ (read_exact len s) g refl (λ a u q. weaken n t w g))
          | inr j ↦ rw (respond, e, k, j) (weaken n t w g)
        ]
      ]
    ]

    loop_post :
        (path : Text) (fuel n : ℕ) (t : Text) (w : W) (s : Stream)
        → Good n t w
        → RecvPost
            (recv_loop lossy take_in path fuel n t s)
            (recv_loop lossy write_out path fuel n w s)
    unfolding recv_loop RecvPost
    loop_post path zero n t w s g = weaken n t w g
    loop_post path (suc fuel) n t w s g =
        read_post 8 s n t w _ _ (read_exact 8 s) g refl (λ header u k.
          respond_post path _ _ _ _ n t w u g (λ m x v r y. loop_post path fuel m x v r y))

    sent_post :
        (path : Text) (w : W) (p : Result Error (Unit {0}) × Stream)
        → Good 0 [] w
        → RecvPost
            (on_read lossy take_in p []
              (λ u t. recv_loop lossy take_in path (suc (length t.incoming)) 0 [] t))
            (on_read lossy write_out p w
              (λ u t. recv_loop lossy write_out path (suc (length t.incoming)) 0 w t))
    unfolding RecvPost
    sent_post path w (ok u, t) g = loop_post path _ 0 [] w t g
    sent_post path w (err e, t) g = weaken 0 [] w g

    pub recv_post :
        (path : Text) (w : W) (s : Stream)
        → Good 0 [] w
        → RecvPost (recv lossy take_in path [] s) (recv lossy write_out path w s)
    unfolding recv RecvPost
    recv_post path w s g = sent_post path w (send_request id_recv path s) g
