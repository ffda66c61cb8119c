-- ===== src/Proto/Sync/Fuel.antt =====
-- The fuel of `recv` is enough on every connection, whatever the device sends.
use adbrsync.Common.{
  ℕ, zero, suc, ◌+◌, ◌≤◌, ◌<◌, ◌%◌, ◌^◌, ◌≡◌, refl, [], arith, ◌⊎◌, inl, inr, length,
}
use adbrsync.Common.{length-drop, take, drop, Bool-cases, leb, leb→le}
use adbrsync.Common.Text.{Text}
use adbrsync.Common.Result.{Result, ok, err}
use adbrsync.Proto.Error.{Error, io}
use adbrsync.Proto.Stream.{Stream, read_exact}
use adbrsync.Proto.Sync.{respond, recv_loop, on_write}

abbrev unread : Stream → ℕ
unread s = length s.incoming

-- A read ends, or gives its bytes and leaves that many fewer.
read_exact-cases :
    (n : ℕ) (s : Stream)
    → ((a : Text) × (t : Stream) × (read_exact n s ≡ (ok a, t)) × (unread t + n ≡ unread s))
      ⊎ ((e : Error) × (t : Stream) × (read_exact n s ≡ (err e, t)))
unfolding read_exact
read_exact-cases n s = elim (Bool-cases (leb n (length s.incoming))) [
  | inl h ↦ inl (
    take n s.incoming,
    record s { incoming = drop n s.incoming },
    ground arith,
    omega (arith, length-drop n s.incoming, leb→le n (length s.incoming) h),
  )
  | inr h ↦ inr (io s.ending, record s { incoming = [] }, ground arith)
]

module _ {ℓ} (lossy : Text → Text) {W : Type ℓ}
    (write_out : Text → W → Result Error (Unit {0}) × W) where
  on_write_cong :
      (p : Result Error (Unit {0}) × W) (s : Stream) (f g : W → Result Error ℕ × W × Stream)
      → ((w : W) → f w ≡ g w)
      → on_write lossy write_out p s f ≡ on_write lossy write_out p s g
  on_write_cong (ok u, w) s f g h = h w
  on_write_cong (err e, w) s f g h = refl

  respond_cong :
      (path id : Text) (len : ℕ) (f g : ℕ → W → Stream → Result Error ℕ × W × Stream) (written : ℕ)
      (w : W) (s : Stream)
      → ((n : ℕ) (v : W) (t : Stream) → unread t ≤ unread s → f n v t ≡ g n v t)
      → respond lossy write_out path id len f written w s
        ≡ respond lossy write_out path id len g written w s
  unfolding respond
  respond_cong path id len f g written w s h = elim (read_exact-cases len s) [
    | inl (a, t, e, l) ↦ ground (
      arith,
      e,
      on_write_cong (write_out a w) t (λ v. f ((written + len) % 2 ^ 64) v t)
          (λ v. g ((written + len) % 2 ^ 64) v t) (λ v. h _ v t (omega (arith, l))),
    )
    | inr (e, t, q) ↦ ground (arith, q)
  ]

  -- Any two amounts of fuel above the number of bytes to read give the same: the loop ends before
  -- it runs out of either.
  pub recv_loop_fuel :
      (path : Text) (fuel more written : ℕ) (w : W) (s : Stream)
      → unread s < fuel
      → unread s < more
      → recv_loop lossy write_out path fuel written w s
        ≡ recv_loop lossy write_out path more written w s
  unfolding recv_loop
  recv_loop_fuel path zero more written w s h k = ground (arith, h)
  recv_loop_fuel path (suc fuel) zero written w s h k = ground (arith, k)
  recv_loop_fuel path (suc fuel) (suc more) written w s h k = elim (read_exact-cases 8 s) [
    | inl (a, t, e, l) ↦ rw e (
        respond_cong path _ _ _ _ written w t (λ n v u b.
          recv_loop_fuel path fuel more n v u (omega (arith, h, l, b)) (omega (arith, k, l, b))))
    | inr (e, t, q) ↦ rw q refl
  ]
