-- ===== src/Core/Checksum/Batches.antt =====
-- The batches that the paths are hashed in.
use adbrsync.Common.{
  ℕ, ◌+◌, ◌*◌, ◌≤◌, ◌≡◌, refl, sym, arith, true, false, ltb, ◌⊎◌, inl, inr, not, ◌&&◌,
}
use adbrsync.Common.{
  List, [], ◌∷◌, ◌++◌, append_assoc, All, sum_of, length, length-append, Bool-cases,
}
use adbrsync.Common.{is_nil, Option, none}
use adbrsync.Common.Text.{Text}
use adbrsync.Common.Result.{Result, ok, err, ◌>>=◌}
use adbrsync.Core.Error.{CoreError}
use adbrsync.Core.Checksum.{
  max_command_bytes, run_batch, digest_loop, device_digests, batch_command, quoted_args,
}
use adbrsync.Proto.Shell.{shell_quote, quote_chars}

-- The size that the loop counts for a batch.
abbrev pub batch_size : List Text → ℕ
batch_size = sum_of (λ p. length p + 4)

-- A batch is a single path, or small enough.
abbrev pub Fits : List Text → Type 0
Fits batch = (is_nil batch ≡ false) × ((length batch ≡ 1) ⊎ (batch_size batch ≤ max_command_bytes))

abbrev pub concat : List (List Text) → List Text
concat [] = []
concat (b ∷ bs) = b ++ concat bs

-- The batches of the paths, with `batch` begun: greedily, as many paths as fit.
greedy : List Text → List Text → ℕ → List (List Text)
greedy [] [] bytes = []
greedy [] (p ∷ ps) bytes = (p ∷ ps) ∷ []
greedy (path ∷ paths) batch bytes =
    elim (not (is_nil batch) && ltb max_command_bytes (bytes + (length path + 4))) [
      | true ↦ batch ∷ greedy paths (path ∷ []) (length path + 4)
      | false ↦ greedy paths (batch ++ path ∷ []) (bytes + (length path + 4))
    ]

greedy-concat :
    (paths batch : List Text) (bytes : ℕ) → concat (greedy paths batch bytes) ≡ batch ++ paths
unfolding greedy
greedy-concat [] [] bytes = refl
greedy-concat [] (p ∷ ps) bytes = refl
greedy-concat (path ∷ paths) batch bytes = ground (
  arith,
  greedy-concat paths (path ∷ []) (length path + 4),
  greedy-concat paths (batch ++ path ∷ []) (bytes + (length path + 4)),
  append_assoc batch (path ∷ []) paths,
)

batch_size-append :
    (batch : List Text) (p : Text)
    → batch_size (batch ++ p ∷ []) ≡ batch_size batch + (length p + 4)
batch_size-append [] p = omega arith
batch_size-append (q ∷ qs) p = omega (arith, batch_size-append qs p)

-- What is begun fits, if it is not empty.
abbrev Begun : List Text → Type 0
Begun [] = Unit {0}
Begun (p ∷ ps) = Fits (p ∷ ps)

greedy-Fits :
    (paths batch : List Text) (bytes : ℕ)
    → Begun batch
    → bytes ≡ batch_size batch
    → All Fits (greedy paths batch bytes)
unfolding greedy
greedy-Fits [] [] bytes h e = tt
greedy-Fits [] (p ∷ ps) bytes h e = (h, tt)
greedy-Fits (path ∷ paths) [] bytes h e =
    greedy-Fits paths (path ∷ []) (bytes + (length path + 4)) (refl, inl refl) (omega (arith, e))
greedy-Fits (path ∷ paths) (q ∷ qs) bytes h e =
    elim (Bool-cases (ltb max_command_bytes (bytes + (length path + 4)))) [
      | inl t ↦ ground (
        arith,
        t,
        h,
        greedy-Fits paths (path ∷ []) (length path + 4) (refl, inl refl) (omega arith),
      )
      | inr t ↦ ground (
        arith,
        t,
        greedy-Fits paths (q ∷ qs ++ path ∷ []) (bytes + (length path + 4))
            (refl, inr (grind (arith, t, e, batch_size-append (q ∷ qs) path)))
            (omega (arith, e, batch_size-append (q ∷ qs) path)),
      )
    ]

module _ (sh : Text → Result CoreError Text) where
  -- The batches run one after another, until one fails.
  abbrev pub run_batches :
      List (List Text) → (Text → Option Text) → Result CoreError (Text → Option Text)
  run_batches [] digests = ok digests
  run_batches (b ∷ bs) digests = run_batch sh b digests >>= run_batches bs

  bind_ok : (r : Result CoreError (Text → Option Text)) → (r >>= (λ d. ok d)) ≡ r
  bind_ok (ok d) = refl
  bind_ok (err e) = refl

  bind_cong :
      (r : Result CoreError (Text → Option Text))
      (f g : (Text → Option Text) → Result CoreError (Text → Option Text))
      → ((d : Text → Option Text) → f d ≡ g d)
      → (r >>= f) ≡ (r >>= g)
  bind_cong (ok d) f g h = h d
  bind_cong (err e) f g h = refl

  loop-greedy :
      (paths batch : List Text) (bytes : ℕ) (digests : Text → Option Text)
      → digest_loop sh paths batch bytes digests ≡ run_batches (greedy paths batch bytes) digests
  unfolding digest_loop greedy
  loop-greedy [] [] bytes digests = refl
  loop-greedy [] (p ∷ ps) bytes digests = sym (bind_ok (run_batch sh (p ∷ ps) digests))
  loop-greedy (path ∷ paths) batch bytes digests = ground (
    arith,
    loop-greedy paths (batch ++ path ∷ []) (bytes + (length path + 4)) digests,
    bind_cong (run_batch sh batch digests) _ _ (loop-greedy paths (path ∷ []) (length path + 4)),
  )

  -- Hashing on the device runs batches that together are the paths, in order and each once. No batch
  -- is empty, and one of several paths counts at most 16 KiB for them; the first failure ends it.
  pub device_digests_batches :
      (paths : List Text)
      → (bs : List (List Text)) × All Fits bs
        × (concat bs ≡ paths)
        × (device_digests sh paths ≡ run_batches bs (λ path. none))
  unfolding device_digests
  device_digests_batches paths = (
    greedy paths [] 0,
    greedy-Fits paths [] 0 tt refl,
    greedy-concat paths [] 0,
    loop-greedy paths [] 0 (λ path. none),
  )

length-quote_chars : (s : Text) → length (quote_chars s) ≤ 4 * length s
unfolding quote_chars
length-quote_chars [] = omega arith
length-quote_chars (c ∷ s) = ground (arith, length-quote_chars s)

length-quoted_args : (batch : List Text) → length (quoted_args batch) ≤ 4 * batch_size batch
unfolding shell_quote
length-quoted_args [] = omega arith
length-quoted_args (p ∷ ps) = omega (
  arith,
  length-append (39 ∷ quote_chars p ++ 39 ∷ []) (quoted_args ps),
  length-append (quote_chars p) (39 ∷ []),
  length-quote_chars p,
  length-quoted_args ps,
)

-- The command of a batch of several paths is at most four times that long, however many quotes
-- there are in them, and the command's name.
pub length-batch_command :
    (batch : List Text)
    → Fits batch
    → 2 ≤ length batch
    → length (batch_command batch) ≤ 9 + 4 * max_command_bytes
unfolding batch_command
length-batch_command batch h k = grind (arith, h, k, length-quoted_args batch)
