-- ===== src/Core/Perf/Classes.antt =====
-- `bucketize` against a description by classes: what each class holds, without the map.
use adbrsync.Common.{ℕ, zero, suc, ◌%◌, ◌^◌, ◌≡◌, refl, ◌∙◌, arith}
use adbrsync.Common.{Bool, not, ◌==◌, if◌then◌else◌, Bool-cases, inl, inr}
use adbrsync.Common.{List, [], ◌∷◌, map, some, length, get_elem?, keep, is_nil}
use adbrsync.Common.{sum_of}
use adbrsync.Common.Counting.{median, median-IsMedian}
use adbrsync.Core.Measure.{Sample, Float, sizes, durations, sum64}
use adbrsync.Core.Measure.Ties.{sum64_lem}
use adbrsync.Core.Perf.{SizeBucket, bucket_bounds, group_onto, as_millis}
use adbrsync.Core.Perf.{summarise, summarise_all, bucketize}
use adbrsync.Core.Perf.Grouping.{classes, or_zero, members, add_class, table, group_members}

module _ {W : Type 0} (float : Float W) where
  open float use {nought, of_ℕ, as_secs, times, over}

  -- What is said of a class, from its samples.
  abbrev pub bucket : List Sample → ℕ → SizeBucket W
  bucket samples i =
      let items = members samples i in
      let files = length items in
      let bytes = sum_of (λ n. n) (sizes items) % 2 ^ 64 in
      let total = sum_of (λ s. s.duration) items in
      record {
        upper_bytes = get_elem? bucket_bounds i;
        files = files;
        bytes = bytes;
        total_ms = as_millis total;
        mean_ms = over (times (as_secs total) (of_ℕ 1000)) (of_ℕ files);
        median_ms = times (as_secs (or_zero (median (durations items)))) (of_ℕ 1000);
        bytes_per_sec = if total == 0 then nought else over (of_ℕ bytes) (as_secs total);
      }

  abbrev pub is_used : List Sample → ℕ → Bool
  is_used samples i = not (is_nil (members samples i))

  abbrev range : ℕ → ℕ → List ℕ
  range k zero = []
  range k (suc n) = k ∷ range (suc k) n

  summarise_lem :
      (samples : List Sample) (i : ℕ) (s : Sample) (ss : List Sample)
      → members samples i ≡ s ∷ ss
      → summarise float (i, s ∷ ss) ≡ some (bucket samples i)
  unfolding summarise
  summarise_lem samples i s ss e =
      let (m, f, middle) = median-IsMedian (durations (s ∷ ss)) (omega arith) in
      let bytes : sum64 0 (sizes (s ∷ ss)) ≡ sum_of (λ n. n) (sizes (s ∷ ss)) % 2 ^ 64 =
        sum64_lem 0 (sizes (s ∷ ss)) ∙ omega arith in
      rw (e, f, bytes) refl

  add_summary :
      (samples : List Sample) (k : ℕ) (l : List Sample) (m : List (ℕ × List Sample))
      (bs : List (SizeBucket W))
      → members samples k ≡ l
      → summarise_all float m ≡ some bs
      → summarise_all float (add_class k l m)
        ≡ some (if not (is_nil l) then bucket samples k ∷ bs else bs)
  unfolding summarise_all
  add_summary samples k [] m bs e h = h
  add_summary samples k (s ∷ ss) m bs e h = rw (summarise_lem samples k s ss e, h) refl

  summarise_table :
      (samples : List Sample) (k n : ℕ)
      → summarise_all float (table (members samples) k n)
        ≡ some (map (bucket samples) (keep (is_used samples) (range k n)))
  unfolding table
  summarise_table samples k zero = unfold summarise_all in refl
  summarise_table samples k (suc n) =
      add_summary samples k (members samples k) (table (members samples) (suc k) n) _ refl
        (summarise_table samples (suc k) n)
      ∙ elim (Bool-cases (is_used samples k)) [ inl e ↦ rw e refl | inr e ↦ rw e refl ]

  bucketize_lem :
      (samples : List Sample)
      → bucketize float samples ≡ summarise_all float (group_onto [] samples)
  unfolding bucketize
  bucketize_lem samples = refl

  -- The report has one bucket for each size class that some sample falls in, in ascending order, and
  -- what it says of a class is computed from the samples whose sizes lie in its bounds. No index in
  -- `bucketize` is out of range.
  pub bucketize-classes :
      (samples : List Sample)
      → bucketize float samples ≡ some (map (bucket samples) (keep (is_used samples) classes))
  bucketize-classes samples =
      rw (bucketize_lem samples, group_members samples) (summarise_table samples 0 7)
