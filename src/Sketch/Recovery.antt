-- ===== src/Sketch/Recovery.antt =====
-- What a sketch returns of the vectors that its last bucket decides: the zero vector, and a
-- vector with one coordinate.
use graph_zeppelin.Base.{
  ℕ, ◌-◌, ◌*◌, ◌<◌, ◌≡◌, ◌≢◌, ◌∙◌, refl, ap, sym, arith, List, [], ◌∷◌, true, false, ◌==◌, length,
  subst, ap₂,
}
use graph_zeppelin.Bucket.{Hashes, empty, is_good, get_index_hash}
use graph_zeppelin.Bucket.Group.{◌⊕◌, ⊕-empty, empty-⊕}
use graph_zeppelin.Sketch.{Sketch, update, zero_contents, checksum_seed, update_at}
use graph_zeppelin.Sketch.Array.{word, when, length-update_at, get_or-update_at}
use graph_zeppelin.Sketch.Columns.{words, cameo_reaches, get_or-update_columns, words_last}
use graph_zeppelin.Sketch.Linear.{bucket_at, update-IsLinear}
use graph_zeppelin.Sketch.Merge.{bucket_at-zero_contents}
use graph_zeppelin.Sketch.Batch.{update_all, update_all_of_vector}
use graph_zeppelin.Sketch.Sample.{good, all_zero, returned, is_zero, query, sample, SketchSample}
use graph_zeppelin.Sketch.Valid.{IsValid, zero_contents-IsValid}
use graph_zeppelin.Sketch.Vector.{bit_of}

module _ (h : Hashes) where
  bucket_at-update_last :
      (s : Sketch) (x : ℕ)
      → IsValid s
      → bucket_at (update h s x) (s.num_buckets - 1)
        ≡ bucket_at s (s.num_buckets - 1) ⊕ word x (get_index_hash h x s.seed)
  unfolding update checksum_seed
  bucket_at-update_last s x v =
      let last = s.num_buckets - 1 in
      let c = get_index_hash h x s.seed in
      let first = update_at s.buckets last x c in
      let lt : last < length s.buckets = omega (arith, v.allocated, v.count) in
      let same : ◌==◌ last last ≡ true = ground arith in
      let place : last ≡ s.num_columns * s.bkt_per_col = omega (arith, v.count) in
      get_or-update_columns h s x c s.num_columns 0 last first
        (subst (λ n. last < n) (sym (length-update_at s.buckets last x c)) lt)
      ∙ ap₂ ◌⊕◌
          (get_or-update_at s.buckets last last x c lt
            ∙ ap (λ b. bucket_at s last ⊕ when b (word x c)) same)
          (ap (words (cameo_reaches h s.seed s.bkt_per_col x) (word x c) s.num_columns 0) place
            ∙ words_last h s.seed s.bkt_per_col x s.num_columns 0 s.num_columns (word x c)
                (omega arith))
      ∙ ⊕-empty (bucket_at s last ⊕ word x c)

  query_one :
      (s : Sketch) (idx x : ℕ)
      → x ≢ 0
      → bucket_at s (s.num_buckets - 1) ≡ word x (get_index_hash h x s.seed)
      → query h s idx ≡ record { idx = x; result = good }
  unfolding query is_zero is_good checksum_seed
  query_one s idx x nz e = rw e (ground arith)

  query_none :
      (s : Sketch) (idx : ℕ)
      → bucket_at s (s.num_buckets - 1) ≡ empty
      → query h s idx ≡ record { idx = 0; result = all_zero }
  unfolding query is_zero
  query_none s idx e = rw e

  sample_first :
      (s : Sketch) (smp : SketchSample)
      → s.sample_idx ≡ 0
      → 0 < s.num_samples
      → query h s 0 ≡ smp
      → sample h s ≡ returned smp (record s { sample_idx = 1 })
  unfolding sample
  sample_first s smp e lt q = ground (arith, ap (query h s) e)

  -- The last bucket after one update of a zeroed sketch.
  last_of_one :
      (s : Sketch) (x : ℕ)
      → IsValid s
      → let t = update h (zero_contents s) x in
        bucket_at t (t.num_buckets - 1) ≡ word x (get_index_hash h x t.seed)
  unfolding update zero_contents
  last_of_one s x v =
      let z = zero_contents s in
      let lt : s.num_buckets - 1 < length s.buckets = omega (arith, v.allocated, v.count) in
      bucket_at-update_last z x (zero_contents-IsValid s v)
      ∙ ap (λ b. b ⊕ word x (get_index_hash h x s.seed))
          (bucket_at-zero_contents s (s.num_buckets - 1) v lt)
      ∙ empty-⊕ (word x (get_index_hash h x s.seed))

  fresh_counts :
      (s : Sketch) (x : ℕ)
      → 0 < s.num_samples
      → let t = update h (zero_contents s) x in (t.sample_idx ≡ 0) × (0 < t.num_samples)
  unfolding update zero_contents
  fresh_counts s x lt = (refl, lt)

  -- A vector with one coordinate, other than coordinate 0, is always recovered: whatever updates
  -- built it on a zeroed sketch, and whatever the hashes, the first sample returns the coordinate.
  pub sample_one :
      (s : Sketch) (xs : List ℕ) (x : ℕ)
      → IsValid s
      → 0 < s.num_samples
      → x ≢ 0
      → ((a : ℕ) → bit_of a xs ≡ (a == x))
      → sample h (update_all (update h) (zero_contents s) xs)
        ≡ returned
            (record { idx = x; result = good })
            (record (update_all (update h) (zero_contents s) xs) { sample_idx = 1 })
  sample_one s xs x v some_left nz single =
      let t = update h (zero_contents s) x in
      let one : update_all (update h) (zero_contents s) xs ≡ t =
        update_all_of_vector (update h) (update-IsLinear h) (zero_contents s) xs (x ∷ [])
          (zero_contents-IsValid s v) (λ a. ground (arith, single a)) in
      rw one (
        sample_first t _ (fresh_counts s x some_left).0 (fresh_counts s x some_left).1
          (query_one t 0 x nz (last_of_one s x v)))

  -- If every update was cancelled, the first sample reports that the vector is zero.
  pub sample_none :
      (s : Sketch) (xs : List ℕ)
      → IsValid s
      → 0 < s.num_samples
      → ((a : ℕ) → bit_of a xs ≡ false)
      → sample h (update_all (update h) (zero_contents s) xs)
        ≡ returned
            (record { idx = 0; result = all_zero })
            (record (zero_contents s) { sample_idx = 1 })
  sample_none s xs v some_left none_left =
      let z = zero_contents s in
      let nothing : update_all (update h) z xs ≡ z =
        update_all_of_vector (update h) (update-IsLinear h) z xs [] (zero_contents-IsValid s v)
          none_left in
      let lt : s.num_buckets - 1 < length s.buckets = omega (arith, v.allocated, v.count) in
      rw nothing (
        sample_first z _ (unfold zero_contents in refl) (unfold zero_contents in some_left)
          (query_none z 0 (unfold zero_contents in bucket_at-zero_contents s _ v lt)))
