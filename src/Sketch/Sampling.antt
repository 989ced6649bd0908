-- ===== src/Sketch/Sampling.antt =====
-- What a sample says about the buckets.
use graph_zeppelin.Base.{
  ℕ, zero, suc, ◌+◌, ◌-◌, ◌*◌, ◌≤◌, ◌<◌, ◌≡◌, ◌⊎◌, inl, inr, refl, arith, Bool-cases, Option-cases,
  true, false, none, some, Bool, dec_lt, ◌↔◌, ◌∙◌, ◌≢◌, some_eq,
}
use graph_zeppelin.Bucket.{Bucket, Hashes, empty, is_good}
use graph_zeppelin.Sketch.{Sketch, checksum_seed}
use graph_zeppelin.Sketch.Linear.{bucket_at}
use graph_zeppelin.Sketch.Sample.{
  found, good, all_zero, fail, SketchSample, returned, out_of_samples, is_zero, last_bucket,
  first_good, first_good_column, query, sample,
}

module _ (h : Hashes) (s : Sketch) where
  abbrev pub good_at : ℕ → Bool
  good_at j = is_good h (bucket_at s j) s.seed

  first_good-some :
      (left id a : ℕ)
      → first_good h s left id ≡ some a
      → (j : ℕ) × (id ≤ j) × (j < id + left) × (good_at j ≡ true) × ((bucket_at s j).alpha ≡ a)
  unfolding first_good checksum_seed
  first_good-some zero id a e = ground arith
  first_good-some (suc left) id a e = elim (Bool-cases (good_at id)) [
    | inl yes_good ↦ (id, omega arith, omega arith, yes_good, ground arith)
    | inr bad ↦
        let (j, p, q, g, r) = first_good-some left (id + 1) a (ground arith) in
        (j, omega arith, omega arith, g, r)
  ]

  first_good-none :
      (left id j : ℕ) → first_good h s left id ≡ none → id ≤ j → j < id + left → good_at j ≡ false
  unfolding first_good checksum_seed
  first_good-none zero id j e p q = absurd (omega arith)
  first_good-none (suc left) id j e p q = ground (arith, first_good-none left (id + 1) j)

  -- The columns of one sample, as positions.
  abbrev pub InColumns : ℕ → ℕ → ℕ → Type 0
  InColumns column left j = (column * s.bkt_per_col ≤ j) × (j < (column + left) * s.bkt_per_col)

  first_good_column-some :
      (left column a : ℕ)
      → first_good_column h s left column ≡ some a
      → (j : ℕ) × InColumns column left j × (good_at j ≡ true) × ((bucket_at s j).alpha ≡ a)
  unfolding first_good_column
  first_good_column-some zero column a e = ground arith
  first_good_column-some (suc left) column a e =
      elim (Option-cases (first_good h s s.bkt_per_col (column * s.bkt_per_col))) [
        | inl none_here ↦
            let (j, (p, q), g, r) =
              first_good_column-some left (column + 1) a (rw (none_here, first_good_column) at e) in
            (j, (grind arith, grind arith), g, r)
        | inr (b, here) ↦
            let (j, p, q, g, r) = first_good-some s.bkt_per_col (column * s.bkt_per_col) b here in
            (j, (p, grind arith), g, r ∙ some_eq (rw (here, first_good_column) at e))
      ]

  first_good_column-none :
      (left column j : ℕ)
      → first_good_column h s left column ≡ none
      → InColumns column left j
      → good_at j ≡ false
  unfolding first_good_column
  first_good_column-none zero column j e p = absurd (grind arith)
  first_good_column-none (suc left) column j e p =
      elim (Option-cases (first_good h s s.bkt_per_col (column * s.bkt_per_col))) [
        | inl none_here ↦ elim (dec_lt j (column * s.bkt_per_col + s.bkt_per_col)) [
          | yes lt ↦ first_good-none s.bkt_per_col (column * s.bkt_per_col) j none_here p.0 lt
          | no ge ↦
              first_good_column-none left (column + 1) j (rw (none_here, first_good_column) at e)
                (grind arith, grind arith)
        ]
        | inr (b, here) ↦ absurd (ground (arith, rw (here, first_good_column) at e))
      ]

  -- What the three results of a query mean. A good sample is the index in a bucket that passes
  -- its checksum: the last one, or one of the columns `column` on of the sample. Zero says that
  -- the last bucket is all zero. Failure says that no bucket of those passes.
  pub data IsQuery (column : ℕ) : SketchSample → Type 0 where
    is_good_sample :
        (j idx : ℕ)
        → (j ≡ s.num_buckets - 1) ⊎ InColumns column s.cols_per_sample j
        → good_at j ≡ true
        → (bucket_at s j).alpha ≡ idx
        → IsQuery column (record { idx = idx; result = good })
    is_zero_sample :
        bucket_at s (s.num_buckets - 1) ≡ empty
        → IsQuery column (record { idx = 0; result = all_zero })
    is_failure :
        bucket_at s (s.num_buckets - 1) ≢ empty
        → good_at (s.num_buckets - 1) ≡ false
        → ((j : ℕ) → InColumns column s.cols_per_sample j → good_at j ≡ false)
        → IsQuery column (record { idx = 0; result = fail })

  is_zero_iff : (b : Bucket) → (is_zero b ≡ true) ↔ (b ≡ empty)
  unfolding is_zero
  is_zero_iff b = ground arith

  -- Every query ends in one of the three ways.
  query-IsQuery : (idx : ℕ) → IsQuery (idx * s.cols_per_sample) (query h s idx)
  unfolding query found checksum_seed
  query-IsQuery idx = elim (Bool-cases (is_zero (last_bucket h s))) [
    | inl z ↦ rw z (is_zero_sample ((is_zero_iff _).0 z))
    | inr nz ↦ elim (Bool-cases (good_at (s.num_buckets - 1))) [
      | inl g ↦ rw (nz, g) (is_good_sample (s.num_buckets - 1) _ (inl refl) g refl)
      | inr bad ↦ rw (nz, bad) (columns bad nz)
    ]
  ]
    where
      columns :
          good_at (s.num_buckets - 1) ≡ false
          → is_zero (last_bucket h s) ≡ false
          → IsQuery
              (idx * s.cols_per_sample)
              (found h s (first_good_column h s s.cols_per_sample (idx * s.cols_per_sample)))
      columns bad nz =
          elim (Option-cases (first_good_column h s s.cols_per_sample (idx * s.cols_per_sample))) [
            | inl missing ↦ rw missing (
                is_failure (λ e. absurd (ground (arith, (is_zero_iff (last_bucket h s)).1 e))) bad
                  (λ j inside.
                    first_good_column-none s.cols_per_sample (idx * s.cols_per_sample) j missing
                      inside))
            | inr (a, hit) ↦
                let (j, inside, g, r) =
                  first_good_column-some s.cols_per_sample (idx * s.cols_per_sample) a hit in
                rw hit (is_good_sample j a (inr inside) g r)
          ]

-- A sketch can be sampled exactly while fewer than `num_samples` samples were taken. A call then
-- uses up one sample, changes nothing else, and returns a sound result from the columns of that
-- sample; otherwise it throws.
pub sample_lem :
    (h : Hashes) (s : Sketch)
    → (s.sample_idx < s.num_samples
        → (smp : SketchSample) × (sample h s
            ≡ returned smp (record s { sample_idx = s.sample_idx + 1 }))
          × IsQuery h s (s.sample_idx * s.cols_per_sample) smp)
      × (s.num_samples ≤ s.sample_idx → sample h s ≡ out_of_samples)
unfolding sample
sample_lem h s = (
  λ lt. (query h s s.sample_idx, ground arith, query-IsQuery h s s.sample_idx),
  λ ge. ground arith,
)
