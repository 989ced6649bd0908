-- ===== src/Sketch/Sample.antt =====
-- Sketch::sample and Sketch::exhaustive_sample, with the exception that both throw when the
-- sketch has no sample left.
use graph_zeppelin.Base.{
  ℕ, zero, suc, ◌+◌, ◌-◌, ◌*◌, Bool, List, [], ◌∷◌, Option, none, some, leb, ◌==◌, ◌&&◌,
  if◌then◌else◌, get_or, set_insert,
}
use graph_zeppelin.Bucket.{Bucket, Hashes, empty, is_good}
use graph_zeppelin.Sketch.{Sketch, checksum_seed}

pub data SampleResult : Type 0 where
  good all_zero fail : SampleResult

pub record SketchSample : Type 0 where
  pub idx : ℕ
  pub result : SampleResult

-- `idxs` is an unordered set: the order of the list means nothing.
pub record ExhaustiveSketchSample : Type 0 where
  pub idxs : List ℕ
  pub result : SampleResult

-- What a call returns, with the sketch after it, or the OutOfSamplesException.
pub data Attempt (A : Type 0) : Type 0 where
  returned : A → Sketch → Attempt A
  out_of_samples : Attempt A

-- The test on the last bucket.
unfoldable pub is_zero : Bucket → Bool
is_zero b = b.alpha == 0 && b.gamma == 0

module _ (h : Hashes) (s : Sketch) where
  abbrev pub last_bucket : Bucket
  last_bucket = get_or s.buckets (s.num_buckets - 1) empty

  -- The inner loop, over the buckets of one column from `bucket_id` on.
  unfoldable pub first_good : ℕ → ℕ → Option ℕ
  first_good zero bucket_id = none
  first_good (suc left) bucket_id =
      let b = get_or s.buckets bucket_id empty in
      let rest = first_good left (bucket_id + 1) in
      if is_good h b (checksum_seed s) then some b.alpha else rest

  -- The outer loop, from column `column` on.
  unfoldable pub first_good_column : ℕ → ℕ → Option ℕ
  first_good_column zero column = none
  first_good_column (suc left) column = elim (first_good s.bkt_per_col (column * s.bkt_per_col)) [
    | some a ↦ some a
    | none ↦ first_good_column left (column + 1)
  ]

  unfoldable pub found : Option ℕ → SketchSample
  found (some a) = record { idx = a; result = good }
  found none = record { idx = 0; result = fail }

  -- `sample` past the guard and the increment of `sample_idx`.
  unfoldable pub query : ℕ → SketchSample
  unfolding found is_zero
  query idx =
      if is_zero last_bucket
      then record { idx = 0; result = all_zero }
      else if is_good h last_bucket (checksum_seed s)
      then record { idx = last_bucket.alpha; result = good }
      else found (first_good_column s.cols_per_sample (idx * s.cols_per_sample))

  unfoldable pub sample : Attempt SketchSample
  sample =
      if leb s.num_samples s.sample_idx
      then out_of_samples
      else returned (query s.sample_idx) (record s { sample_idx = s.sample_idx + 1 })

  collect : ℕ → ℕ → List ℕ → List ℕ
  collect zero bucket_id ret = ret
  collect (suc left) bucket_id ret =
      let b = get_or s.buckets bucket_id empty in
      collect left (bucket_id + 1)
        (if is_good h b (checksum_seed s) then set_insert b.alpha ret else ret)

  collect_columns : ℕ → ℕ → List ℕ → List ℕ
  unfolding collect
  collect_columns zero column ret = ret
  collect_columns (suc left) column ret =
      collect_columns left (column + 1) (collect s.bkt_per_col (column * s.bkt_per_col) ret)

  gathered : List ℕ → ExhaustiveSketchSample
  gathered [] = record { idxs = []; result = fail }
  gathered (a ∷ ret) = record { idxs = a ∷ ret; result = good }

  unfoldable pub query_all : ℕ → ExhaustiveSketchSample
  unfolding collect_columns gathered is_zero
  query_all idx =
      if is_zero last_bucket
      then record { idxs = []; result = all_zero }
      else if is_good h last_bucket (checksum_seed s)
      then record { idxs = last_bucket.alpha ∷ []; result = good }
      else gathered (collect_columns s.cols_per_sample (idx * s.cols_per_sample) [])

  unfoldable pub exhaustive_sample : Attempt ExhaustiveSketchSample
  exhaustive_sample =
      if leb s.num_samples s.sample_idx
      then out_of_samples
      else returned (query_all s.sample_idx) (record s { sample_idx = s.sample_idx + 1 })
