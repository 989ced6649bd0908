-- ===== src/Sketch/Valid.antt =====
-- The sizes of a sketch: fixed by the constructor, and kept by each operation.
use graph_zeppelin.Base.{
  ℕ, ◌+◌, ◌*◌, ◌≤◌, ◌≡◌, refl, ◌∙◌, arith, List, length, length-replicate, ltb, Bool-cases, inl,
  inr,
}
use graph_zeppelin.Bucket.{Bucket, Hashes, empty}
use graph_zeppelin.Sketch.{
  Sketch, new_sketch, update, update_cube, zero_contents, merge, range_merge,
  merge_raw_bucket_buffer,
}
use graph_zeppelin.Sketch.Array.{length-update_at, length-merge_loop, length-zero_loop}
use graph_zeppelin.Sketch.Columns.{length-update_columns, length-update_columns_cube}

pub record IsValid (s : Sketch) : Type 0 where
  pub columns : s.num_columns ≡ s.num_samples * s.cols_per_sample
  pub count : s.num_buckets ≡ s.num_columns * s.bkt_per_col + 1
  pub allocated : length s.buckets ≡ s.num_buckets
  pub samples : s.sample_idx ≤ s.num_samples

pub new_sketch-IsValid :
    (ceil_log2 : ℕ → ℕ) (vector_len seed samples cols : ℕ)
    → IsValid (new_sketch ceil_log2 vector_len seed samples cols)
unfolding new_sketch
new_sketch-IsValid ceil_log2 vector_len seed samples cols = record {
  columns = refl;
  count = refl;
  allocated = length-replicate _ empty;
  samples = omega arith;
}

pub update-IsValid : (h : Hashes) (s : Sketch) (x : ℕ) → IsValid s → IsValid (update h s x)
unfolding update
update-IsValid h s x v = record {
  columns = v.columns;
  count = v.count;
  allocated =
      length-update_columns h s x _ s.num_columns 0 _
      ∙ length-update_at s.buckets _ _ _
      ∙ v.allocated;
  samples = v.samples;
}

pub update_cube-IsValid :
    (h : Hashes) (s : Sketch) (x : ℕ) → IsValid s → IsValid (update_cube h s x)
unfolding update_cube
update_cube-IsValid h s x v = record {
  columns = v.columns;
  count = v.count;
  allocated =
      length-update_columns_cube h s x _ s.num_columns 0 _
      ∙ length-update_at s.buckets _ _ _
      ∙ v.allocated;
  samples = v.samples;
}

pub zero_contents-IsValid : (s : Sketch) → IsValid s → IsValid (zero_contents s)
unfolding zero_contents
zero_contents-IsValid s v = record {
  columns = v.columns;
  count = v.count;
  allocated = length-zero_loop s.num_buckets 0 s.buckets ∙ v.allocated;
  samples = omega arith;
}

pub merge-IsValid : (s t : Sketch) → IsValid s → IsValid (merge s t)
unfolding merge
merge-IsValid s t v = record {
  columns = v.columns;
  count = v.count;
  allocated = length-merge_loop s.num_buckets 0 s.buckets t.buckets ∙ v.allocated;
  samples = v.samples;
}

pub merge_raw-IsValid :
    (s : Sketch) (raw : List Bucket) → IsValid s → IsValid (merge_raw_bucket_buffer s raw)
unfolding merge_raw_bucket_buffer
merge_raw-IsValid s raw v = record {
  columns = v.columns;
  count = v.count;
  allocated = length-merge_loop s.num_buckets 0 s.buckets raw ∙ v.allocated;
  samples = v.samples;
}

-- A range that lies outside the sketch is refused, and the sketch stays well formed.
pub range_merge-IsValid :
    (s t : Sketch) (start n : ℕ) → IsValid s → IsValid (range_merge s t start n)
unfolding range_merge
range_merge-IsValid s t start n v = elim (Bool-cases (ltb s.num_samples (start + n))) [
  | inl out ↦ rw out (record {
    columns = v.columns;
    count = v.count;
    allocated = v.allocated;
    samples = omega arith;
  })
  | inr fits ↦ rw fits (record {
    columns = v.columns;
    count = v.count;
    allocated = length-merge_loop _ _ _ t.buckets ∙ length-update_at s.buckets _ _ _ ∙ v.allocated;
    samples = ground (arith, v.samples);
  })
]
