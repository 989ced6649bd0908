-- ===== src/Sketch.antt =====
-- include/sketch.h and src/sketch.cpp: the linear sketch of a vector over GF(2). Sizes and
-- indices are `size_t` and stay far below 2^64, the number of bytes in memory; the seeds wrap.
-- The bucket array of a sketch is a list; `Sketch.Sample` models the queries.
pub mod Examples
pub mod Sample
pub mod Sampling
pub mod Recovery
pub mod Array
pub mod Columns
pub mod Vector
pub mod Valid
pub mod Linear
pub mod Merge
pub mod Batch
pub mod Stream
use graph_zeppelin.Base.{
  ℕ, zero, suc, ◌+◌, ◌-◌, ◌*◌, ◌%◌, ◌^◌, Bool, true, false, List, [], ◌∷◌, ltb, ◌==◌, ◌&&◌, ◌||◌,
  not, if◌then◌else◌, get_or, set, replicate,
}
use graph_zeppelin.Pairing.{u64}
use graph_zeppelin.Bucket.{Bucket, Hashes, empty, get_index_depth, get_index_hash}
use graph_zeppelin.Bucket

pub record Sketch : Type 0 where
  pub seed : ℕ
  pub num_samples : ℕ
  pub cols_per_sample : ℕ
  pub num_columns : ℕ
  pub bkt_per_col : ℕ
  pub num_buckets : ℕ
  pub sample_idx : ℕ
  pub buckets : List Bucket

-- `ceil_log2` is the double `ceil(log2(n))`, of the C library, as an integer.
unfoldable pub calc_bkt_per_col : (ℕ → ℕ) → ℕ → ℕ
calc_bkt_per_col ceil_log2 n =
    let temp = ceil_log2 n + 1 in if temp % 16 == 0 then temp + 1 else temp

-- The constructor that allocates its buckets.
unfoldable pub new_sketch : (ℕ → ℕ) → ℕ → ℕ → ℕ → ℕ → Sketch
new_sketch ceil_log2 vector_len seed samples cols =
    let columns = samples * cols in
    let per_col = calc_bkt_per_col ceil_log2 vector_len in
    record {
      seed = seed;
      num_samples = samples;
      cols_per_sample = cols;
      num_columns = columns;
      bkt_per_col = per_col;
      num_buckets = columns * per_col + 1;
      sample_idx = 0;
      buckets = replicate (columns * per_col + 1) empty;
    }

-- The constructor that reads the buckets from a stream, as `serialize` writes them. The buckets
-- read are those at the head of the stream.
unfoldable pub new_from_stream : (ℕ → ℕ) → ℕ → ℕ → List Bucket → ℕ → ℕ → Sketch
unfolding new_sketch
new_from_stream ceil_log2 vector_len seed binary_in samples cols =
    record (new_sketch ceil_log2 vector_len seed samples cols) { buckets = binary_in }

unfoldable pub serialize : Sketch → List Bucket
serialize s = s.buckets

unfoldable pub column_seed : Sketch → ℕ → ℕ
column_seed s column_idx = u64 (s.seed + column_idx * 5)

unfoldable pub checksum_seed : Sketch → ℕ
checksum_seed s = s.seed

-- Bucket_Boruvka::update(buckets[i], idx, hash).
unfoldable pub update_at : List Bucket → ℕ → ℕ → ℕ → List Bucket
update_at bs i idx hash = set bs i (Bucket.update (get_or bs i empty) idx hash)

module _ (h : Hashes) (s : Sketch) (update_idx checksum : ℕ) where
  -- The loop over the columns, from column `i` with `left` rounds to go.
  unfoldable pub update_columns : ℕ → ℕ → List Bucket → List Bucket
  update_columns zero i bs = bs
  update_columns (suc left) i bs =
      let depth = get_index_depth h update_idx (column_seed s i) s.bkt_per_col in
      let bucket_id = i * s.bkt_per_col + depth in
      update_columns left (i + 1)
        (if ltb depth s.bkt_per_col then update_at bs bucket_id update_idx checksum else bs)

  -- The inner loop of CubeSketch: depths `j` to `depth` of one column.
  unfoldable pub update_depths : ℕ → ℕ → List Bucket → List Bucket
  update_depths zero bucket_id bs = bs
  update_depths (suc left) bucket_id bs =
      update_depths left (bucket_id + 1) (update_at bs bucket_id update_idx checksum)

  unfoldable pub update_columns_cube : ℕ → ℕ → List Bucket → List Bucket
  update_columns_cube zero i bs = bs
  update_columns_cube (suc left) i bs =
      let depth = get_index_depth h update_idx (column_seed s i) s.bkt_per_col in
      update_columns_cube left (i + 1)
        (if ltb depth s.bkt_per_col then update_depths (depth + 1) (i * s.bkt_per_col) bs else bs)

-- Sketch::update of CameoSketch, the build without L0_SAMPLING.
unfoldable pub update : Hashes → Sketch → ℕ → Sketch
update h s update_idx =
    let checksum = get_index_hash h update_idx (checksum_seed s) in
    let first = update_at s.buckets (s.num_buckets - 1) update_idx checksum in
    record s { buckets = update_columns h s update_idx checksum s.num_columns 0 first }

-- Sketch::update of CubeSketch, the build with L0_SAMPLING.
unfoldable pub update_cube : Hashes → Sketch → ℕ → Sketch
update_cube h s update_idx =
    let checksum = get_index_hash h update_idx (checksum_seed s) in
    let first = update_at s.buckets (s.num_buckets - 1) update_idx checksum in
    record s { buckets = update_columns_cube h s update_idx checksum s.num_columns 0 first }

-- The loop of `zero_contents`.
unfoldable pub zero_loop : ℕ → ℕ → List Bucket → List Bucket
zero_loop zero i bs = bs
zero_loop (suc left) i bs = zero_loop left (i + 1) (set bs i empty)

unfoldable pub reset_sample_state : Sketch → Sketch
reset_sample_state s = record s { sample_idx = 0 }

unfoldable pub zero_contents : Sketch → Sketch
unfolding reset_sample_state
zero_contents s = reset_sample_state (record s { buckets = zero_loop s.num_buckets 0 s.buckets })

-- buckets[i].alpha ^= other[i].alpha, and gamma, for i from `i` on, `left` rounds.
unfoldable pub merge_loop : ℕ → ℕ → List Bucket → List Bucket → List Bucket
merge_loop zero i bs other = bs
merge_loop (suc left) i bs other =
    let b = get_or other i empty in merge_loop left (i + 1) (update_at bs i b.alpha b.gamma) other

unfoldable pub merge : Sketch → Sketch → Sketch
merge s other = record s { buckets = merge_loop s.num_buckets 0 s.buckets other.buckets }

unfoldable pub merge_raw_bucket_buffer : Sketch → List Bucket → Sketch
merge_raw_bucket_buffer s raw_buckets = record s {
  buckets = merge_loop s.num_buckets 0 s.buckets raw_buckets;
}

-- `assert(false)` is compiled out of a release build: the sketch then counts as used up.
unfoldable pub range_merge : Sketch → Sketch → ℕ → ℕ → Sketch
range_merge s other start_sample n_samples =
    if ltb s.num_samples (start_sample + n_samples)
    then record s { sample_idx = s.num_samples }
    else let last = get_or other.buckets (s.num_buckets - 1) empty in
      let det = update_at s.buckets (s.num_buckets - 1) last.alpha last.gamma in
      let start_bucket_id = start_sample * s.cols_per_sample * s.bkt_per_col in
      let n_buckets = n_samples * s.cols_per_sample * s.bkt_per_col in
      record s {
        sample_idx = if ltb s.sample_idx start_sample then start_sample else s.sample_idx;
        buckets = merge_loop n_buckets start_bucket_id det other.buckets;
      }

same_from : ℕ → ℕ → List Bucket → List Bucket → Bool
same_from zero i bs cs = true
same_from (suc left) i bs cs =
    let b = get_or bs i empty in
    let c = get_or cs i empty in
    let rest = same_from left (i + 1) bs cs in
    if not (b.alpha == c.alpha) || not (b.gamma == c.gamma) then false else rest

-- operator== of two sketches.
pub same_sketch : Sketch → Sketch → Bool
unfolding same_from
same_sketch s t =
    if not (s.num_buckets == t.num_buckets) || not (s.seed == t.seed)
    then false
    else same_from s.num_buckets 0 s.buckets t.buckets
