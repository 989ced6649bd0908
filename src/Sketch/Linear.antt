-- ===== src/Sketch/Linear.antt =====
-- `IsLinear` is what the laws of sketches need of an update function. CameoSketch and CubeSketch
-- both fill it.
use graph_zeppelin.Base.{ℕ, ◌-◌, ◌<◌, ◌≡◌, refl, sym, subst, ◌==◌, length, get_or}
use graph_zeppelin.Bucket.{Bucket, Hashes, empty, get_index_hash}
use graph_zeppelin.Bucket.Group.{◌⊕◌}
use graph_zeppelin.Sketch.{Sketch, update, update_cube, checksum_seed}
use graph_zeppelin.Sketch.Array.{word, when, chain, length-update_at, get_or-update_at}
use graph_zeppelin.Sketch.Columns.{
  words, cameo_reaches, cube_reaches, get_or-update_columns, get_or-update_columns_cube,
}
use graph_zeppelin.Sketch.Valid.{IsValid, update-IsValid, update_cube-IsValid}

-- The part of a sketch that its hash functions and its layout depend on.
pub record Shape : Type 0 where
  pub seed : ℕ
  pub num_columns : ℕ
  pub bkt_per_col : ℕ
  pub num_buckets : ℕ

abbrev pub shape : Sketch → Shape
shape s = record {
  seed = s.seed;
  num_columns = s.num_columns;
  bkt_per_col = s.bkt_per_col;
  num_buckets = s.num_buckets;
}

abbrev pub bucket_at : Sketch → ℕ → Bucket
bucket_at s j = get_or s.buckets j empty

-- An update adds to each bucket a word that depends on the sketch's shape and the index alone.
pub record IsLinear (upd : Sketch → ℕ → Sketch) : Type 0 where
  pub delta : Shape → ℕ → ℕ → Bucket
  pub adds :
      (s : Sketch) (x j : ℕ)
      → j < length s.buckets
      → bucket_at (upd s x) j ≡ bucket_at s j ⊕ delta (shape s) x j
  pub keeps : (s : Sketch) (x : ℕ) → upd s x ≡ record s { buckets = (upd s x).buckets }
  pub keeps_valid : (s : Sketch) (x : ℕ) → IsValid s → IsValid (upd s x)

-- What one update of CameoSketch adds: the word in the last bucket and in each column's bucket.
cameo_delta : Hashes → Shape → ℕ → ℕ → Bucket
cameo_delta h p x j =
    let w = word x (get_index_hash h x p.seed) in
    when (p.num_buckets - 1 == j) w
    ⊕ words (cameo_reaches h p.seed p.bkt_per_col x) w p.num_columns 0 j

cube_delta : Hashes → Shape → ℕ → ℕ → Bucket
cube_delta h p x j =
    let w = word x (get_index_hash h x p.seed) in
    when (p.num_buckets - 1 == j) w
    ⊕ words (cube_reaches h p.seed p.bkt_per_col x) w p.num_columns 0 j

pub update-IsLinear : (h : Hashes) → IsLinear (update h)
unfolding update checksum_seed cameo_delta
update-IsLinear h = record {
  delta = cameo_delta h;
  adds = λ s x j lt.
      let c = get_index_hash h x s.seed in
      let last = s.num_buckets - 1 in
      chain (bucket_at s j) _ _ (get_or-update_at s.buckets last j x c lt) (
        get_or-update_columns h s x c s.num_columns 0 j _
          (subst (λ n. j < n) (sym (length-update_at s.buckets last x c)) lt));
  keeps = λ s x. refl;
  keeps_valid = update-IsValid h;
}

pub update_cube-IsLinear : (h : Hashes) → IsLinear (update_cube h)
unfolding update_cube checksum_seed cube_delta
update_cube-IsLinear h = record {
  delta = cube_delta h;
  adds = λ s x j lt.
      let c = get_index_hash h x s.seed in
      let last = s.num_buckets - 1 in
      chain (bucket_at s j) _ _ (get_or-update_at s.buckets last j x c lt) (
        get_or-update_columns_cube h s x c s.num_columns 0 j _
          (subst (λ n. j < n) (sym (length-update_at s.buckets last x c)) lt));
  keeps = λ s x. refl;
  keeps_valid = update_cube-IsValid h;
}
