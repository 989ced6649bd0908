-- ===== src/Sketch/Columns.antt =====
-- The loops over the columns, in CameoSketch and in CubeSketch: what each adds to a bucket.
use graph_zeppelin.Base.{
  ℕ, zero, suc, ◌+◌, ◌*◌, ◌<◌, ◌≡◌, refl, ap, ◌∙◌, sym, subst, arith, List, Bool, true, false, ltb,
  leb, ◌==◌, ◌&&◌, if◌then◌else◌, length, get_or, ◌≤◌,
}
use graph_zeppelin.Pairing.{u64}
use graph_zeppelin.Bucket.{Bucket, Hashes, empty, get_index_depth}
use graph_zeppelin.Bucket.Group.{◌⊕◌, ⊕-empty, empty-⊕}
use graph_zeppelin.Sketch.{
  Sketch, update_at, update_columns, update_depths, update_columns_cube, column_seed,
}
use graph_zeppelin.Sketch.Array.{
  word, when, guarded, length-guarded, get_or-guarded, chain, length-update_at, get_or-update_at,
}

-- What the columns from `i` on add to bucket `j`, given which buckets each column's update
-- reaches.
pub words : (ℕ → ℕ → Bool) → Bucket → ℕ → ℕ → ℕ → Bucket
words reaches w zero i j = empty
words reaches w (suc left) i j = when (reaches i j) w ⊕ words reaches w left (i + 1) j

-- The depth of an index in column `i` of a sketch with that seed and that many buckets per column.
abbrev depth_in : Hashes → ℕ → ℕ → ℕ → ℕ → ℕ
depth_in h seed per_col x i = get_index_depth h x (u64 (seed + i * 5)) per_col

-- CameoSketch: the bucket at the depth of the index in column `i`.
abbrev pub cameo_reaches : Hashes → ℕ → ℕ → ℕ → ℕ → ℕ → Bool
cameo_reaches h seed per_col x i j =
    let depth = get_index_depth h x (u64 (seed + i * 5)) per_col in
    ltb depth per_col && (i * per_col + depth == j)

-- CubeSketch: the buckets up to that depth.
abbrev pub cube_reaches : Hashes → ℕ → ℕ → ℕ → ℕ → ℕ → Bool
cube_reaches h seed per_col x i j =
    let depth = get_index_depth h x (u64 (seed + i * 5)) per_col in
    ltb depth per_col && (leb (i * per_col) j && ltb j (i * per_col + (depth + 1)))

-- The position of a column's bucket lies below the position behind the columns.
column_bucket-lt : (i n b d : ℕ) → i < n → d < b → i * b + d < n * b
column_bucket-lt i n b d p q = grind arith

-- No column reaches the last bucket.
pub words_last :
    (h : Hashes) (seed b x left i n : ℕ) (w : Bucket)
    → i + left ≤ n
    → words (cameo_reaches h seed b x) w left i (n * b) ≡ empty
unfolding words
words_last h seed b x zero i n w p = refl
words_last h seed b x (suc left) i n w p =
    let missed : cameo_reaches h seed b x i (n * b) ≡ false =
      ground (arith, column_bucket-lt i n b (depth_in h seed b x i)) in
    rw missed (
      empty-⊕ (words (cameo_reaches h seed b x) w left (i + 1) (n * b))
      ∙ words_last h seed b x left (i + 1) n w (omega arith))

module _ (h : Hashes) (s : Sketch) (x c : ℕ) where
  pub length-update_columns :
      (left i : ℕ) (bs : List Bucket) → length (update_columns h s x c left i bs) ≡ length bs
  unfolding update_columns
  length-update_columns zero i bs = refl
  length-update_columns (suc left) i bs =
      length-update_columns left (i + 1) _ ∙ length-guarded _ bs _ x c

  pub get_or-update_columns :
      (left i j : ℕ) (bs : List Bucket)
      → j < length bs
      → get_or (update_columns h s x c left i bs) j empty
        ≡ get_or bs j empty ⊕ words (cameo_reaches h s.seed s.bkt_per_col x) (word x c) left i j
  unfolding update_columns words column_seed
  get_or-update_columns zero i j bs lt = sym (⊕-empty (get_or bs j empty))
  get_or-update_columns (suc left) i j bs lt =
      let t = ltb (depth_in h s.seed s.bkt_per_col x i) s.bkt_per_col in
      let at = i * s.bkt_per_col + depth_in h s.seed s.bkt_per_col x i in
      chain (get_or bs j empty) (when (cameo_reaches h s.seed s.bkt_per_col x i j) (word x c))
        (words (cameo_reaches h s.seed s.bkt_per_col x) (word x c) left (i + 1) j)
        (get_or-guarded t bs at j x c lt)
        (get_or-update_columns left (i + 1) j (guarded t bs at x c)
          (subst (λ n. j < n) (sym (length-guarded t bs at x c)) lt))

  length-update_depths :
      (left i : ℕ) (bs : List Bucket) → length (update_depths h s x c left i bs) ≡ length bs
  unfolding update_depths
  length-update_depths zero i bs = refl
  length-update_depths (suc left) i bs =
      length-update_depths left (i + 1) (update_at bs i x c) ∙ length-update_at bs i x c

  get_or-update_depths :
      (left i j : ℕ) (bs : List Bucket)
      → j < length bs
      → get_or (update_depths h s x c left i bs) j empty
        ≡ get_or bs j empty ⊕ when (leb i j && ltb j (i + left)) (word x c)
  unfolding update_depths
  get_or-update_depths zero i j bs lt = ground (arith, ⊕-empty (get_or bs j empty))
  get_or-update_depths (suc left) i j bs lt =
      let rest = when (leb (i + 1) j && ltb j (i + 1 + left)) (word x c) in
      chain (get_or bs j empty) (when (i == j) (word x c)) rest (get_or-update_at bs i j x c lt) (
        get_or-update_depths left (i + 1) j (update_at bs i x c)
          (subst (λ n. j < n) (sym (length-update_at bs i x c)) lt))
      ∙ ap (◌⊕◌ (get_or bs j empty))
          (ground (arith, ⊕-empty (word x c), empty-⊕ (word x c), ⊕-empty empty))

  -- One column of CubeSketch.
  abbrev cube_column : Bool → ℕ → ℕ → List Bucket → List Bucket
  cube_column t d at bs = if t then update_depths h s x c d at bs else bs

  length-cube_column :
      (t : Bool) (d at : ℕ) (bs : List Bucket) → length (cube_column t d at bs) ≡ length bs
  length-cube_column true d at bs = length-update_depths d at bs
  length-cube_column false d at bs = refl

  get_or-cube_column :
      (t : Bool) (d at j : ℕ) (bs : List Bucket)
      → j < length bs
      → get_or (cube_column t d at bs) j empty
        ≡ get_or bs j empty ⊕ when (t && (leb at j && ltb j (at + d))) (word x c)
  get_or-cube_column true d at j bs lt = get_or-update_depths d at j bs lt
  get_or-cube_column false d at j bs lt = sym (⊕-empty (get_or bs j empty))

  pub length-update_columns_cube :
      (left i : ℕ) (bs : List Bucket) → length (update_columns_cube h s x c left i bs) ≡ length bs
  unfolding update_columns_cube
  length-update_columns_cube zero i bs = refl
  length-update_columns_cube (suc left) i bs =
      length-update_columns_cube left (i + 1) _ ∙ length-cube_column _ _ _ bs

  pub get_or-update_columns_cube :
      (left i j : ℕ) (bs : List Bucket)
      → j < length bs
      → get_or (update_columns_cube h s x c left i bs) j empty
        ≡ get_or bs j empty ⊕ words (cube_reaches h s.seed s.bkt_per_col x) (word x c) left i j
  unfolding update_columns_cube words column_seed
  get_or-update_columns_cube zero i j bs lt = sym (⊕-empty (get_or bs j empty))
  get_or-update_columns_cube (suc left) i j bs lt =
      let t = ltb (depth_in h s.seed s.bkt_per_col x i) s.bkt_per_col in
      let at = i * s.bkt_per_col in
      let d = depth_in h s.seed s.bkt_per_col x i + 1 in
      chain (get_or bs j empty) (when (cube_reaches h s.seed s.bkt_per_col x i j) (word x c))
        (words (cube_reaches h s.seed s.bkt_per_col x) (word x c) left (i + 1) j)
        (get_or-cube_column t d at j bs lt)
        (get_or-update_columns_cube left (i + 1) j (cube_column t d at bs)
          (subst (λ n. j < n) (sym (length-cube_column t d at bs)) lt))
