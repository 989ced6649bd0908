-- ===== src/Sketch/Merge.antt =====
-- Zeroing and merging, read bucket by bucket.
use graph_zeppelin.Base.{
  ℕ, ◌+◌, ◌-◌, ◌*◌, ◌≤◌, ◌<◌, ◌≡◌, refl, ap, ◌∙◌, sym, subst, arith, List, ltb, leb, ◌==◌, ◌&&◌,
  ◌||◌, length, get_or_ext, Bool, false, true,
}
use graph_zeppelin.Bucket.{Bucket, empty}
use graph_zeppelin.Bucket.Group.{◌⊕◌, ⊕-empty, empty-⊕}
use graph_zeppelin.Sketch.{Sketch, zero_contents, merge, range_merge, update_at}
use graph_zeppelin.Sketch.Array.{
  when, chain, length-update_at, get_or-update_at, length-merge_loop, length-zero_loop,
  get_or-merge_loop, get_or-zero_loop,
}
use graph_zeppelin.Sketch.Linear.{bucket_at, shape}
use graph_zeppelin.Sketch.Valid.{IsValid, range_merge-IsValid}

pub bucket_at-merge :
    (s t : Sketch) (j : ℕ)
    → IsValid s
    → j < length s.buckets
    → bucket_at (merge s t) j ≡ bucket_at s j ⊕ bucket_at t j
unfolding merge
bucket_at-merge s t j v lt =
    let in_range : (leb 0 j && ltb j (0 + s.num_buckets)) ≡ true = ground arith in
    get_or-merge_loop s.num_buckets 0 j s.buckets t.buckets lt
    ∙ ap (λ b. bucket_at s j ⊕ when b (bucket_at t j)) in_range

pub bucket_at-zero_contents :
    (s : Sketch) (j : ℕ) → IsValid s → j < length s.buckets → bucket_at (zero_contents s) j ≡ empty
unfolding zero_contents
bucket_at-zero_contents s j v lt =
    get_or-zero_loop s.num_buckets 0 j s.buckets (omega arith) (omega (arith, v.allocated)) lt

pub shape-zero_contents : (s : Sketch) → shape (zero_contents s) ≡ shape s
unfolding zero_contents
shape-zero_contents s = refl

pub length-zero_contents : (s : Sketch) → length (zero_contents s).buckets ≡ length s.buckets
unfolding zero_contents
length-zero_contents s = length-zero_loop s.num_buckets 0 s.buckets

pub length-merge : (s t : Sketch) → length (merge s t).buckets ≡ length s.buckets
unfolding merge
length-merge s t = length-merge_loop s.num_buckets 0 s.buckets t.buckets

-- Merging changes the buckets alone.
pub merge_keeps : (s t : Sketch) → merge s t ≡ record s { buckets = (merge s t).buckets }
unfolding merge
merge_keeps s t = refl

-- The buckets of the samples from `start` on, `n` of them, and the last bucket.
abbrev pub in_samples : Sketch → ℕ → ℕ → ℕ → Bool
in_samples s start n j =
    j == s.num_buckets - 1
    || (leb (start * s.cols_per_sample * s.bkt_per_col) j
        && ltb j
            (start * s.cols_per_sample * s.bkt_per_col + n * s.cols_per_sample * s.bkt_per_col))

product_mono : (a b c : ℕ) → a ≤ b → a * c ≤ b * c
product_mono a b c h = grind arith

-- The samples that fit a sketch lie below its last bucket.
samples_end :
    (s : Sketch) (start n : ℕ)
    → IsValid s
    → start + n ≤ s.num_samples
    → start * s.cols_per_sample * s.bkt_per_col + n * s.cols_per_sample * s.bkt_per_col
      ≤ s.num_buckets - 1
samples_end s start n v fits =
    let cols = product_mono (start + n) s.num_samples s.cols_per_sample fits in
    let bkts = product_mono _ _ s.bkt_per_col cols in
    omega (arith, bkts, v.count, ap (λ (t : ℕ). t * s.bkt_per_col) v.columns)

-- The last bucket lies behind the range, so that no bucket is added twice.
one_of :
    (s t : Sketch) (last from many j : ℕ)
    → from + many ≤ last
    → when (last == j) (bucket_at t last) ⊕ when (leb from j && ltb j (from + many)) (bucket_at t j)
      ≡ when (j == last || (leb from j && ltb j (from + many))) (bucket_at t j)
one_of s t last from many j end =
    ground (arith, ⊕-empty (bucket_at t j), empty-⊕ (bucket_at t j), ⊕-empty empty)

-- A range merge that fits adds the other sketch's buckets of those samples, and its last bucket,
-- and leaves every other bucket alone.
pub bucket_at-range_merge :
    (s t : Sketch) (start n j : ℕ)
    → IsValid s
    → start + n ≤ s.num_samples
    → j < length s.buckets
    → bucket_at (range_merge s t start n) j
      ≡ bucket_at s j ⊕ when (in_samples s start n j) (bucket_at t j)
unfolding range_merge
bucket_at-range_merge s t start n j v fits lt =
    let last = s.num_buckets - 1 in
    let b = bucket_at t last in
    let from = start * s.cols_per_sample * s.bkt_per_col in
    let many = n * s.cols_per_sample * s.bkt_per_col in
    let det = update_at s.buckets last b.alpha b.gamma in
    let inside : ltb s.num_samples (start + n) ≡ false = ground arith in
    let rest = when (leb from j && ltb j (from + many)) (bucket_at t j) in
    rw inside (
      chain (bucket_at s j) (when (last == j) b) rest
        (get_or-update_at s.buckets last j b.alpha b.gamma lt)
        (get_or-merge_loop many from j det t.buckets
          (subst (λ i. j < i) (sym (length-update_at s.buckets last b.alpha b.gamma)) lt))
      ∙ ap (◌⊕◌ (bucket_at s j)) (one_of s t last from many j (samples_end s start n v fits)))

-- From sample 0 on, the state of sampling is kept.
range_merge_keeps :
    (s t : Sketch)
    → range_merge s t 0 s.num_samples
      ≡ record s { buckets = (range_merge s t 0 s.num_samples).buckets }
unfolding range_merge
range_merge_keeps s t =
    let inside : ltb s.num_samples (0 + s.num_samples) ≡ false = ground arith in
    let kept : ltb s.sample_idx 0 ≡ false = ground arith in rw (inside, kept)

length-range_merge :
    (s t : Sketch) → IsValid s → length (range_merge s t 0 s.num_samples).buckets ≡ length s.buckets
length-range_merge s t v =
    let vr = range_merge-IsValid s t 0 s.num_samples v in
    vr.allocated ∙ ap (λ (u : Sketch). u.num_buckets) (range_merge_keeps s t) ∙ sym v.allocated

all_in_samples :
    (s : Sketch) (j : ℕ) → IsValid s → j < length s.buckets → in_samples s 0 s.num_samples j ≡ true
all_in_samples s j v lt =
    ground (arith, v.allocated, v.count, v.columns, ap (λ (t : ℕ). t * s.bkt_per_col) v.columns)

-- The range of all samples is the whole sketch.
pub range_merge_all : (s t : Sketch) → IsValid s → range_merge s t 0 s.num_samples ≡ merge s t
range_merge_all s t v =
    let r = range_merge s t 0 s.num_samples in
    let vr = range_merge-IsValid s t 0 s.num_samples v in
    let everywhere = λ (j : ℕ) (lt : j < length s.buckets).
      bucket_at-range_merge s t 0 s.num_samples j v (omega arith) lt
      ∙ ap (λ b. bucket_at s j ⊕ when b (bucket_at t j)) (all_in_samples s j v lt)
      ∙ sym (bucket_at-merge s t j v lt) in
    range_merge_keeps s t
    ∙ ap (λ (bs : List Bucket). record s { buckets = bs })
        (get_or_ext empty r.buckets (merge s t).buckets
          (length-range_merge s t v ∙ sym (length-merge s t))
          (λ j lt. everywhere j (subst (λ n. j < n) (length-range_merge s t v) lt)))
    ∙ sym (merge_keeps s t)
