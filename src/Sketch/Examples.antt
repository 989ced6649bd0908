-- ===== src/Sketch/Examples.antt =====
-- Tests of a small sketch: two samples of one column with four buckets, under toy hashes.
use graph_zeppelin.Base.{◌+◌, ◌*◌, ◌%◌, ◌≤◌, ◌<◌, ◌≡◌, refl, arith, [], ◌∷◌}
use graph_zeppelin.Bucket.{Hashes, get_index_depth}
use graph_zeppelin.Bucket.Depth.{get_index_depth-ge_iff}
use graph_zeppelin.Sketch.{
  update_cube, Sketch, new_sketch, calc_bkt_per_col, update, zero_contents, merge, range_merge,
}
use graph_zeppelin.Sketch.Batch.{update_all}
use graph_zeppelin.Sketch.Merge.{range_merge_all}
use graph_zeppelin.Sketch.Recovery.{sample_one, sample_none}
use graph_zeppelin.Sketch.Sample.{good, all_zero, returned, sample, SketchSample, out_of_samples}
use graph_zeppelin.Sketch.Sampling.{sample_lem, IsQuery}
use graph_zeppelin.Sketch.Stream.{updates_of_vector, merge-updates}
use graph_zeppelin.Sketch.Valid.{IsValid, new_sketch-IsValid}

abbrev toy : Hashes
toy = record { vec_hash = λ x s. x * 7 + s + 1; col_hash = λ x s. x * 3 + s }

small : Sketch
unfolding new_sketch calc_bkt_per_col
small = new_sketch (λ n. 3) 8 11 2 1

small-IsValid : IsValid small
unfolding small
small-IsValid = new_sketch-IsValid (λ n. 3) 8 11 2 1

updates_of_vector_example :
    (update_all (update toy) small (5 ∷ 9 ∷ 5 ∷ 6 ∷ [])
      ≡ update_all (update toy) small (6 ∷ 9 ∷ []))
    × (update_all (update_cube toy) small (5 ∷ 9 ∷ 5 ∷ 6 ∷ [])
        ≡ update_all (update_cube toy) small (6 ∷ 9 ∷ []))
updates_of_vector_example =
    updates_of_vector toy small (5 ∷ 9 ∷ 5 ∷ 6 ∷ []) (6 ∷ 9 ∷ []) small-IsValid (λ a. ground arith)

merge-updates_example :
    (merge small (update_all (update toy) (zero_contents small) (4 ∷ 6 ∷ []))
      ≡ update_all (update toy) small (4 ∷ 6 ∷ []))
    × (merge small (update_all (update_cube toy) (zero_contents small) (4 ∷ 6 ∷ []))
        ≡ update_all (update_cube toy) small (4 ∷ 6 ∷ []))
merge-updates_example = merge-updates toy small small (4 ∷ 6 ∷ []) small-IsValid small-IsValid refl

range_merge_all_example : range_merge small small 0 small.num_samples ≡ merge small small
range_merge_all_example = range_merge_all small small small-IsValid

sample_one_example :
    sample toy (update_all (update toy) (zero_contents small) (4 ∷ 6 ∷ 4 ∷ []))
    ≡ returned
        (record { idx = 6; result = good })
        (record (update_all (update toy) (zero_contents small) (4 ∷ 6 ∷ 4 ∷ [])) { sample_idx = 1 })
unfolding small
sample_one_example =
    sample_one toy small (4 ∷ 6 ∷ 4 ∷ []) 6 small-IsValid (omega arith) (omega arith)
      (λ a. ground arith)

sample_none_example :
    sample toy (update_all (update toy) (zero_contents small) (4 ∷ 4 ∷ []))
    ≡ returned
        (record { idx = 0; result = all_zero })
        (record (zero_contents small) { sample_idx = 1 })
unfolding small
sample_none_example =
    sample_none toy small (4 ∷ 4 ∷ []) small-IsValid (omega arith) (λ a. ground arith)

sample_lem_example :
    (small.sample_idx < small.num_samples
      → (smp : SketchSample) × (sample toy small
          ≡ returned smp (record small { sample_idx = small.sample_idx + 1 }))
        × IsQuery toy small (small.sample_idx * small.cols_per_sample) smp)
    × (small.num_samples ≤ small.sample_idx → sample toy small ≡ out_of_samples)
sample_lem_example = sample_lem toy small

get_index_depth-ge_iff_example :
    (3 ≤ get_index_depth toy 8 0 4 → toy.col_hash 8 0 % 8 ≡ 0)
    × (toy.col_hash 8 0 % 8 ≡ 0 → 3 ≤ get_index_depth toy 8 0 4)
get_index_depth-ge_iff_example = get_index_depth-ge_iff toy 8 0 4 3 (omega arith) (omega arith)
