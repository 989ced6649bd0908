-- ===== src/CcAlg/Examples.antt =====
-- Tests of an algorithm of four vertices, with toy hashes and equal priorities.
use graph_zeppelin.Base.{
  ℕ, ◌+◌, ◌*◌, ◌<◌, ◌≡◌, ◌⊎◌, ◌↔◌, refl, arith, Bool, true, false, List, [], ◌∷◌, Option, some, set,
  alter,
}
use graph_zeppelin.Bucket.{Hashes}
use graph_zeppelin.CcAlg.{
  CcSketchAlg, applied, new_cc_sketch_alg, allocate_worker_memory, pre_insert, eager,
  apply_update_batch, connectivity, has_cached_query,
}
use graph_zeppelin.CcAlg.Batch.{apply_update_batch-updates, batch_indices, new_cc-AreSketches}
use graph_zeppelin.CcAlg.Forest.{Linked, graph_after, no_edges}
use graph_zeppelin.CcAlg.Stream.{pre_insert_all, pre_insert_all-Linked, new_cc-IsEagerAlg}
use graph_zeppelin.CcAlg.Supernode.{
  IsSpanning, IsEager-IsSpanning, IsSupernode, supernode_sampled, sample_supernode,
  sample_supernode-IsSupernode,
}
use graph_zeppelin.Pairing.{inv_concat_pairing_fn, Edge}
use graph_zeppelin.Sketch.Recovery.{sample_one}
use graph_zeppelin.Sketch.Sample.{SketchSample, good, sample, returned}
use graph_zeppelin.Sketch.{zero_contents, Sketch, new_sketch, calc_bkt_per_col, update}
use graph_zeppelin.Dsu.{new_dsu, find_root, find_loop, order_edge, link, ◌>>=◌}
use graph_zeppelin.Dsu.Atomic.{merge_mt}
use graph_zeppelin.Dsu.Merge.{SameSet}
use graph_zeppelin.Sketch.Batch.{update_all}
use graph_zeppelin.Sketch.Linear.{shape}
use graph_zeppelin.Sketch.Valid.{IsValid, new_sketch-IsValid}

abbrev toy : Hashes
toy = record { vec_hash = λ x s. x * 7 + s + 1; col_hash = λ x s. x * 3 + s }

blank : Sketch
unfolding new_sketch calc_bkt_per_col
blank = new_sketch (λ n. 3) 8 11 2 1

blank-IsValid : IsValid blank
unfolding blank
blank-IsValid = new_sketch-IsValid (λ n. 3) 8 11 2 1

fresh : CcSketchAlg
unfolding new_cc_sketch_alg new_dsu
fresh = new_cc_sketch_alg (λ i. 7) 4 blank

with_workers : CcSketchAlg
unfolding fresh allocate_worker_memory
with_workers = allocate_worker_memory fresh blank 2

abbrev edge_between : ℕ → ℕ → Edge
edge_between s t = record { src = s; dst = t }

-- A path of two edges, and a third edge that closes the triangle and is deleted again.
abbrev triangle : List Edge
triangle = edge_between 1 0 ∷ edge_between 1 2 ∷ edge_between 2 0 ∷ edge_between 0 2 ∷ []

abbrev cached_after : List Edge → Option Bool
cached_after es = pre_insert_all (λ k. 1) fresh es >>= λ a. some (has_cached_query a connectivity)

triangle_stays_cached : cached_after triangle ≡ some true
unfolding fresh pre_insert eager merge_mt find_root find_loop order_edge link has_cached_query
triangle_stays_cached = refl

-- Deleting an edge of the forest drops the cached answer.
forest_edge_drops : cached_after (edge_between 1 2 ∷ edge_between 2 1 ∷ []) ≡ some false
unfolding fresh pre_insert eager merge_mt find_root find_loop order_edge link has_cached_query
forest_edge_drops = refl

pre_insert_all-Linked_example :
    (a : CcSketchAlg) × (pre_insert_all (λ k. 1) fresh triangle ≡ some a)
    × ((has_cached_query a connectivity ≡ false)
        ⊎ ((x y : ℕ)
            → x < 4
            → y < 4
            → SameSet a.dsu x y ↔ Linked (graph_after no_edges triangle) x y))
unfolding fresh
pre_insert_all-Linked_example =
    pre_insert_all-Linked (λ k. 1) (λ i. 7) 4 blank triangle (omega arith)

apply_update_batch-updates_example :
    (delta : Sketch) × (apply_update_batch toy with_workers 1 2 (0 ∷ 3 ∷ [])
      ≡ applied (record with_workers {
        delta_sketches = set with_workers.delta_sketches 1 delta;
        sketches =
            alter with_workers.sketches 2
              (λ s. update_all (update toy) s (batch_indices 2 (0 ∷ 3 ∷ [])));
      }))
unfolding with_workers fresh allocate_worker_memory new_cc_sketch_alg
apply_update_batch-updates_example =
    apply_update_batch-updates toy with_workers (shape blank) 1 2 (0 ∷ 3 ∷ [])
      (new_cc-AreSketches (λ i. 7) 4 2 blank blank-IsValid) refl (omega arith) (omega arith)

fresh-IsSpanning : IsSpanning 4 fresh
unfolding fresh
fresh-IsSpanning =
    IsEager-IsSpanning 4 no_edges fresh ((new_cc-IsEagerAlg (λ i. 7) 4 blank).eager refl)

-- The sketch of one edge, between 1 and 2.
supernode : Sketch
supernode = update_all (update toy) (zero_contents blank) (0x1_0000_0002 ∷ [])

abbrev edge_sample : SketchSample
edge_sample = record { idx = 0x1_0000_0002; result = good }

sample_runs : sample toy supernode ≡ returned edge_sample (record supernode { sample_idx = 1 })
unfolding supernode blank
sample_runs =
    sample_one toy blank (0x1_0000_0002 ∷ []) 0x1_0000_0002 blank-IsValid (omega arith)
      (omega arith) (λ a. ground arith)

sample_supernode-IsSupernode_example :
    (modified : Bool) × (a' : CcSketchAlg) × (sample_supernode toy 1 fresh supernode
      ≡ supernode_sampled modified a' (record supernode { sample_idx = 1 }))
    × IsSupernode 4 fresh edge_sample modified a'
unfolding inv_concat_pairing_fn
sample_supernode-IsSupernode_example =
    sample_supernode-IsSupernode toy 1 4 fresh supernode (record supernode { sample_idx = 1 })
      edge_sample fresh-IsSpanning sample_runs (omega arith) (omega arith)
