-- ===== src/McAlg/Examples.antt =====
-- MCSketchAlg (src/mc_sketch_alg.cpp) on small inputs.
use graph_zeppelin.Base.{
  ℕ, ◌+◌, ◌*◌, ◌<◌, ◌≡◌, refl, arith, not, ◌&&◌, List, [], ◌∷◌, Option, none, some, ◌==◌,
  if◌then◌else◌, set, contains, replicate, ◌/◌,
}
use graph_zeppelin.Bucket.{Hashes, get_index_depth, is_good, get_index_hash}
use graph_zeppelin.Bucket
use graph_zeppelin.CcAlg.Instr
use graph_zeppelin.Sketch.{
  checksum_seed, update_columns, column_seed, calc_bkt_per_col, update_at, range_merge,
  zero_contents, zero_loop, merge_loop, Sketch, new_sketch, update,
}
use graph_zeppelin.Dsu.{new_dsu, link, order_edge, find_root, find_loop, reset}
use graph_zeppelin.CcAlg.Round.{
  thread_loop, round_zero_loop, try_sample, run_threads, run_thread, clear_global, new_global,
}
use graph_zeppelin.McAlg.{
  pre_insert, update_sketch, McSketchAlg, new_mc_sketch_alg, create_sketch_graph,
  allocate_worker_memory, sketch_at, place, applied, apply_update_batch,
  apply_update_batch_single_graph, update_locked_exception, update_subgraph,
}
use graph_zeppelin.McAlg.Round.{read_graph, perform_k_boruvka_round, create_merge_instructions}
use graph_zeppelin.McAlg.Query.{k_boruvka_emulation, ran, calc_spanning_forest}
use graph_zeppelin.CcAlg.Query.{first_instrs, Machine}
use graph_zeppelin.CcAlg.Supernode.{sample_supernode}
use graph_zeppelin.Sketch.Sample.{sample, query}
use graph_zeppelin.Dsu.Atomic.{merge_mt}
use graph_zeppelin.Pairing.{concat_pairing_fn, inv_concat_pairing_fn, Edge}
use graph_zeppelin.ReturnTypes.{new_spanning_forest, get_sorted_adjacency, SpanningForest}
use graph_zeppelin.CcAlg.Batch.{batch_indices}
use graph_zeppelin.McAlg.Batch.{single_graph-sketch_at}
use graph_zeppelin.McAlg.Created.{Created, create_sketch_graph-sketch_at}
use graph_zeppelin.McAlg.Cut.{Cut, calc_minimum_cut}
use graph_zeppelin.McAlg.Cut.Sides.{crossing, calc_minimum_cut-crossing}
use graph_zeppelin.McAlg.Exhausted.{calc_spanning_forest-AreSpent}
use graph_zeppelin.McAlg.Filter.{filter_sf_edges, calc_disjoint_spanning_forests}
use graph_zeppelin.Sketch.Batch.{update_all}
use graph_zeppelin.Sketch.Linear.{shape}
use graph_zeppelin.Sketch.Valid.{IsValid, new_sketch-IsValid, update-IsValid}

blank : Sketch
unfolding new_sketch
blank = new_sketch (λ n. 3) 8 11 3 1

hashes : Hashes
hashes = record { vec_hash = λ x s. x * 7 + s + 1; col_hash = λ x s. x * 3 + s }

one_thread : Machine
unfolding blank hashes
one_thread = record {
  hashes = hashes;
  failures = λ r k. 0;
  partition = record {
    first_of = λ len i parts. i * len / parts;
    part_of = λ len idx parts. idx * parts / len;
  };
  num_threads = 1;
  schedule = λ r. 0 ∷ [];
  order = 0 ∷ 1 ∷ [];
  blank = blank;
}

edge : ℕ → ℕ → Edge
edge u v = record { src = u; dst = v }

-- Two vertices, and one graph of two that may be created.
empty_graph : McSketchAlg
unfolding new_mc_sketch_alg create_sketch_graph allocate_worker_memory blank
empty_graph =
    allocate_worker_memory (create_sketch_graph (new_mc_sketch_alg (λ i. 7) 2 blank 2) blank 0)
      blank 1

-- With the edge between the two.
one_edge : Sketch
unfolding hashes blank
one_edge = update hashes blank 1

two : McSketchAlg
unfolding empty_graph
two = record empty_graph { sketches = some one_edge ∷ some one_edge ∷ none ∷ none ∷ [] }

two_built : update_subgraph hashes 0 empty_graph 0 (edge 0 1) ≡ some two
unfolding two update_subgraph empty_graph one_edge edge hashes pre_insert concat_pairing_fn
two_built = refl

one_edge-IsValid : IsValid one_edge
unfolding one_edge blank
one_edge-IsValid = update-IsValid hashes blank 1 (new_sketch-IsValid (λ n. 3) 8 11 3 1)

-- The query returns: the edge, and a forest without edges.
forests_found :
    (a : McSketchAlg) × (calc_disjoint_spanning_forests one_thread (λ es. es) (0 ∷ []) 0 2 two
      ≡ ran
          (record { num_vertices = 2; edges = edge 0 1 ∷ [] }
            ∷ record { num_vertices = 2; edges = [] }
            ∷ [])
          a)
unfolding two calc_disjoint_spanning_forests one_thread edge one_edge empty_graph
    calc_spanning_forest k_boruvka_emulation perform_k_boruvka_round round_zero_loop try_sample
    sample_supernode sample update query update_columns get_index_depth column_seed calc_bkt_per_col
    update_at Bucket.update is_good get_index_hash create_merge_instructions merge_mt find_root
    find_loop inv_concat_pairing_fn run_threads new_spanning_forest get_sorted_adjacency
    concat_pairing_fn filter_sf_edges reset clear_global new_global first_instrs range_merge
    run_thread update_sketch zero_contents zero_loop merge_loop checksum_seed new_dsu link
    order_edge Instr.create_merge_instructions thread_loop
forests_found = (_, refl)

-- A batch for vertex 1.
single_graph-sketch_at_example :
    (delta' : Sketch) × (sketches : List (Option Sketch)) × (apply_update_batch_single_graph hashes
        two 0 0 1
        (0 ∷ [])
      ≡ applied
          (record two { delta_sketches = set two.delta_sketches 0 delta'; sketches = sketches }))
    × ((g j : ℕ)
        → g < 2
        → j < 2
        → sketch_at sketches (place two g j) ≡ (
            if g == 0 && j == 1
            then some (update_all (update hashes) one_edge (batch_indices 1 (0 ∷ [])))
            else sketch_at two.sketches (place two g j)))
unfolding two empty_graph sketch_at one_edge blank update calc_bkt_per_col
single_graph-sketch_at_example =
    single_graph-sketch_at hashes two (shape blank) 0 0 1 (0 ∷ []) blank one_edge refl refl
      (new_sketch-IsValid (λ n. 3) 8 11 3 1, refl) (omega arith) (omega arith) (omega arith) refl
      (one_edge-IsValid, refl)

-- Both sketches have used up their three samples.
spent : Sketch
unfolding blank
spent = record blank { sample_idx = 3 }

used_up : McSketchAlg
unfolding empty_graph
used_up = record empty_graph { sketches = some spent ∷ some spent ∷ none ∷ none ∷ [] }

calc_spanning_forest-AreSpent_example :
    (a' : McSketchAlg) × (calc_spanning_forest one_thread 0 used_up
      ≡ ran (record { num_vertices = 2; edges = [] }) a')
    × ((h : Hashes) (thr_id src_vertex : ℕ) (dsts : List ℕ)
        → apply_update_batch h a' thr_id src_vertex dsts ≡ update_locked_exception)
    × ((h : Hashes) (thr_id graph src_vertex : ℕ) (dsts : List ℕ)
        → apply_update_batch_single_graph h a' thr_id graph src_vertex dsts
          ≡ update_locked_exception)
unfolding one_thread used_up empty_graph spent read_graph
calc_spanning_forest-AreSpent_example =
    calc_spanning_forest-AreSpent one_thread used_up 0 0 (1 ∷ []) (spent ∷ spent ∷ []) refl refl
      ((spent, refl, omega arith), ((spent, refl, omega arith), tt))

-- A triangle with a cut that has one vertex alone.
triangle : List Edge
unfolding edge
triangle = edge 0 1 ∷ edge 1 2 ∷ edge 0 2 ∷ []

alone : ℕ → List Edge → Cut
alone n es = record { weight = 2; node_in_cut = λ v. v == 1 }

calc_minimum_cut-crossing_example :
    ((v : ℕ)
      → v < 3
      → contains v (calc_minimum_cut alone 3 triangle).left_vertices
        ≡ not (contains v (calc_minimum_cut alone 3 triangle).right_vertices))
    × ((calc_minimum_cut alone 3 triangle).value
        ≡ crossing
            (calc_minimum_cut alone 3 triangle).left_vertices
            (calc_minimum_cut alone 3 triangle).right_vertices
            triangle)
unfolding triangle alone edge
calc_minimum_cut-crossing_example = calc_minimum_cut-crossing alone 3 triangle (omega arith) refl

-- Three threads on a star: a thread whose edges all have the source of its neighbours' edges reads
-- past an end of the edges.
star : SpanningForest
unfolding edge
star = record { num_vertices = 4; edges = edge 0 1 ∷ edge 0 2 ∷ edge 0 3 ∷ [] }

three_threads : Machine
unfolding one_thread
three_threads = record one_thread { num_threads = 3 }

star_reads_outside :
    filter_sf_edges three_threads
      (λ es. es)
      (0 ∷ 1 ∷ 2 ∷ [])
      star
      0
      (record two { num_vertices = 4; sketches = replicate 4 (some one_edge) })
    ≡ none
unfolding filter_sf_edges three_threads one_thread star two edge get_sorted_adjacency update_sketch
star_reads_outside = refl

one_edge_forest : SpanningForest
unfolding edge
one_edge_forest = record { num_vertices = 2; edges = edge 0 1 ∷ [] }

create_sketch_graph-sketch_at_example : Created two blank 1 (create_sketch_graph two blank 1)
unfolding two empty_graph new_mc_sketch_alg create_sketch_graph allocate_worker_memory blank
create_sketch_graph-sketch_at_example = create_sketch_graph-sketch_at two blank 1 refl (omega arith)
