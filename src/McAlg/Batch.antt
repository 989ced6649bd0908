-- ===== src/McAlg/Batch.antt =====
-- src/mc_sketch_alg.cpp: the batches of the worker threads for one sketch graph.
use graph_zeppelin.Base.{
  ℕ, ◌+◌, ◌*◌, ◌<◌, ◌≡◌, sym, ◌∙◌, ap, arith, false, ◌&&◌, List, Option, some, lookup, ◌==◌,
  if◌then◌else◌, set, if_elim, ◌^◌,
}
use mathlib.Core.Path.{ap₂}
use graph_zeppelin.Bucket.{Hashes}
use graph_zeppelin.CcAlg.{update_dsts}
use graph_zeppelin.CcAlg.Batch.{HasShape, batch_indices, merged_batch}
use graph_zeppelin.McAlg.{
  McSketchAlg, applied, sketch_at, place, merge_batch, apply_update_batch_single_graph,
}
use graph_zeppelin.McAlg.Places.{place_small, place_injective, sketch_at-set_self, sketch_at-set_ne}
use graph_zeppelin.Pairing.{u32}
use graph_zeppelin.Sketch.{Sketch, update, zero_contents}
use graph_zeppelin.Sketch.Batch.{update_all}
use graph_zeppelin.Sketch.Linear.{Shape}

-- The sketch of each vertex of each graph after a sketch of one graph is replaced.
set_place :
    (a : McSketchAlg) (g src g' j : ℕ) (skt skt' : Sketch)
    → a.num_vertices * a.max_sketch_graphs < 2 ^ 32
    → g < a.max_sketch_graphs
    → g' < a.max_sketch_graphs
    → src < a.num_vertices
    → j < a.num_vertices
    → sketch_at a.sketches (place a g src) ≡ some skt
    → sketch_at (set a.sketches (place a g src) (some skt')) (place a g' j)
      ≡ (if g' == g && j == src then some skt' else sketch_at a.sketches (place a g' j))
set_place a g src g' j skt skt' small lg lg' ls lj e =
    if_elim (λ r. sketch_at (set a.sketches (place a g src) (some skt')) (place a g' j) ≡ r)
      (g' == g && j == src) _ _
      (λ t.
        let both : (g' ≡ g) × (j ≡ src) = ground (arith, t) in
        ap (sketch_at (set a.sketches (place a g src) (some skt')))
          (ap₂ (λ k i. u32 (k * a.num_vertices + i)) both.0 both.1)
        ∙ sketch_at-set_self a.sketches (place a g src) skt skt' e)
      (λ f. sketch_at-set_ne a.sketches (place a g src) (place a g' j) (some skt') (λ p.
        let p' =
          sym (place_small a.num_vertices a.max_sketch_graphs g src small lg ls)
          ∙ p
          ∙ place_small a.num_vertices a.max_sketch_graphs g' j small lg' lj in
        let (q, r) = place_injective a.num_vertices g g' src j ls lj p' in ground (arith, f, q, r)))

-- Let the vertices times the graphs that there may be stay below 2 ^ 32. While no query runs, a
-- worker with a delta sketch that takes a batch of edges from a vertex for one of the graphs
-- succeeds, if the sketch of the vertex is allocated there and has the shape of the delta sketch. It leaves that sketch as the updates of the batch, one by one, would have left it,
-- and changes no other sketch of that graph or of another; beside the sketches it changes only its
-- own delta sketch.
pub single_graph-sketch_at :
    (h : Hashes) (a : McSketchAlg) (p : Shape) (thr_id graph_id src_vertex : ℕ) (dsts : List ℕ)
    (delta skt : Sketch)
    → a.update_locked ≡ false
    → lookup a.delta_sketches thr_id ≡ some delta
    → HasShape p delta
    → a.num_vertices * a.max_sketch_graphs < 2 ^ 32
    → graph_id < a.max_sketch_graphs
    → src_vertex < a.num_vertices
    → sketch_at a.sketches (place a graph_id src_vertex) ≡ some skt
    → HasShape p skt
    → (delta' : Sketch) × (sketches : List (Option Sketch)) × (apply_update_batch_single_graph h a
          thr_id graph_id src_vertex dsts
        ≡ applied
            (record a { delta_sketches = set a.delta_sketches thr_id delta'; sketches = sketches }))
      × ((g j : ℕ)
          → g < a.max_sketch_graphs
          → j < a.num_vertices
          → sketch_at sketches (place a g j) ≡ (
              if g == graph_id && j == src_vertex
              then some (update_all (update h) skt (batch_indices src_vertex dsts))
              else sketch_at a.sketches (place a g j)))
unfolding apply_update_batch_single_graph merge_batch
single_graph-sketch_at h a p thr_id graph_id src_vertex dsts delta skt free e s small lg ls e' s' =
    let delta' = update_dsts h (zero_contents delta) src_vertex dsts in
    let i = place a graph_id src_vertex in
    let after = update_all (update h) skt (batch_indices src_vertex dsts) in
    let put =
      ap (λ t. set a.sketches i (some t)) (merged_batch h skt delta src_vertex dsts p s' s) in
    (
      delta',
      set a.sketches i (some after),
      rw (free, e, e', put),
      λ g j lg' lj. set_place a graph_id src_vertex g j skt after small lg lg' ls lj e',
    )
