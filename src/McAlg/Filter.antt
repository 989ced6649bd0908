-- ===== src/McAlg/Filter.antt =====
-- src/mc_sketch_alg.cpp: filter_sf_edges and calc_disjoint_spanning_forests. The threads run whole,
-- one after another, as in CcAlg.Round. A read past an end of the edges is `none`.
pub mod Contents
pub mod Uniform
pub mod Restored
pub mod Single
use graph_zeppelin.Base.{
  ℕ, zero, suc, ◌+◌, ◌-◌, ◌*◌, ◌≤◌, ◌<◌, ◌≡◌, ◌≢◌, ◌⊎◌, ◌↔◌, inl, inr, refl, sym, ◌∙◌, ap, subst,
  arith, Bool, true, false, not, ◌&&◌, ◌||◌, List, [], ◌∷◌, ◌++◌, Option, none, some, map, lookup,
  length, ltb, leb, ◌==◌, ==_iff, if◌then◌else◌, Option-cases, Bool-cases, eq-cases, some_eq,
  get_or, set, contains, alter, replicate, dec_lt, dec_le, slice,
}
use mathlib.Core.Path.{ap₂, subst₂}
use graph_zeppelin.Bucket.{Hashes}
use graph_zeppelin.CcAlg.Round.{Partition, get_ith_partition}
use graph_zeppelin.CcAlg.Query.{Machine}
use graph_zeppelin.Dsu.{◌>>=◌}
use graph_zeppelin.McAlg.{McSketchAlg, update_sketch}
use graph_zeppelin.McAlg.Query.{Run, ran, threw, stuck, out_of_fuel, lift, calc_spanning_forest}
use graph_zeppelin.McAlg.Query
use graph_zeppelin.Pairing.{u32, Edge, concat_pairing_fn}
use graph_zeppelin.ReturnTypes.{SpanningForest, get_sorted_adjacency}
use graph_zeppelin.Sketch.{Sketch}

module _ (h : Hashes) (offset : ℕ) where
  -- The update of the sketch of the edge's source, in the graph that begins at `offset`.
  unfoldable pub filter_edge : Edge → List (Option Sketch) → Option (List (Option Sketch))
  filter_edge edge sketches =
      update_sketch h (u32 (offset + edge.src)) (concat_pairing_fn edge.src edge.dst) sketches

  -- while (edges[start].src == src): the next `start`, and the sketches. The fuel is the number
  -- of edges and one: the loop ends at the end of the edges at the latest, by a read past it.
  unfoldable pub filter_up :
      ℕ → List Edge → ℕ → ℕ → List (Option Sketch) → Option (ℕ × List (Option Sketch))
  unfolding filter_edge
  filter_up zero edges src start sketches = none
  filter_up (suc fuel) edges src start sketches =
      let again = λ (edge : Edge).
        (filter_edge edge sketches >>= λ sketches'.
        filter_up fuel edges src (start + 1) sketches') in
      lookup edges start >>= λ edge. if edge.src == src then again edge else some (start, sketches)

  -- while (edges[end - 1].src == src), with `end` as far down as 0, where edges[-1] is read.
  unfoldable pub filter_down :
      List Edge → ℕ → ℕ → List (Option Sketch) → Option (ℕ × List (Option Sketch))
  unfolding filter_edge
  filter_down edges src zero sketches = none
  filter_down edges src (suc i) sketches =
      let again = λ (edge : Edge).
        (filter_edge edge sketches >>= λ sketches'. filter_down edges src i sketches') in
      lookup edges i >>= λ edge. if edge.src == src then again edge else some (suc i, sketches)

  unfoldable pub filter_edges : List Edge → List (Option Sketch) → Option (List (Option Sketch))
  unfolding filter_edge
  filter_edges [] sketches = some sketches
  filter_edges (edge ∷ edges) sketches =
      filter_edge edge sketches >>= λ sketches'. filter_edges edges sketches'

  -- edges[i].src == edges[j].src.
  unfoldable pub same_source : List Edge → ℕ → ℕ → Option Bool
  same_source edges i j = lookup edges i >>= λ a. lookup edges j >>= λ b. some (a.src == b.src)

  -- The collision with the previous thread: the next `start`, and the sketches.
  unfoldable pub filter_left :
      List Edge → ℕ → List (Option Sketch) → Option (ℕ × List (Option Sketch))
  unfolding same_source filter_up
  filter_left edges start sketches =
      let shared = same_source edges start (start - 1) in
      (if ltb 0 start then shared else some false) >>= λ collides.
      let run =
        lookup edges start >>= λ edge. filter_up (length edges + 1) edges edge.src start sketches in
      if collides then run else some (start, sketches)

  -- The collision with the next thread: the next `end`, and the sketches.
  unfoldable pub filter_right :
      List Edge → ℕ → List (Option Sketch) → Option (ℕ × List (Option Sketch))
  unfolding same_source filter_down
  filter_right edges zero sketches = if ltb 0 (length edges) then none else some (0, sketches)
  filter_right edges (suc last) sketches =
      let shared = same_source edges last (suc last) in
      (if ltb (suc last) (length edges) then shared else some false) >>= λ collides.
      let run = lookup edges last >>= λ edge. filter_down edges edge.src (suc last) sketches in
      if collides then run else some (suc last, sketches)

  unfoldable pub filter_thread :
      Partition → ℕ → List Edge → ℕ → List (Option Sketch) → Option (List (Option Sketch))
  unfolding get_ith_partition filter_left filter_right filter_edges
  filter_thread p num_threads edges thr_id sketches =
      let (start, end) = get_ith_partition p (length edges) thr_id num_threads in
      filter_left edges start sketches >>= λ (start', sketches1).
      filter_right edges end sketches1 >>= λ (end', sketches2).
      filter_edges (slice start' (end' - start') edges) sketches2

  unfoldable pub filter_threads :
      Partition → ℕ → List Edge → List ℕ → List (Option Sketch) → Option (List (Option Sketch))
  unfolding filter_thread
  filter_threads p num_threads edges [] sketches = some sketches
  filter_threads p num_threads edges (thr_id ∷ schedule) sketches =
      filter_thread p num_threads edges thr_id sketches >>= λ sketches'.
      filter_threads p num_threads edges schedule sketches'

-- The order of the edges, and the threads of each parallel region over them.
module _ (m : Machine) (sort : List Edge → List Edge) (schedule : List ℕ) where
  unfoldable pub filter_sf_edges : SpanningForest → ℕ → McSketchAlg → Option McSketchAlg
  unfolding filter_threads
  filter_sf_edges sf graph_id a =
      filter_threads m.hashes (graph_id * a.num_vertices) m.partition m.num_threads
        (get_sorted_adjacency sort sf) schedule a.sketches
      >>= λ sketches.
          some (record a { sketches = sketches; dsu_valid = false; shared_dsu_valid = false })

  -- Finds `k` forests, each of which is deleted before the next is sought.
  unfoldable pub peel_forests : ℕ → ℕ → ℕ → McSketchAlg → Run (List SpanningForest × ℕ)
  unfolding filter_sf_edges
  peel_forests graph_id zero max_rounds a = ran ([], max_rounds) a
  peel_forests graph_id (suc k) max_rounds a =
      Query.◌>>=◌ (calc_spanning_forest m graph_id a) λ sf a1.
        Query.◌>>=◌ (lift a1 (filter_sf_edges sf graph_id a1)) λ _ a2.
          Query.◌>>=◌
            (peel_forests graph_id k
              (if ltb a1.last_query_rounds max_rounds then max_rounds else a1.last_query_rounds) a2)
            λ (sfs, rounds) a3. ran (sf ∷ sfs, rounds) a3

  unfoldable pub restore_forests : ℕ → List SpanningForest → McSketchAlg → Option McSketchAlg
  unfolding filter_sf_edges
  restore_forests graph_id [] a = some a
  restore_forests graph_id (sf ∷ sfs) a =
      filter_sf_edges sf graph_id a >>= λ a'. restore_forests graph_id sfs a'

  unfoldable pub calc_disjoint_spanning_forests : ℕ → ℕ → McSketchAlg → Run (List SpanningForest)
  unfolding peel_forests restore_forests
  calc_disjoint_spanning_forests graph_id k a =
      Query.◌>>=◌ (peel_forests graph_id k 0 a) λ (sfs, max_rounds) a1.
        Query.◌>>=◌ (lift a1 (restore_forests graph_id sfs a1))
          λ _ a2. ran sfs (record a2 { last_query_rounds = max_rounds })
