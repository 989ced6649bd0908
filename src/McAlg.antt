-- ===== src/McAlg.antt =====
-- include/mc_sketch_alg.h and src/mc_sketch_alg.cpp: the state of MCSketchAlg and its updates. It
-- keeps several sketch graphs over the same vertices: sketch `graph_id * num_vertices + i` is that
-- of vertex `i` in a graph, where the code computes the index in 32 bits. A sketch that is not allocated yet is `none`. The query code and the
-- results are of this class; the sketches and the set are shared with CCSketchAlg.
-- `failures` counts the spurious failures of the atomic set in one call, as in Dsu.Atomic.
pub mod Round
pub mod Query
pub mod Filter
pub mod Cut
pub mod Places
pub mod Batch
pub mod Created
pub mod Exhausted
pub mod Keep
pub mod Ends
pub mod Examples
use graph_zeppelin.Base.{
  ℕ, zero, suc, ◌+◌, ◌-◌, ◌*◌, ◌≤◌, ◌<◌, ◌≡◌, ◌≢◌, ◌⊎◌, ◌↔◌, inl, inr, refl, sym, ◌∙◌, ap, subst,
  arith, Bool, true, false, not, ◌&&◌, ◌||◌, List, [], ◌∷◌, ◌++◌, Option, none, some, map, lookup,
  length, ltb, leb, ◌==◌, ==_iff, if◌then◌else◌, Option-cases, Bool-cases, eq-cases, some_eq,
  get_or, set, contains, alter, replicate, dec_lt, dec_le,
}
use mathlib.Core.Path.{ap₂, subst₂}
use graph_zeppelin.Bucket.{Bucket, Hashes}
use graph_zeppelin.Dsu.{Dsu, DsuMergeRet, new_dsu, ◌>>=◌}
use graph_zeppelin.Dsu.Atomic.{merge_mt}
use graph_zeppelin.Pairing.{u32, Edge, lower, upper, concat_pairing_fn}
use graph_zeppelin.Sketch.{Sketch, zero_contents, merge_raw_bucket_buffer, update}
use graph_zeppelin.Sketch
use graph_zeppelin.CcAlg.{in_forest, plant, update_dsts}

pub data QueryCode : Type 0 where
  connectivity kspanningforests minimumcut : QueryCode

pub record McSketchAlg : Type 0 where
  pub max_sketch_graphs : ℕ
  pub num_sketch_graphs : ℕ
  pub num_vertices : ℕ
  pub seed : ℕ
  pub update_locked : Bool
  pub sketches : List (Option Sketch)
  pub dsu : Dsu
  pub dsu_valid : Bool
  pub shared_dsu_valid : Bool
  pub spanning_forest : List (List ℕ)
  pub delta_sketches : List Sketch
  pub last_query_rounds : ℕ

-- What an update does: it may throw UpdateLockedException, or read a sketch that is not there.
pub data Outcome : Type 0 where
  applied : McSketchAlg → Outcome
  update_locked_exception : Outcome
  out_of_bounds : Outcome

-- The constructor allocates one sketch, `blank`, as a sample for the driver.
unfoldable pub new_mc_sketch_alg : (ℕ → ℕ) → ℕ → Sketch → ℕ → McSketchAlg
new_mc_sketch_alg prio_gen num_vertices blank max_sketch_graphs = record {
  max_sketch_graphs = max_sketch_graphs;
  num_sketch_graphs = 0;
  num_vertices = num_vertices;
  seed = blank.seed;
  update_locked = false;
  sketches = set (replicate (u32 (num_vertices * max_sketch_graphs)) none) 0 (some blank);
  dsu = new_dsu prio_gen num_vertices;
  dsu_valid = false;
  shared_dsu_valid = false;
  spanning_forest = replicate num_vertices [];
  delta_sketches = [];
  last_query_rounds = 0;
}

-- The index of the sketch of a vertex in a graph, in 32 bits.
abbrev pub place : McSketchAlg → ℕ → ℕ → ℕ
place a graph_id i = u32 (graph_id * a.num_vertices + i)

-- The loop that allocates the sketches of a graph, from index `i` with `left` to go.
unfoldable pub allocate_loop : ℕ → ℕ → Sketch → List (Option Sketch) → List (Option Sketch)
allocate_loop zero i blank sketches = sketches
allocate_loop (suc left) i blank sketches =
    allocate_loop left (i + 1) blank (set sketches (u32 i) (some blank))

-- Without the CUDA buckets. A negative id is none of the graphs, and is refused as the others.
unfoldable pub create_sketch_graph : McSketchAlg → Sketch → ℕ → McSketchAlg
unfolding allocate_loop
create_sketch_graph a blank graph_id =
    if leb a.max_sketch_graphs graph_id || not (graph_id == a.num_sketch_graphs)
    then a
    else record a {
      sketches = allocate_loop a.num_vertices (graph_id * a.num_vertices) blank a.sketches;
      num_sketch_graphs = a.num_sketch_graphs + 1;
    }

unfoldable pub allocate_worker_memory : McSketchAlg → Sketch → ℕ → McSketchAlg
allocate_worker_memory a blank num_workers = record a {
  delta_sketches = replicate num_workers blank;
}

-- The eager set after it has merged the ends `src` and `dst` of an update.
unfoldable pub eager : McSketchAlg → ℕ → ℕ → Dsu × DsuMergeRet → McSketchAlg
eager a src dst (d, m_ret) =
    let kept = record a { dsu = d } in
    if m_ret.merged
    then record kept { spanning_forest = plant a.spanning_forest src dst }
    else if in_forest a.spanning_forest src dst
    then record kept { dsu_valid = false; shared_dsu_valid = false }
    else kept

-- The build that keeps the set up to date. The type of the update is not read.
unfoldable pub pre_insert : ℕ → McSketchAlg → Edge → Option McSketchAlg
unfolding eager
pre_insert failures a edge =
    let src = lower edge.src edge.dst in
    let dst = upper edge.src edge.dst in
    let merged = merge_mt failures a.dsu src dst in
    if a.dsu_valid then (do out ← merged; some (eager a src dst out)) else some a

-- The build with NO_EAGER_DSU.
unfoldable pub pre_insert_lazy : McSketchAlg → Edge → McSketchAlg
pre_insert_lazy a edge =
    if a.dsu_valid then record a { dsu_valid = false; shared_dsu_valid = false } else a

-- sketches[i], unless it is outside the array or not allocated.
unfoldable pub sketch_at : List (Option Sketch) → ℕ → Option Sketch
sketch_at sketches i = lookup sketches i >>= λ skt. skt

-- A batch past its guard, with the worker's sketch and that at index `i`.
unfoldable pub merge_batch :
    Hashes → McSketchAlg → ℕ → ℕ → ℕ → List ℕ → Option Sketch → Option Sketch → Outcome
merge_batch h a thr_id i src_vertex dsts (some delta) (some skt) =
    let delta' = update_dsts h (zero_contents delta) src_vertex dsts in
    applied (record a {
      delta_sketches = set a.delta_sketches thr_id delta';
      sketches = set a.sketches i (some (Sketch.merge skt delta'));
    })
merge_batch h a thr_id i src_vertex dsts (some delta) none = out_of_bounds
merge_batch h a thr_id i src_vertex dsts none skt = out_of_bounds

unfoldable pub apply_update_batch_single_graph : Hashes → McSketchAlg → ℕ → ℕ → ℕ → List ℕ → Outcome
unfolding merge_batch sketch_at
apply_update_batch_single_graph h a thr_id graph_id src_vertex dsts =
    if a.update_locked
    then update_locked_exception
    else merge_batch h a thr_id (place a graph_id src_vertex) src_vertex dsts
        (lookup a.delta_sketches thr_id) (sketch_at a.sketches (place a graph_id src_vertex))

unfoldable pub apply_update_batch : Hashes → McSketchAlg → ℕ → ℕ → List ℕ → Outcome
unfolding merge_batch sketch_at
apply_update_batch h a thr_id src_vertex dsts =
    if a.update_locked
    then update_locked_exception
    else merge_batch h a thr_id src_vertex src_vertex dsts (lookup a.delta_sketches thr_id)
        (sketch_at a.sketches src_vertex)

unfoldable pub apply_raw_buckets_update : McSketchAlg → ℕ → List Bucket → Option McSketchAlg
unfolding sketch_at
apply_raw_buckets_update a src_vertex raw_buckets = sketch_at a.sketches src_vertex >>= λ skt.
    some (record a {
      sketches = set a.sketches src_vertex (some (merge_raw_bucket_buffer skt raw_buckets));
    })

-- sketches[i]->update(idx).
unfoldable pub update_sketch : Hashes → ℕ → ℕ → List (Option Sketch) → Option (List (Option Sketch))
unfolding sketch_at
update_sketch h i idx sketches =
    sketch_at sketches i >>= λ skt. some (set sketches i (some (update h skt idx)))

-- The direct update of both ends.
unfoldable pub update_subgraph : Hashes → ℕ → McSketchAlg → ℕ → Edge → Option McSketchAlg
unfolding update_sketch
update_subgraph h failures a graph_id edge =
    let idx = concat_pairing_fn edge.src edge.dst in
    pre_insert failures a edge >>= λ a'.
    update_sketch h (place a' graph_id edge.src) idx a'.sketches >>= λ sketches.
    update_sketch h (place a' graph_id edge.dst) idx sketches >>= λ sketches'.
    some (record a' { sketches = sketches' })

unfoldable pub has_cached_query : McSketchAlg → QueryCode → Bool
has_cached_query a connectivity = a.shared_dsu_valid
has_cached_query a kspanningforests = false
has_cached_query a minimumcut = false
