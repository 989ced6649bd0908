-- ===== src/CcAlg.antt =====
-- include/cc_sketch_alg.h and src/cc_sketch_alg.cpp: the updates of CCSketchAlg. A class that
-- indexes an array past its end is out of bounds, and a failed assertion of the set likewise.
-- `failures` counts the spurious failures of the atomic set in one call, as in Dsu.Atomic.
pub mod Batch
pub mod Forest
pub mod Eager
pub mod Stream
pub mod Supernode
pub mod Round
pub mod Instr
pub mod Query
pub mod Examples
use graph_zeppelin.Base.{
  ℕ, zero, suc, ◌+◌, Bool, true, false, List, [], ◌∷◌, Option, none, some, map, replicate, alter,
  lookup, set, contains, set_insert, get_or, if◌then◌else◌,
}
use graph_zeppelin.Bucket.{Bucket, Hashes}
use graph_zeppelin.Dsu.{Dsu, DsuMergeRet, new_dsu, ◌>>=◌}
use graph_zeppelin.Dsu.Atomic.{merge_mt}
use graph_zeppelin.Pairing.{Edge, lower, upper, concat_pairing_fn}
use graph_zeppelin.Sketch.{Sketch, zero_contents, merge_raw_bucket_buffer, new_sketch, update}
use graph_zeppelin.Sketch

pub record CcSketchAlg : Type 0 where
  pub num_vertices : ℕ
  pub seed : ℕ
  pub update_locked : Bool
  pub sketches : List Sketch
  pub dsu : Dsu
  pub dsu_valid : Bool
  pub shared_dsu_valid : Bool
  pub spanning_forest : List (List ℕ)
  pub delta_sketches : List Sketch
  pub last_query_rounds : ℕ

-- What an update of the algorithm does: it may throw UpdateLockedException.
pub data Outcome : Type 0 where
  applied : CcSketchAlg → Outcome
  update_locked_exception : Outcome
  out_of_bounds : Outcome

-- `blank` is the sketch that the constructor allocates for each vertex: its sizes are computed
-- in floating point.
unfoldable pub new_cc_sketch_alg : (ℕ → ℕ) → ℕ → Sketch → CcSketchAlg
new_cc_sketch_alg prio_gen num_vertices blank = record {
  num_vertices = num_vertices;
  seed = blank.seed;
  update_locked = false;
  sketches = replicate num_vertices blank;
  dsu = new_dsu prio_gen num_vertices;
  dsu_valid = true;
  shared_dsu_valid = true;
  spanning_forest = replicate num_vertices [];
  delta_sketches = [];
  last_query_rounds = 0;
}

unfoldable pub allocate_worker_memory : CcSketchAlg → Sketch → ℕ → CcSketchAlg
allocate_worker_memory a blank num_workers = record a {
  delta_sketches = replicate num_workers blank;
}

-- spanning_forest[src].find(dst) != end().
abbrev pub in_forest : List (List ℕ) → ℕ → ℕ → Bool
in_forest forest src dst = contains dst (get_or forest src [])

-- spanning_forest[src].insert(dst).
abbrev pub plant : List (List ℕ) → ℕ → ℕ → List (List ℕ)
plant forest src dst = set forest src (set_insert dst (get_or forest src []))

-- The eager set after it has merged the ends `src` and `dst` of an update.
unfoldable pub eager : CcSketchAlg → ℕ → ℕ → Dsu × DsuMergeRet → CcSketchAlg
eager a src dst (d, m_ret) =
    let kept = record a { dsu = d } in
    if m_ret.merged
    then record kept { spanning_forest = plant a.spanning_forest src dst }
    else if in_forest a.spanning_forest src dst
    then record kept { dsu_valid = false; shared_dsu_valid = false }
    else kept

-- The build that keeps the set up to date. The type of the update is not read.
unfoldable pub pre_insert : ℕ → CcSketchAlg → Edge → Option CcSketchAlg
unfolding eager
pre_insert failures a edge =
    let src = lower edge.src edge.dst in
    let dst = upper edge.src edge.dst in
    let merged = merge_mt failures a.dsu src dst in
    if a.dsu_valid then (do out ← merged; some (eager a src dst out)) else some a

-- The build with NO_EAGER_DSU.
unfoldable pub pre_insert_lazy : CcSketchAlg → Edge → CcSketchAlg
pre_insert_lazy a edge =
    if a.dsu_valid then record a { dsu_valid = false; shared_dsu_valid = false } else a

-- The loop of `apply_update_batch` over the destinations.
unfoldable pub update_dsts : Hashes → Sketch → ℕ → List ℕ → Sketch
update_dsts h delta src_vertex [] = delta
update_dsts h delta src_vertex (dst ∷ dsts) =
    update_dsts h (update h delta (concat_pairing_fn src_vertex dst)) src_vertex dsts

-- `apply_update_batch` past its guard, with the worker's sketch and that of the vertex.
unfoldable pub merge_batch :
    Hashes → CcSketchAlg → ℕ → ℕ → List ℕ → Option Sketch → Option Sketch → Outcome
merge_batch h a thr_id src_vertex dsts (some delta) (some skt) =
    let delta' = update_dsts h (zero_contents delta) src_vertex dsts in
    applied (record a {
      delta_sketches = set a.delta_sketches thr_id delta';
      sketches = set a.sketches src_vertex (Sketch.merge skt delta');
    })
merge_batch h a thr_id src_vertex dsts (some delta) none = out_of_bounds
merge_batch h a thr_id src_vertex dsts none skt = out_of_bounds

unfoldable pub apply_update_batch : Hashes → CcSketchAlg → ℕ → ℕ → List ℕ → Outcome
unfolding merge_batch
apply_update_batch h a thr_id src_vertex dsts =
    if a.update_locked
    then update_locked_exception
    else merge_batch h a thr_id src_vertex dsts (lookup a.delta_sketches thr_id)
        (lookup a.sketches src_vertex)

unfoldable pub apply_raw_buckets_update : CcSketchAlg → ℕ → List Bucket → CcSketchAlg
apply_raw_buckets_update a src_vertex raw_buckets = record a {
  sketches = alter a.sketches src_vertex (λ s. merge_raw_bucket_buffer s raw_buckets);
}

-- The direct update of both ends.
unfoldable pub update_edge : Hashes → ℕ → CcSketchAlg → Edge → Option CcSketchAlg
update_edge h failures a edge =
    let idx = concat_pairing_fn edge.src edge.dst in
    let update_one = λ (s : Sketch). update h s idx in
    pre_insert failures a edge >>= λ a'.
    some
      (record a' { sketches = alter (alter a'.sketches edge.src update_one) edge.dst update_one })

-- The query codes that the driver passes.
pub data QueryCode : Type 0 where
  connectivity kspanningforests : QueryCode

unfoldable pub has_cached_query : CcSketchAlg → QueryCode → Bool
has_cached_query a connectivity = a.shared_dsu_valid
has_cached_query a kspanningforests = false
