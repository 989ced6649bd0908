-- ===== src/Driver.antt =====
-- include/graph_sketch_driver.h: the driver over CCSketchAlg, without its verifier. The guttering
-- system and the stream are outside of the repository: the first is an interface here, the second
-- the list of its updates. The threads of the stream and the workers take turns in any order, one
-- step for each update of the stream and for each batch that a worker applies.
pub mod Parity
pub mod Kept
pub mod Applied
pub mod Worked
pub mod Cached
pub mod Delivered
pub mod Examples
use graph_zeppelin.Base.{
  ℕ, zero, suc, ◌+◌, ◌-◌, ◌*◌, ◌≤◌, ◌<◌, ◌≡◌, ◌≢◌, ◌⊎◌, ◌↔◌, inl, inr, refl, sym, ◌∙◌, ap, subst,
  arith, Bool, true, false, not, ◌&&◌, ◌||◌, List, [], ◌∷◌, ◌++◌, Option, none, some, map, lookup,
  length, ltb, leb, ◌==◌, ==_iff, if◌then◌else◌, Option-cases, Bool-cases, eq-cases, some_eq,
  get_or, set, contains, alter, replicate, dec_lt, dec_le,
}
use mathlib.Core.Path.{ap₂, subst₂}
use graph_zeppelin.Bucket.{Hashes}
use graph_zeppelin.CcAlg.{
  CcSketchAlg, Outcome, applied, update_locked_exception, out_of_bounds, QueryCode, pre_insert,
  apply_update_batch, allocate_worker_memory, has_cached_query,
}
use graph_zeppelin.Dsu.{◌>>=◌}
use graph_zeppelin.Pairing.{Edge}
use graph_zeppelin.Sketch.{Sketch}

-- A vertex, and the other ends of some of its updates.
abbrev pub Batch : Type 0
Batch = ℕ × List ℕ

-- The guttering system: `insert` buffers one end of an update, and may hand out batches that have
-- become full; `force_flush` hands out what is left.
pub record GutteringSystem (G : Type 0) : Type 0 where
  pub insert : G → ℕ × ℕ → G × List Batch
  pub force_flush : G → G × List Batch

pub record GraphSketchDriver (G : Type 0) : Type 0 where
  pub gts : G
  pub sketching_alg : CcSketchAlg
  pub work_queue : List Batch
  pub total_updates : ℕ

module _ {G : Type 0} (sys : GutteringSystem G) where
  -- `blank` is the sketch that the algorithm allocates for each worker.
  unfoldable pub new_graph_sketch_driver : G → CcSketchAlg → Sketch → ℕ → GraphSketchDriver G
  new_graph_sketch_driver gts alg blank worker_threads = record {
    gts = gts;
    sketching_alg = allocate_worker_memory alg blank worker_threads;
    work_queue = [];
    total_updates = 0;
  }

  -- gts->insert, whose batches go to the workers.
  unfoldable pub buffer : ℕ × ℕ → GraphSketchDriver G → GraphSketchDriver G
  buffer p s =
      let (gts, out) = sys.insert s.gts p in
      record s { gts = gts; work_queue = s.work_queue ++ out }

  -- What a thread of `process_stream_until` does with one update. `failures` counts the spurious
  -- failures of the atomic set.
  unfoldable pub process_update : ℕ → Edge → GraphSketchDriver G → Option (GraphSketchDriver G)
  unfolding buffer
  process_update failures edge s = pre_insert failures s.sketching_alg edge >>= λ alg.
      some (
        buffer (edge.dst, edge.src)
          (buffer (edge.src, edge.dst) (record s { sketching_alg = alg })))

  unfoldable pub counted : GraphSketchDriver G → List ℕ → Outcome → Option (GraphSketchDriver G)
  counted s dsts (applied alg) =
      some (record s { sketching_alg = alg; total_updates = s.total_updates + length dsts })
  counted s dsts update_locked_exception = none
  counted s dsts out_of_bounds = none

  -- An exception of the algorithm ends the worker: `none`.
  unfoldable pub batch_callback :
      Hashes → ℕ → ℕ → List ℕ → GraphSketchDriver G → Option (GraphSketchDriver G)
  unfolding counted
  batch_callback h thr_id src_vertex dsts s =
      counted s dsts (apply_update_batch h s.sketching_alg thr_id src_vertex dsts)

  -- gts->force_flush().
  unfoldable pub force_flush : GraphSketchDriver G → GraphSketchDriver G
  force_flush s =
      let (gts, out) = sys.force_flush s.gts in
      record s { gts = gts; work_queue = s.work_queue ++ out }

  -- A worker takes a batch of the queue, any one, and applies it.
  pub data WorkerStep (h : Hashes) (s : GraphSketchDriver G) : GraphSketchDriver G → Type 0 where
    took :
        {s' : GraphSketchDriver G}
        → (before later : List Batch) (thr_id src_vertex : ℕ) (dsts : List ℕ)
        → s.work_queue ≡ before ++ (src_vertex, dsts) ∷ later
        → batch_callback h thr_id src_vertex dsts (record s { work_queue = before ++ later })
          ≡ some s'
        → WorkerStep h s s'

  -- Runs of the workers and of the stream, with the updates of the stream.
  pub data Runs (h : Hashes) (s : GraphSketchDriver G)
      : List Edge → GraphSketchDriver G → Type 0 where
    begun : Runs h s [] s
    streamed :
        {es : List Edge} {t u : GraphSketchDriver G}
        → Runs h s es t
        → (failures : ℕ) (edge : Edge) → process_update failures edge t ≡ some u
        → Runs h s (es ++ edge ∷ []) u
    worked :
        {es : List Edge} {t u : GraphSketchDriver G}
        → Runs h s es t
        → WorkerStep h t u
        → Runs h s es u

  -- prep_query: it returns at once if the answer is cached; otherwise it flushes the guttering
  -- system and flushes the workers, which take any steps until it returns. flush_workers waits for
  -- their paused flags only, and may return while batches are still in the queue: here it may
  -- return after any of the steps.
  pub data PrepQuery (h : Hashes) (code : QueryCode) (s : GraphSketchDriver G)
      : GraphSketchDriver G → Type 0 where
    cached : has_cached_query s.sketching_alg code ≡ true → PrepQuery h code s s
    flushed :
        {s' : GraphSketchDriver G}
        → has_cached_query s.sketching_alg code ≡ false
        → Runs h (force_flush s) [] s'
        → PrepQuery h code s s'
