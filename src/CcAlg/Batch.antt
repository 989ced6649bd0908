-- ===== src/CcAlg/Batch.antt =====
-- The batches of the worker threads.
use graph_zeppelin.Base.{
  ℕ, ◌<◌, ◌≡◌, refl, sym, ◌∙◌, ap, subst, false, List, [], ◌∷◌, some, map, lookup, length, set,
  alter, lookup-some, set-lookup, lookup-replicate,
}
use graph_zeppelin.Bucket.{Hashes}
use graph_zeppelin.CcAlg.{
  allocate_worker_memory, new_cc_sketch_alg, CcSketchAlg, applied, apply_update_batch, merge_batch,
  update_dsts,
}
use graph_zeppelin.Pairing.{concat_pairing_fn}
use graph_zeppelin.Sketch.{Sketch, update, merge, zero_contents}
use graph_zeppelin.Sketch.Batch.{update_all, merge-update_all}
use graph_zeppelin.Sketch.Linear.{Shape, shape, update-IsLinear}
use graph_zeppelin.Sketch.Valid.{IsValid}

-- The vector indices of a batch of edges from one vertex.
abbrev pub batch_indices : ℕ → List ℕ → List ℕ
batch_indices src_vertex dsts = map (concat_pairing_fn src_vertex) dsts

-- A sketch that is well formed, of the given shape.
abbrev pub HasShape : Shape → Sketch → Type 0
HasShape p s = IsValid s × (shape s ≡ p)

-- The sketches of the algorithm and those of its workers have one shape.
pub record AreSketches (a : CcSketchAlg) (p : Shape) : Type 0 where
  pub vertices : (i : ℕ) (s : Sketch) → lookup a.sketches i ≡ some s → HasShape p s
  pub workers : (i : ℕ) (s : Sketch) → lookup a.delta_sketches i ≡ some s → HasShape p s

pub update_dsts-update_all :
    (h : Hashes) (delta : Sketch) (src_vertex : ℕ) (dsts : List ℕ)
    → update_dsts h delta src_vertex dsts
      ≡ update_all (update h) delta (batch_indices src_vertex dsts)
unfolding update_dsts
update_dsts-update_all h delta src_vertex [] = refl
update_dsts-update_all h delta src_vertex (dst ∷ dsts) =
    update_dsts-update_all h (update h delta (concat_pairing_fn src_vertex dst)) src_vertex dsts

-- The delta of a batch, merged into the vertex's sketch, is the updates of the batch.
pub merged_batch :
    (h : Hashes) (skt delta : Sketch) (src_vertex : ℕ) (dsts : List ℕ) (p : Shape)
    → HasShape p skt
    → HasShape p delta
    → merge skt (update_dsts h (zero_contents delta) src_vertex dsts)
      ≡ update_all (update h) skt (batch_indices src_vertex dsts)
merged_batch h skt delta src_vertex dsts p (v, e) (w, e') =
    ap (merge skt) (update_dsts-update_all h (zero_contents delta) src_vertex dsts)
    ∙ merge-update_all (update h) (update-IsLinear h) skt delta (batch_indices src_vertex dsts) v w
        (e ∙ sym e')

-- While no query runs, a worker with a delta sketch that takes a batch of edges from one of the
-- vertices succeeds, and leaves that vertex's sketch as the updates of the batch, one by one,
-- would have left it; it changes no other sketch of a vertex, and beside the sketches only its
-- own delta sketch.
pub apply_update_batch-updates :
    (h : Hashes) (a : CcSketchAlg) (p : Shape) (thr_id src_vertex : ℕ) (dsts : List ℕ)
    → AreSketches a p
    → a.update_locked ≡ false
    → thr_id < length a.delta_sketches
    → src_vertex < length a.sketches
    → (delta : Sketch) × (apply_update_batch h a thr_id src_vertex dsts
        ≡ applied (record a {
          delta_sketches = set a.delta_sketches thr_id delta;
          sketches =
              alter a.sketches src_vertex
                (λ s. update_all (update h) s (batch_indices src_vertex dsts));
        }))
unfolding apply_update_batch merge_batch
apply_update_batch-updates h a p thr_id src_vertex dsts ok free lt ls =
    let (delta, e) = lookup-some a.delta_sketches thr_id lt in
    let (skt, e') = lookup-some a.sketches src_vertex ls in
    let upd = λ (s : Sketch). update_all (update h) s (batch_indices src_vertex dsts) in
    let delta' = update_dsts h (zero_contents delta) src_vertex dsts in
    let m =
      merged_batch h skt delta src_vertex dsts p (ok.vertices src_vertex skt e')
        (ok.workers thr_id delta e) in
    let put = ap (set a.sketches src_vertex) m ∙ set-lookup a.sketches src_vertex skt upd e' in
    (delta', rw (free, e, e', put))

blank-HasShape : (blank s : Sketch) → IsValid blank → s ≡ blank → HasShape (shape blank) s
blank-HasShape blank s v e = (subst IsValid (sym e) v, ap shape e)

-- A new algorithm with the memory of its workers allocated.
pub new_cc-AreSketches :
    (prio_gen : ℕ → ℕ) (num_vertices num_workers : ℕ) (blank : Sketch)
    → IsValid blank
    → AreSketches
        (allocate_worker_memory (new_cc_sketch_alg prio_gen num_vertices blank) blank num_workers)
        (shape blank)
unfolding allocate_worker_memory new_cc_sketch_alg
new_cc-AreSketches prio_gen num_vertices num_workers blank v = record {
  vertices = λ i s e. blank-HasShape blank s v (lookup-replicate num_vertices i blank s e);
  workers = λ i s e. blank-HasShape blank s v (lookup-replicate num_workers i blank s e);
}
