-- ===== src/Driver/Delivered.antt =====
-- include/graph_sketch_driver.h: from the stream to the sketches.
use graph_zeppelin.Base.{
  ℕ, zero, suc, ◌<◌, ◌≡◌, ◌⊎◌, inl, inr, refl, sym, ◌∙◌, ap, arith, Bool, true, false, List, [],
  ◌∷◌, ◌++◌, some, lookup, replicate,
}
use graph_zeppelin.Bucket.{Hashes}
use graph_zeppelin.CcAlg.{new_cc_sketch_alg, allocate_worker_memory, QueryCode, has_cached_query}
use graph_zeppelin.CcAlg.Batch.{new_cc-AreSketches}
use graph_zeppelin.Driver.{
  GutteringSystem, GraphSketchDriver, new_graph_sketch_driver, force_flush, Runs, begun, streamed,
  worked, PrepQuery, cached, flushed,
}
use graph_zeppelin.Driver.Kept.{KeepsUpdates, Holds, streamed-Holds}
use graph_zeppelin.Driver.Parity.{
  ends, indices, flat, is_odd, xor, ends-append, flat-append, is_odd-append, is_odd-Perm,
}
use graph_zeppelin.Driver.Worked.{worked-Holds, worked-gts}
use graph_zeppelin.Pairing.{Edge}
use graph_zeppelin.Sketch.{Sketch, update}
use graph_zeppelin.Sketch.Batch.{update_all-append, update_all, update_all_of_vector}
use graph_zeppelin.Sketch.Linear.{update-IsLinear}
use graph_zeppelin.Sketch.Valid.{IsValid}
use graph_zeppelin.Sketch.Vector.{bit_of-append, bit_of}

xor-false : (b : Bool) → b ≡ xor b false
xor-false b = ground arith

append_ne {ℓ} : {A : Type ℓ} (xs : List A) (x : A) → xs ++ x ∷ [] ≡ [] → ⊥
append_ne [] x e = cc
append_ne (y ∷ xs) x e = cc

lookup-replicate_lt {ℓ} : {A : Type ℓ} (n i : ℕ) (x : A) → i < n → lookup (replicate n x) i ≡ some x
lookup-replicate_lt zero i x lt = absurd (omega arith)
lookup-replicate_lt (suc n) zero x lt = refl
lookup-replicate_lt (suc n) (suc i) x lt = lookup-replicate_lt n i x (omega arith)

module _ {G : Type 0} (sys : GutteringSystem G) (k : KeepsUpdates sys) (h : Hashes) (blank : Sketch)
    (valid : IsValid blank) (n : ℕ) where
  Holds-same :
      (f g : ℕ → ℕ → Bool) (s : GraphSketchDriver G)
      → ((v a : ℕ) → f v a ≡ g v a)
      → Holds sys k h blank valid n f s
      → Holds sys k h blank valid n g s
  Holds-same f g s e w = record {
    sketch = λ v lt. let (xs, at_v, odd) = w.sketch v lt in (xs, at_v, λ a. odd a ∙ e v a);
    deltas = w.deltas;
  }

  Runs-Holds :
      (target : ℕ → ℕ → Bool) (s : GraphSketchDriver G) (es : List Edge) (t : GraphSketchDriver G)
      → Runs sys h s es t
      → Holds sys k h blank valid n target s
      → Holds sys k h blank valid n (λ v a. xor (target v a) (is_odd v a (ends es))) t
  Runs-Holds target s es t begun w = Holds-same target _ s (λ v a. xor-false (target v a)) w
  Runs-Holds target s es t (streamed {es = fs} {t = m} r failures edge p) w =
      Holds-same _ _ t
        (λ v a. ground (
          arith,
          ap (is_odd v a) (ends-append fs (edge ∷ [])),
          is_odd-append v a (ends fs) (ends (edge ∷ [])),
        ))
        (streamed-Holds sys k h blank valid n _ failures edge m t p (Runs-Holds target s fs m r w))
  Runs-Holds target s es t (worked {t = m} r step) w =
      worked-Holds sys k h blank valid n _ m t step (Runs-Holds target s es m r w)

  -- The workers alone leave the guttering system as it is.
  Runs-gts :
      (s : GraphSketchDriver G) (es : List Edge) (t : GraphSketchDriver G)
      → Runs sys h s es t
      → es ≡ []
      → t.gts ≡ s.gts
  Runs-gts s es t begun e = refl
  Runs-gts s es t (streamed {es = fs} r failures edge p) e = absurd (append_ne fs edge e)
  Runs-gts s es t (worked {t = m} r step) e =
      worked-gts sys k h blank valid n m t step ∙ Runs-gts s es m r e

  flush-Holds :
      (target : ℕ → ℕ → Bool) (s : GraphSketchDriver G)
      → Holds sys k h blank valid n target s
      → Holds sys k h blank valid n target (force_flush sys s)
  unfolding force_flush
  flush-Holds target s w =
      let (g, out) = sys.force_flush s.gts in
      let moved : (v a : ℕ)
          → is_odd v a (flat (s.work_queue ++ out) ++ k.held g)
            ≡ is_odd v a (flat s.work_queue ++ k.held s.gts) =
        λ v a. ground (
          arith,
          is_odd-append v a (flat (s.work_queue ++ out)) (k.held g),
          ap (is_odd v a) (flat-append s.work_queue out),
          is_odd-append v a (flat s.work_queue) (flat out),
          is_odd-Perm v a (k.flushes s.gts),
          ap (is_odd v a) (k.empties s.gts),
          is_odd-append v a (flat s.work_queue) (k.held s.gts),
        ) in
      record {
        sketch = λ v lt.
            let (xs, at_v, odd) = w.sketch v lt in
            (xs, at_v, λ a. ap (xor (bit_of a xs)) (moved v a) ∙ odd a);
        deltas = w.deltas;
      }

  new-Holds :
      (prio_gen : ℕ → ℕ) (num_workers : ℕ) (gts : G)
      → k.held gts ≡ []
      → Holds sys k h blank valid n
          (λ v a. false)
          (new_graph_sketch_driver sys gts (new_cc_sketch_alg prio_gen n blank) blank num_workers)
  unfolding new_graph_sketch_driver new_cc_sketch_alg allocate_worker_memory
  new-Holds prio_gen num_workers gts none_held = record {
    sketch = λ v lt. ([], lookup-replicate_lt n v blank lt, λ a. ap (is_odd v a) none_held);
    deltas = (new_cc-AreSketches prio_gen n num_workers blank valid).workers;
  }

  -- The batches of the queue bring the sketches to those of the stream.
  pending :
      (es : List Edge) (s : GraphSketchDriver G)
      → Holds sys k h blank valid n (λ v a. is_odd v a (ends es)) s
      → k.held s.gts ≡ []
      → (v : ℕ) → v < n
      → (skt : Sketch) × (lookup s.sketching_alg.sketches v ≡ some skt)
        × (update_all (update h) skt (indices v (flat s.work_queue))
            ≡ update_all (update h) blank (indices v (ends es)))
  pending es s w no_held v lt =
      let (xs, at_v, odd) = w.sketch v lt in
      let queued = indices v (flat s.work_queue) in
      let left : (a : ℕ) → is_odd v a (flat s.work_queue ++ k.held s.gts) ≡ bit_of a queued = λ a.
        ground
          (arith, is_odd-append v a (flat s.work_queue) (k.held s.gts), ap (is_odd v a) no_held) in
      (
        update_all (update h) blank xs,
        at_v,
        sym (update_all-append (update h) blank xs queued)
            ∙ update_all_of_vector (update h) (update-IsLinear h) blank (xs ++ queued)
                (indices v (ends es)) valid
                (λ a. ground (arith, bit_of-append a xs queued, odd a, left a)),
      )

-- Let the guttering system lose and invent no update, begin empty, and be empty after a flush. From
-- a new driver, let the threads of the stream and the workers take any steps, with `es` the updates
-- taken from the stream, and then prepare a query. Either its answer was cached, or each vertex has
-- a sketch, and the updates of that vertex that are still in the queue make of it what the updates
-- of the vertex's edges in `es`, one by one, make of a new sketch. If the queue is empty, the
-- sketch is that one.
pub PrepQuery-sketches :
    {G : Type 0} (sys : GutteringSystem G) (k : KeepsUpdates sys) (h : Hashes) (blank : Sketch)
    (n : ℕ) (prio_gen : ℕ → ℕ) (num_workers : ℕ) (gts : G) (es : List Edge)
    (s s' : GraphSketchDriver G) (code : QueryCode)
    → IsValid blank
    → k.held gts ≡ []
    → Runs sys h
        (new_graph_sketch_driver sys gts (new_cc_sketch_alg prio_gen n blank) blank num_workers)
        es
        s
    → PrepQuery sys h code s s'
    → (has_cached_query s.sketching_alg code ≡ true)
      ⊎ ((v : ℕ)
          → v < n
          → (skt : Sketch) × (lookup s'.sketching_alg.sketches v ≡ some skt)
            × (update_all (update h) skt (indices v (flat s'.work_queue))
                ≡ update_all (update h) blank (indices v (ends es))))
unfolding force_flush
PrepQuery-sketches sys k h blank n prio_gen num_workers gts es s s' code valid none_held runs
      (cached c) =
    inl c
PrepQuery-sketches sys k h blank n prio_gen num_workers gts es s s' code valid none_held runs
      (flushed stale drained) =
    let start =
      new_graph_sketch_driver sys gts (new_cc_sketch_alg prio_gen n blank) blank num_workers in
    let streamed_all =
      Runs-Holds sys k h blank valid n (λ v a. false) start es s runs
        (new-Holds sys k h blank valid n prio_gen num_workers gts none_held) in
    let all =
      Holds-same sys k h blank valid n _ (λ v a. is_odd v a (ends es)) s'
        (λ v a. sym (xor-false (is_odd v a (ends es))))
        (Runs-Holds sys k h blank valid n _ (force_flush sys s) [] s' drained
          (flush-Holds sys k h blank valid n _ s streamed_all)) in
    let empty =
      ap k.held (Runs-gts sys k h blank valid n (force_flush sys s) [] s' drained refl)
      ∙ k.empties s.gts in
    inr (pending sys k h blank valid n es s' all empty)
