-- ===== src/Driver/Applied.antt =====
-- include/graph_sketch_driver.h: what a worker does when it applies a batch.
use graph_zeppelin.Base.{
  ℕ, ◌+◌, ◌≡◌, refl, List, Option, none, some, lookup, length, some_eq, set, if_elim,
}
use graph_zeppelin.Bucket.{Hashes}
use graph_zeppelin.CcAlg.{apply_update_batch, merge_batch, update_dsts}
use graph_zeppelin.Driver.{GutteringSystem, GraphSketchDriver, batch_callback, counted}
use graph_zeppelin.Driver.Kept.{none_not}
use graph_zeppelin.Sketch.{Sketch, merge, zero_contents}

module _ {G : Type 0} (sys : GutteringSystem G) (h : Hashes) where
  -- What a worker needs of the algorithm, and what it does.
  abbrev pub Applied : GraphSketchDriver G → ℕ → ℕ → List ℕ → GraphSketchDriver G → Type 0
  Applied s thr_id src dsts s' =
      (delta : Sketch) × (skt : Sketch) × (lookup s.sketching_alg.delta_sketches thr_id
        ≡ some delta)
      × (lookup s.sketching_alg.sketches src ≡ some skt)
      × (record s {
        sketching_alg = record s.sketching_alg {
          delta_sketches =
              set s.sketching_alg.delta_sketches thr_id
                (update_dsts h (zero_contents delta) src dsts);
          sketches =
              set s.sketching_alg.sketches src
                (merge skt (update_dsts h (zero_contents delta) src dsts));
        };
        total_updates = s.total_updates + length dsts;
      }
          ≡ s')

  merged-Applied :
      (s s' : GraphSketchDriver G) (thr_id src : ℕ) (dsts : List ℕ) (delta skt : Option Sketch)
      → lookup s.sketching_alg.delta_sketches thr_id ≡ delta
      → lookup s.sketching_alg.sketches src ≡ skt
      → counted sys s dsts (merge_batch h s.sketching_alg thr_id src dsts delta skt) ≡ some s'
      → Applied s thr_id src dsts s'
  unfolding counted merge_batch
  merged-Applied s s' thr_id src dsts (some delta) (some skt) e e' p =
      (delta, skt, e, e', some_eq p)
  merged-Applied s s' thr_id src dsts (some delta) none e e' p = absurd (none_not p)
  merged-Applied s s' thr_id src dsts none skt e e' p = absurd (none_not p)

  pub callback-Applied :
      (s s' : GraphSketchDriver G) (thr_id src : ℕ) (dsts : List ℕ)
      → batch_callback sys h thr_id src dsts s ≡ some s'
      → Applied s thr_id src dsts s'
  unfolding batch_callback apply_update_batch counted
  callback-Applied s s' thr_id src dsts p =
      if_elim (λ o. counted sys s dsts o ≡ some s' → Applied s thr_id src dsts s')
        s.sketching_alg.update_locked _ _ (λ _ q. absurd (none_not q))
        (λ _ q. merged-Applied s s' thr_id src dsts _ _ refl refl q) p
