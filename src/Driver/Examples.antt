-- ===== src/Driver/Examples.antt =====
-- The driver (include/graph_sketch_driver.h) on a small stream, with a guttering system that hands
-- out nothing before it is flushed.
use graph_zeppelin.Base.{
  ℕ, ◌+◌, ◌*◌, ◌<◌, ◌≡◌, ◌⊎◌, refl, sym, ap, subst, arith, true, List, [], ◌∷◌, Option, none, some,
  lookup,
}
use graph_zeppelin.Bucket.{Hashes}
use graph_zeppelin.Dsu.{find_root, new_dsu, find_loop, link}
use graph_zeppelin.Dsu.Atomic.{merge_mt}
use graph_zeppelin.Driver.{
  counted, Batch, GutteringSystem, GraphSketchDriver, new_graph_sketch_driver, process_update,
  batch_callback, force_flush, Runs, begun, streamed, worked, took, PrepQuery, flushed,
}
use graph_zeppelin.CcAlg.{
  apply_update_batch, pre_insert, allocate_worker_memory, new_cc_sketch_alg, has_cached_query,
  kspanningforests,
}
use graph_zeppelin.Driver.Delivered.{PrepQuery-sketches}
use graph_zeppelin.Driver.Cached.{Runs-connected_components}
use graph_zeppelin.CcAlg.Query.{Machine, connected_components}
use graph_zeppelin.CcAlg.Query.Cached.{Answers}
use graph_zeppelin.CcAlg.Forest.{graph_after, no_edges}
use graph_zeppelin.Driver.Kept.{KeepsUpdates}
use graph_zeppelin.Driver.Parity.{ends, indices, flat}
use graph_zeppelin.Pairing.{Edge}
use graph_zeppelin.Sketch.{Sketch, new_sketch, update}
use graph_zeppelin.Sketch.Batch.{update_all}
use graph_zeppelin.Sketch.Valid.{new_sketch-IsValid}
use mathlib.Core.List.Permᴰ
use mathlib.Core.List.{Permᴰ}

-- Every update is a batch of its own.
singles : List (ℕ × ℕ) → List Batch
singles [] = []
singles ((s, d) ∷ ps) = (s, d ∷ []) ∷ singles ps

gutters : GutteringSystem (List (ℕ × ℕ))
gutters = record { insert = λ g p. (p ∷ g, []); force_flush = λ g. ([], singles g) }

flat-singles : (ps : List (ℕ × ℕ)) → flat (singles ps) ≡ ps
unfolding singles
flat-singles [] = refl
flat-singles (p ∷ ps) = ap (◌∷◌ p) (flat-singles ps)

gutters-KeepsUpdates : KeepsUpdates gutters
unfolding gutters
gutters-KeepsUpdates = record {
  held = λ g. g;
  inserts = λ g p. Permᴰ.refl (p ∷ g);
  flushes = λ g. subst (λ ps. Permᴰ ps g) (sym (flat-singles g)) (Permᴰ.refl g);
  empties = λ g. refl;
}

hashes : Hashes
hashes = record { vec_hash = λ x s. x * 7 + s + 1; col_hash = λ x s. x * 3 + s }

blank : Sketch
unfolding new_sketch
blank = new_sketch (λ n. 3) 8 11 2 1

started : GraphSketchDriver (List (ℕ × ℕ))
unfolding new_graph_sketch_driver gutters new_cc_sketch_alg blank
started = new_graph_sketch_driver gutters [] (new_cc_sketch_alg (λ i. 7) 2 blank) blank 1

edge : Edge
edge = record { src = 0; dst = 1 }

-- The edge is streamed; the query flushes both of its ends, and the worker applies them.
after : Option (GraphSketchDriver (List (ℕ × ℕ))) → GraphSketchDriver (List (ℕ × ℕ))
unfolding started
after none = started
after (some s) = s

fed : GraphSketchDriver (List (ℕ × ℕ))
unfolding after started edge process_update gutters
fed = after (process_update gutters 0 edge started)

waiting : GraphSketchDriver (List (ℕ × ℕ))
unfolding fed force_flush gutters
waiting = force_flush gutters fed

first_batch : GraphSketchDriver (List (ℕ × ℕ))
unfolding waiting batch_callback
first_batch =
    after (
      batch_callback gutters hashes 0 0 (1 ∷ []) (record waiting { work_queue = (1, 0 ∷ []) ∷ [] }))

drained : GraphSketchDriver (List (ℕ × ℕ))
unfolding first_batch batch_callback
drained =
    after (batch_callback gutters hashes 0 1 (0 ∷ []) (record first_batch { work_queue = [] }))

fed_run : Runs gutters hashes started (edge ∷ []) fed
unfolding fed after started edge process_update gutters new_graph_sketch_driver new_cc_sketch_alg
    pre_insert allocate_worker_memory merge_mt find_root new_dsu find_loop
fed_run = streamed begun 0 edge refl

drained_run : Runs gutters hashes waiting [] drained
unfolding drained first_batch waiting fed after started edge process_update gutters force_flush
    batch_callback counted apply_update_batch new_graph_sketch_driver new_cc_sketch_alg pre_insert
    allocate_worker_memory merge_mt find_root new_dsu find_loop singles link
drained_run =
    worked (worked begun (took ((1, 0 ∷ []) ∷ []) [] 0 0 (1 ∷ []) refl refl))
      (took [] [] 0 1 (0 ∷ []) refl refl)

prepared : PrepQuery gutters hashes kspanningforests fed drained
unfolding has_cached_query drained waiting counted batch_callback apply_update_batch pre_insert
    allocate_worker_memory merge_mt find_root new_dsu find_loop link
prepared = flushed refl drained_run

PrepQuery-sketches_example :
    (has_cached_query fed.sketching_alg kspanningforests ≡ true)
    ⊎ ((v : ℕ)
        → v < 2
        → (skt : Sketch) × (lookup drained.sketching_alg.sketches v ≡ some skt)
          × (update_all (update hashes) skt (indices v (flat drained.work_queue))
              ≡ update_all (update hashes) blank (indices v (ends (edge ∷ [])))))
unfolding started blank gutters-KeepsUpdates
PrepQuery-sketches_example =
    PrepQuery-sketches gutters gutters-KeepsUpdates hashes blank 2 (λ i. 7) 1 [] (edge ∷ []) fed
      drained kspanningforests (new_sketch-IsValid (λ n. 3) 8 11 2 1) refl fed_run prepared

one_thread : Machine
unfolding blank hashes
one_thread = record {
  hashes = hashes;
  failures = λ r k. 0;
  partition = record { first_of = λ len i parts. i * len; part_of = λ len idx parts. 0 };
  num_threads = 1;
  schedule = λ r. 0 ∷ [];
  order = 0 ∷ 1 ∷ [];
  blank = blank;
}

-- Both ends of the edge are still buffered.
Runs-connected_components_example :
    Answers one_thread 2
      (graph_after no_edges (edge ∷ []))
      fed.sketching_alg
      (connected_components one_thread fed.sketching_alg)
unfolding started blank edge fed after process_update has_cached_query pre_insert
    allocate_worker_memory merge_mt find_root new_dsu find_loop link
Runs-connected_components_example =
    Runs-connected_components gutters hashes one_thread blank 2 (λ i. 7) 1 [] (edge ∷ []) fed
      (omega arith) fed_run refl
