-- ===== src/McAlg/Exhausted.antt =====
-- src/mc_sketch_alg.cpp: a spanning forest of a graph whose sketches have no samples left.
use graph_zeppelin.Base.{
  ℕ, zero, suc, ◌+◌, ◌*◌, ◌≤◌, ◌<◌, ◌≡◌, refl, sym, ◌∙◌, ap, arith, true, false, List, [], ◌∷◌,
  some, map, lookup, leb, some_eq, set, replicate, if_elim,
}
use graph_zeppelin.Bucket.{Hashes}
use graph_zeppelin.CcAlg.Query.{Machine, first_instrs}
use graph_zeppelin.CcAlg.Round.{
  MergeInstr, GlobalMergeData, RoundState, after_sample, try_sample, round_zero_loop, new_global,
}
use graph_zeppelin.CcAlg.Supernode.{use_sample, sample_supernode}
use graph_zeppelin.Dsu.{◌>>=◌}
use graph_zeppelin.McAlg.{
  McSketchAlg, apply_update_batch, apply_update_batch_single_graph, update_locked_exception,
}
use graph_zeppelin.McAlg.Round.{
  read_graph, view, put_back, k_round_of, run_k_round_zero, perform_k_boruvka_round,
}
use graph_zeppelin.McAlg.Query.{
  Run, ran, threw, stuck, out_of_fuel, after_round, begin_emulation, k_emulation_loop,
  k_boruvka_emulation, swallow, calc_spanning_forest,
}
use graph_zeppelin.McAlg.Query
use graph_zeppelin.ReturnTypes.{new_spanning_forest, forest_edges}
use graph_zeppelin.Sketch.{Sketch}
use graph_zeppelin.Sketch.Sample.{sample}

-- No sample is left.
abbrev IsSpent : Sketch → Type 0
IsSpent skt = skt.num_samples ≤ skt.sample_idx

-- The vertices of the order have sketches, which are used up.
abbrev pub AreSpent : List Sketch → List ℕ → Type 0
AreSpent sketches [] = Unit
AreSpent sketches (i ∷ order) =
    ((skt : Sketch) × (lookup sketches i ≡ some skt) × IsSpent skt) × AreSpent sketches order

set_same {ℓ} : {A : Type ℓ} (xs : List A) (i : ℕ) (x : A) → lookup xs i ≡ some x → set xs i x ≡ xs
set_same [] i x e = refl
set_same (y ∷ xs) zero x e = ap (λ z. z ∷ xs) (sym (some_eq e))
set_same (y ∷ xs) (suc i) x e = ap (◌∷◌ y) (set_same xs i x e)

module _ (h : Hashes) (failures : ℕ → ℕ) where
  try_sample-spent :
      (f : ℕ) (st : RoundState) (skt : Sketch)
      → IsSpent skt
      → try_sample h f st skt ≡ some (record st { except = true }, skt)
  unfolding try_sample sample_supernode sample use_sample after_sample
  try_sample-spent f st skt s =
      if_elim
        (λ q. after_sample st skt (use_sample f st.alg q) ≡ some (record st { except = true }, skt))
        (leb skt.num_samples skt.sample_idx) _ _ (λ _. refl)
        (λ left. absurd (ground (arith, left, s)))

  -- One sample of the round marks the exception, and changes nothing else.
  round_zero-step :
      (i : ℕ) (order : List ℕ) (st : RoundState) (skt : Sketch)
      → lookup st.alg.sketches i ≡ some skt
      → IsSpent skt
      → round_zero_loop h failures (i ∷ order) st
        ≡ round_zero_loop h failures order (record st { except = true })
  unfolding round_zero_loop
  round_zero-step i order st skt e s =
      rw (e, try_sample-spent (failures i) st skt s, set_same st.alg.sketches i skt e) refl

  round_zero-except :
      (order : List ℕ) (st : RoundState)
      → AreSpent st.alg.sketches order
      → round_zero_loop h failures order (record st { except = true })
        ≡ some (record st { except = true })
  unfolding round_zero_loop
  round_zero-except [] st all = refl
  round_zero-except (i ∷ order) st ((skt, e, s), all) =
      round_zero-step i order (record st { except = true }) skt e s ∙ round_zero-except order st all

  round_zero-AreSpent :
      (i : ℕ) (order : List ℕ) (st : RoundState)
      → AreSpent st.alg.sketches (i ∷ order)
      → round_zero_loop h failures (i ∷ order) st ≡ some (record st { except = true })
  round_zero-AreSpent i order st ((skt, e, s), all) =
      round_zero-step i order st skt e s ∙ round_zero-except order st all

forest_edges-cleared :
    (src : ℕ) (rows : List (List ℕ)) → forest_edges src (map (λ row. []) rows) ≡ []
unfolding forest_edges
forest_edges-cleared src [] = refl
forest_edges-cleared src (row ∷ rows) = forest_edges-cleared (src + 1) rows

module _ (m : Machine) (graph_id i : ℕ) (order : List ℕ) (ordered : m.order ≡ i ∷ order) where
  -- The state after the failed round.
  abbrev abandoned : McSketchAlg → List Sketch → McSketchAlg
  abandoned a sketches = put_back graph_id a (view a sketches)

  round_zero-threw :
      (a : McSketchAlg) (sketches : List Sketch) (instrs : List MergeInstr)
      (globals : List GlobalMergeData)
      → read_graph a.sketches a.num_vertices (graph_id * a.num_vertices) ≡ some sketches
      → AreSpent sketches (i ∷ order)
      → perform_k_boruvka_round m 0 instrs globals graph_id a
        ≡ some (record {
          alg = abandoned a sketches;
          global_merges = globals;
          modified = false;
          except = true;
        })
  unfolding perform_k_boruvka_round run_k_round_zero k_round_of view
  round_zero-threw a sketches instrs globals allocated all =
      let st : RoundState = record {
        alg = view a sketches;
        global_merges = globals;
        modified = false;
        except = false;
      } in
      rw (allocated, ordered)
        (ap (λ o. o >>= λ st'. some (k_round_of graph_id a st'))
          (round_zero-AreSpent m.hashes (m.failures 0) i order st all))

  emulation-threw :
      (fuel : ℕ) (a : McSketchAlg) (sketches : List Sketch) (instrs : List MergeInstr)
      (globals : List GlobalMergeData)
      → read_graph a.sketches a.num_vertices (graph_id * a.num_vertices) ≡ some sketches
      → AreSpent sketches (i ∷ order)
      → 0 < fuel
      → k_emulation_loop m graph_id fuel 0 instrs globals a ≡ threw (abandoned a sketches)
  unfolding k_emulation_loop after_round
  emulation-threw zero a sketches instrs globals allocated all enough = absurd (omega arith)
  emulation-threw (suc fuel) a sketches instrs globals allocated all enough =
      rw (round_zero-threw a sketches instrs globals allocated all) refl

-- A query for a spanning forest of a graph that is allocated, whose sketches have all used up
-- their samples, returns the forest without edges, and no error. Every later batch, for this
-- graph or another, throws UpdateLockedException.
pub calc_spanning_forest-AreSpent :
    (m : Machine) (a : McSketchAlg) (graph_id i : ℕ) (order : List ℕ) (sketches : List Sketch)
    → m.order ≡ i ∷ order
    → read_graph a.sketches a.num_vertices (graph_id * a.num_vertices) ≡ some sketches
    → AreSpent sketches (i ∷ order)
    → (a' : McSketchAlg) × (calc_spanning_forest m graph_id a
        ≡ ran (record { num_vertices = a.num_vertices; edges = [] }) a')
      × ((h : Hashes) (thr_id src_vertex : ℕ) (dsts : List ℕ)
          → apply_update_batch h a' thr_id src_vertex dsts ≡ update_locked_exception)
      × ((h : Hashes) (thr_id graph src_vertex : ℕ) (dsts : List ℕ)
          → apply_update_batch_single_graph h a' thr_id graph src_vertex dsts
            ≡ update_locked_exception)
unfolding calc_spanning_forest k_boruvka_emulation begin_emulation swallow put_back view
    new_spanning_forest apply_update_batch apply_update_batch_single_graph
calc_spanning_forest-AreSpent m a graph_id i order sketches ordered allocated all =
    let begun = begin_emulation m a in
    let left = abandoned m graph_id i order ordered begun sketches in
    let returned =
      ap
        (λ q.
          Query.◌>>=◌ (swallow m q)
            λ _ a'. ran (new_spanning_forest a'.num_vertices a'.spanning_forest) a')
        (emulation-threw m graph_id i order ordered (m.blank.num_samples + 2) begun sketches
          (first_instrs a.num_vertices 0) (replicate m.num_threads (new_global m.blank)) allocated
          all (omega arith)) in
    (
      left,
      returned
          ∙ ap (λ es. ran (record { num_vertices = a.num_vertices; edges = es }) left)
              (forest_edges-cleared 0 a.spanning_forest),
      λ h thr_id src_vertex dsts. refl,
      λ h thr_id graph src_vertex dsts. refl,
    )
