-- ===== src/CcAlg/Query/Settled.antt =====
-- src/cc_sketch_alg.cpp: the state that a query leaves, whether it replies or throws.
use graph_zeppelin.Base.{
  ℕ, zero, suc, ◌+◌, ◌<◌, ◌≡◌, ◌≢◌, ◌⊎◌, inl, inr, refl, ◌∙◌, ap, arith, true, false, List, Option,
  none, some, map, if_elim,
}
use graph_zeppelin.Bucket.{Hashes}
use graph_zeppelin.CcAlg.{CcSketchAlg, apply_update_batch, update_locked_exception}
use graph_zeppelin.CcAlg.Query.{
  Machine, Query, replied, query_threw, query_stuck, query_out_of_fuel, ◌>>=◌, finish_emulation,
  after_instrs, after_round, emulation_loop, boruvka_emulation, reset_samples, settle,
  read_components, connected_components,
}
use graph_zeppelin.CcAlg.Query.Ends.{IsSingle, connected_components_ends}
use graph_zeppelin.CcAlg.Round.{MergeInstr, GlobalMergeData, RoundState}
use graph_zeppelin.CcAlg.Round.Keep.{outline}
use graph_zeppelin.CcAlg.Round.Threads.{perform_boruvka_round-Same}
use graph_zeppelin.CcAlg.Round.Whenever.{Whenever, Whenever-map}
use graph_zeppelin.Dsu.{Dsu}
use graph_zeppelin.ReturnTypes.{ConnectedComponents, new_connected_components}
use graph_zeppelin.Sketch.{reset_sample_state}

-- An emulation keeps the outline, but for the flags that its end sets.
abbrev Keeps : Machine → CcSketchAlg → Query (Unit {0}) → Type 0
Keeps m a (replied x a') = (rounds : ℕ) × (outline a' ≡ finish_emulation m rounds (outline a))
Keeps m a (query_threw a') = outline a' ≡ outline a
Keeps m a query_stuck = Unit
Keeps m a query_out_of_fuel = Unit

module _ (m : Machine) (a : CcSketchAlg) where
  -- The rest of the loop keeps the outline.
  abbrev Continues :
      (List MergeInstr → List GlobalMergeData → CcSketchAlg → Query (Unit {0})) → Type 0
  Continues next =
      (instrs : List MergeInstr) (globals : List GlobalMergeData) (a' : CcSketchAlg)
      → outline a' ≡ outline a
      → Keeps m a (next instrs globals a')

  after_instrs-Keeps :
      (next : List MergeInstr → List GlobalMergeData → CcSketchAlg → Query (Unit {0}))
      (st : RoundState) (o : Option (Dsu × List MergeInstr))
      → Continues next
      → outline st.alg ≡ outline a
      → Keeps m a (after_instrs m next st o)
  unfolding after_instrs outline
  after_instrs-Keeps next st none k p = tt
  after_instrs-Keeps next st (some (d, instrs)) k p = k instrs st.global_merges _ p

  after_round-Keeps :
      (next : List MergeInstr → List GlobalMergeData → CcSketchAlg → Query (Unit {0}))
      (round_num : ℕ) (instrs : List MergeInstr) (o : Option RoundState)
      → Continues next
      → Whenever (λ st. outline st.alg ≡ outline a) o
      → Keeps m a (after_round m next round_num instrs o)
  unfolding after_round finish_emulation outline
  after_round-Keeps next round_num instrs none k p = tt
  after_round-Keeps next round_num instrs (some st) k p =
      if_elim (Keeps m a) st.except _ _ (λ t. p)
        (λ f.
          if_elim (Keeps m a) st.modified _ _ (λ t. after_instrs-Keeps next st _ k p)
            (λ f'. (round_num, ap (finish_emulation m round_num) p)))

  emulation_loop-Keeps :
      (fuel round_num : ℕ) (instrs : List MergeInstr) (globals : List GlobalMergeData)
      (a' : CcSketchAlg)
      → outline a' ≡ outline a
      → Keeps m a (emulation_loop m fuel round_num instrs globals a')
  unfolding emulation_loop
  emulation_loop-Keeps zero round_num instrs globals a' p = tt
  emulation_loop-Keeps (suc fuel) round_num instrs globals a' p =
      after_round-Keeps (emulation_loop m fuel (round_num + 1)) round_num instrs _
        (emulation_loop-Keeps fuel (round_num + 1))
        (Whenever-map (λ st. outline st.alg ≡ outline a') (λ st. outline st.alg ≡ outline a) _
          (λ st o. o ∙ p)
          (perform_boruvka_round-Same m.hashes (m.failures round_num) m.partition m.blank
            m.num_threads (m.schedule round_num) m.order round_num instrs globals a'))

-- What a query for the components leaves however it ends, for any threads in any order.
abbrev Left : CcSketchAlg → Query ConnectedComponents → Type 0
Left a (replied c a') =
    (a'.sketches ≡ map reset_sample_state a.sketches)
    × (a'.delta_sketches ≡ a.delta_sketches)
    × (a'.update_locked ≡ false)
    × (a'.dsu_valid ≡ true)
    × (a'.shared_dsu_valid ≡ true)
Left a (query_threw a') =
    (a'.sketches ≡ map reset_sample_state a.sketches)
    × (a'.delta_sketches ≡ a.delta_sketches)
    × ((h : Hashes) (thr_id src_vertex : ℕ) (dsts : List ℕ)
        → apply_update_batch h a' thr_id src_vertex dsts ≡ update_locked_exception)
Left a query_stuck = Unit
Left a query_out_of_fuel = Unit

read_components-Left :
    (m : Machine) (a a' : CcSketchAlg) (o : Option (Dsu × ConnectedComponents))
    → ((c : ConnectedComponents) → Left a (replied c a'))
    → Left a (read_components m a' o)
unfolding read_components
read_components-Left m a a' none s = tt
read_components-Left m a a' (some (d, cc)) s = s cc

emulated-Left :
    (m : Machine) (a : CcSketchAlg) (q : Query (Unit {0}))
    → Keeps m (record a { update_locked = true }) q
    → Left a (
        settle m q >>= λ _ a'.
        read_components m a' (new_connected_components a'.num_vertices a'.dsu))
unfolding settle reset_samples outline finish_emulation apply_update_batch
emulated-Left m a (replied x a') (rounds, p) = read_components-Left m a _ _ λ c. (
  ap (λ (b : CcSketchAlg). b.sketches) p,
  ap (λ (b : CcSketchAlg). b.delta_sketches) p,
  ap (λ (b : CcSketchAlg). b.update_locked) p,
  ap (λ (b : CcSketchAlg). b.dsu_valid) p,
  ap (λ (b : CcSketchAlg). b.shared_dsu_valid) p,
)
emulated-Left m a (query_threw a') p = (
  ap (λ (b : CcSketchAlg). b.sketches) p,
  ap (λ (b : CcSketchAlg). b.delta_sketches) p,
  λ h thr_id src_vertex dsts. rw (ap (λ (b : CcSketchAlg). b.update_locked) p) refl,
)
emulated-Left m a query_stuck k = tt
emulated-Left m a query_out_of_fuel k = tt

emulation-Keeps :
    (m : Machine) (a : CcSketchAlg)
    → Keeps m (record a { update_locked = true }) (boruvka_emulation m a)
unfolding boruvka_emulation outline
emulation-Keeps m a = emulation_loop-Keeps m (record a { update_locked = true }) _ 0 _ _ _ refl

connected_components-Left :
    (m : Machine) (a : CcSketchAlg) → a.shared_dsu_valid ≡ false → Left a (connected_components m a)
unfolding connected_components
connected_components-Left m a stale =
    let read : Query (Unit {0}) → Query ConnectedComponents =
      λ q. (q >>= λ _ a'. read_components m a' (new_connected_components a'.num_vertices a'.dsu)) in
    if_elim (λ q. Left a (read q)) a.shared_dsu_valid (replied tt a)
      (settle m (boruvka_emulation m a)) (λ t. absurd (ground (arith, stale, t)))
      (λ _. emulated-Left m a (boruvka_emulation m a) (emulation-Keeps m a))

-- A query for the components replies or throws, and leaves this.
abbrev pub Settled : CcSketchAlg → Query ConnectedComponents → Type 0
Settled a (replied c a') =
    (a'.sketches ≡ map reset_sample_state a.sketches)
    × (a'.delta_sketches ≡ a.delta_sketches)
    × (a'.update_locked ≡ false)
    × (a'.dsu_valid ≡ true)
    × (a'.shared_dsu_valid ≡ true)
Settled a (query_threw a') =
    (a'.sketches ≡ map reset_sample_state a.sketches)
    × (a'.delta_sketches ≡ a.delta_sketches)
    × ((h : Hashes) (thr_id src_vertex : ℕ) (dsts : List ℕ)
        → apply_update_batch h a' thr_id src_vertex dsts ≡ update_locked_exception)
Settled a query_stuck = ⊥
Settled a query_out_of_fuel = ⊥

stuck_or_Settled :
    (a : CcSketchAlg) (q : Query ConnectedComponents)
    → Left a q
    → q ≢ query_out_of_fuel
    → (q ≡ query_stuck) ⊎ Settled a q
stuck_or_Settled a (replied c a') k ends = inr k
stuck_or_Settled a (query_threw a') k ends = inr k
stuck_or_Settled a query_stuck k ends = inl refl
stuck_or_Settled a query_out_of_fuel k ends = absurd (ends refl)

-- With one thread, which runs every round, on a graph with a vertex, a query for the components
-- that has to run the rounds does not use up the fuel of the model. Either it is stuck, on a failed
-- assertion or a read past an end of the merge instructions; or it replies or throws, and leaves
-- every sketch of a vertex with its contents and all its samples, and the delta sketches as they
-- were. If it replies, updates may go on and the partition holds the answer; if it throws, every
-- later batch throws UpdateLockedException.
pub connected_components-Settled :
    (m : Machine) (a : CcSketchAlg)
    → IsSingle m a.num_vertices
    → 0 < a.num_vertices
    → a.shared_dsu_valid ≡ false
    → (connected_components m a ≡ query_stuck) ⊎ Settled a (connected_components m a)
connected_components-Settled m a single some_vertex stale =
    stuck_or_Settled a (connected_components m a) (connected_components-Left m a stale)
      (connected_components_ends m a single some_vertex)
