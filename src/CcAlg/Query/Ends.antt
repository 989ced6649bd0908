-- ===== src/CcAlg/Query/Ends.antt =====
-- src/cc_sketch_alg.cpp: the loop of rounds ends, with one thread.
use graph_zeppelin.Base.{
  ℕ, zero, suc, ◌+◌, ◌≤◌, ◌<◌, ◌≡◌, ◌≢◌, ◌⊎◌, inl, inr, refl, sym, ◌∙◌, ap, subst, arith, true,
  List, [], ◌∷◌, Option, none, some, ◌==◌, eq-cases, if_elim,
}
use graph_zeppelin.CcAlg.{CcSketchAlg}
use graph_zeppelin.CcAlg.Query.{
  Machine, Query, replied, query_threw, query_stuck, query_out_of_fuel, ◌>>=◌, after_instrs,
  after_round, emulation_loop, boruvka_emulation, settle, read_components, connected_components,
}
use graph_zeppelin.CcAlg.Round.{MergeInstr, GlobalMergeData, RoundState, perform_boruvka_round}
use graph_zeppelin.CcAlg.Round.Keep.{outline}
use graph_zeppelin.CcAlg.Round.Threads.{perform_boruvka_round-Same}
use graph_zeppelin.CcAlg.Round.Whenever.{Whenever, Whenever-map}
use graph_zeppelin.CcAlg.Round.Spent.{IsWhole, run_threads-except}
use graph_zeppelin.Dsu.{Dsu}
use graph_zeppelin.ReturnTypes.{ConnectedComponents, new_connected_components}

-- Not the end of the fuel.
abbrev Ends : {A : Type 0} → Query A → Type 0
Ends (replied x a) = Unit
Ends (query_threw a) = Unit
Ends query_stuck = Unit
Ends query_out_of_fuel = ⊥

-- One thread runs every round, on all the vertices.
pub record IsSingle (m : Machine) (n : ℕ) : Type 0 where
  pub one : m.num_threads ≡ 1
  pub turn : (r : ℕ) → m.schedule r ≡ 0 ∷ []
  pub whole : IsWhole m.partition n

module _ (m : Machine) (n : ℕ) (single : IsSingle m n) (some_vertex : 0 < n) where
  -- A later round past the last sample throws.
  later_round-except :
      (r : ℕ) (instrs : List MergeInstr) (globals : List GlobalMergeData) (a : CcSketchAlg)
      → a.num_vertices ≡ n
      → m.blank.num_samples ≤ r
      → 0 < r
      → Whenever
          (λ (st : RoundState). st.except ≡ true)
          (perform_boruvka_round m.hashes
            (m.failures r)
            m.partition
            m.blank
            m.num_threads
            (m.schedule r)
            m.order
            r
            instrs
            globals
            a)
  unfolding perform_boruvka_round
  later_round-except r instrs globals a size past later =
      if_elim (Whenever (λ (st : RoundState). st.except ≡ true)) (r == 0) _ _
        (λ z. absurd (ground (arith, z, later)))
        (λ _.
          rw (single.one, single.turn r)
            (run_threads-except m.hashes (m.failures r) m.partition m.blank r instrs _ past
              (omega (arith, size, some_vertex))
              (subst (IsWhole m.partition) (sym size) single.whole)))

  after_instrs-Ends :
      (next : List MergeInstr → List GlobalMergeData → CcSketchAlg → Query (Unit {0}))
      (st : RoundState) (o : Option (Dsu × List MergeInstr))
      → ((instrs : List MergeInstr) (globals : List GlobalMergeData) (a : CcSketchAlg)
          → a.num_vertices ≡ n
          → Ends (next instrs globals a))
      → st.alg.num_vertices ≡ n
      → Ends (after_instrs m next st o)
  unfolding after_instrs
  after_instrs-Ends next st none k size = tt
  after_instrs-Ends next st (some (d, instrs)) k size = k instrs st.global_merges _ size

  -- A round either throws, or there is fuel for the rest.
  after_round-Ends :
      (next : List MergeInstr → List GlobalMergeData → CcSketchAlg → Query (Unit {0})) (r : ℕ)
      (instrs : List MergeInstr) (o : Option RoundState)
      → (Whenever (λ (st : RoundState). st.except ≡ true) o
          ⊎ ((instrs : List MergeInstr) (globals : List GlobalMergeData) (a : CcSketchAlg)
              → a.num_vertices ≡ n
              → Ends (next instrs globals a)))
      → Whenever (λ (st : RoundState). st.alg.num_vertices ≡ n) o
      → Ends (after_round m next r instrs o)
  unfolding after_round
  after_round-Ends next r instrs none k size = tt
  after_round-Ends next r instrs (some st) k size =
      if_elim Ends st.except _ _ (λ _. tt)
        λ kept.
          if_elim Ends st.modified _ _
            (λ _.
              after_instrs-Ends next st _
                (elim k [ inl thrown ↦ absurd (ground (arith, kept, thrown)) | inr k' ↦ k' ]) size)
            (λ _. tt)

  emulation_loop-Ends :
      (fuel r : ℕ) (instrs : List MergeInstr) (globals : List GlobalMergeData) (a : CcSketchAlg)
      → m.blank.num_samples + 2 ≤ fuel + r
      → 0 < fuel
      → a.num_vertices ≡ n
      → Ends (emulation_loop m fuel r instrs globals a)
  unfolding emulation_loop outline
  emulation_loop-Ends zero r instrs globals a enough some_fuel size = absurd (omega arith)
  emulation_loop-Ends (suc fuel) r instrs globals a enough some_fuel size =
      let round =
        perform_boruvka_round m.hashes (m.failures r) m.partition m.blank m.num_threads
          (m.schedule r) m.order r instrs globals a in
      let kept =
        Whenever-map (λ st. outline st.alg ≡ outline a) (λ st. st.alg.num_vertices ≡ n) round
          (λ st o. ap (λ (b : CcSketchAlg). b.num_vertices) o ∙ size)
          (perform_boruvka_round-Same m.hashes (m.failures r) m.partition m.blank m.num_threads
            (m.schedule r) m.order r instrs globals a) in
      after_round-Ends (emulation_loop m fuel (r + 1)) r instrs round
        (elim (eq-cases fuel 0) [
          | inl none_left ↦
              inl (later_round-except r instrs globals a size (omega arith) (omega arith))
          | inr some_left ↦ inr (λ is gs b size'.
              emulation_loop-Ends fuel (r + 1) is gs b (omega arith) (ground (arith, some_left))
                size')
        ])
        kept

  emulation-Ends : (a : CcSketchAlg) → a.num_vertices ≡ n → Ends (boruvka_emulation m a)
  unfolding boruvka_emulation
  emulation-Ends a size =
      emulation_loop-Ends (m.blank.num_samples + 2) 0 _ _ _ (omega arith) (omega arith) size

  read_components-Ends :
      (a : CcSketchAlg) (o : Option (Dsu × ConnectedComponents)) → Ends (read_components m a o)
  unfolding read_components
  read_components-Ends a none = tt
  read_components-Ends a (some (d, cc)) = tt

  settled-Ends :
      (q : Query (Unit {0}))
      → Ends q
      → Ends (
          settle m q >>= λ _ a'.
          read_components m a' (new_connected_components a'.num_vertices a'.dsu))
  unfolding settle
  settled-Ends (replied x a) e = read_components-Ends _ _
  settled-Ends (query_threw a) e = tt
  settled-Ends query_stuck e = tt
  settled-Ends query_out_of_fuel e = e

Ends-fuel : {A : Type 0} (q : Query A) → Ends q → q ≢ query_out_of_fuel
Ends-fuel (replied x a) e = cc
Ends-fuel (query_threw a) e = cc
Ends-fuel query_stuck e = cc
Ends-fuel query_out_of_fuel e = absurd e

-- With one thread, on a graph with a vertex, a query for the components ends: the fuel of the
-- model, two rounds more than a sketch has samples, is never used up. It replies, throws, or meets
-- a failed assertion.
pub connected_components_ends :
    (m : Machine) (a : CcSketchAlg)
    → IsSingle m a.num_vertices
    → 0 < a.num_vertices
    → connected_components m a ≢ query_out_of_fuel
unfolding connected_components
connected_components_ends m a single some_vertex =
    let read : Query (Unit {0}) → Query ConnectedComponents =
      λ q. (q >>= λ _ a'. read_components m a' (new_connected_components a'.num_vertices a'.dsu)) in
    if_elim (λ q. read q ≢ query_out_of_fuel) a.shared_dsu_valid (replied tt a)
      (settle m (boruvka_emulation m a))
      (λ _. Ends-fuel _ (read_components-Ends m a.num_vertices single some_vertex a _))
      (λ _. Ends-fuel _ (
        settled-Ends m a.num_vertices single some_vertex _
          (emulation-Ends m a.num_vertices single some_vertex a refl)))
