-- ===== src/McAlg/Ends.antt =====
-- src/mc_sketch_alg.cpp: the loop of k_boruvka_emulation ends, with one thread.
use graph_zeppelin.Base.{
  ℕ, zero, suc, ◌+◌, ◌*◌, ◌≤◌, ◌<◌, ◌≡◌, ◌⊎◌, inl, inr, refl, sym, ◌∙◌, subst, arith, true, false,
  List, Option, none, some, map, ◌==◌, eq-cases, if_elim,
}
use graph_zeppelin.CcAlg.Query.{Machine}
use graph_zeppelin.CcAlg.Query.Ends.{IsSingle}
use graph_zeppelin.CcAlg.Round.{MergeInstr, GlobalMergeData, RoundState, clear_global}
use graph_zeppelin.CcAlg.Round
use graph_zeppelin.CcAlg.Round.Spent.{IsWhole, run_threads-except}
use graph_zeppelin.CcAlg.Round.Whenever.{Whenever, Whenever-bind, Whenever-eq, Whenever-map}
use graph_zeppelin.McAlg.{McSketchAlg}
use graph_zeppelin.McAlg.Keep.{Kept, k_round-Kept, instrs-Kept}
use graph_zeppelin.McAlg.Query
use graph_zeppelin.McAlg.Query.{
  Run, ran, threw, stuck, out_of_fuel, after_instrs, after_round, k_emulation_loop,
  k_boruvka_emulation, begin_emulation, swallow, calc_spanning_forest,
}
use graph_zeppelin.McAlg.Round.{
  KRoundState, read_graph, view, k_round_of, perform_k_boruvka_round, create_merge_instructions,
}
use graph_zeppelin.ReturnTypes.{new_spanning_forest}
use graph_zeppelin.Sketch.{Sketch}

-- Not the end of the fuel.
abbrev pub Ends : {A : Type 0} → Run A → Type 0
Ends (ran x a) = Unit
Ends (threw a) = Unit
Ends stuck = Unit
Ends out_of_fuel = ⊥

module _ (m : Machine) (n : ℕ) (single : IsSingle m n) (some_vertex : 0 < n) (graph_id : ℕ) where
  abbrev IsThrown : KRoundState → Type 0
  IsThrown st = st.except ≡ true

  -- A later round past the last sample throws.
  later_round-except :
      (r : ℕ) (instrs : List MergeInstr) (globals : List GlobalMergeData) (a : McSketchAlg)
      → a.num_vertices ≡ n
      → m.blank.num_samples ≤ r
      → 0 < r
      → Whenever IsThrown (perform_k_boruvka_round m r instrs globals graph_id a)
  unfolding perform_k_boruvka_round k_round_of view
  later_round-except r instrs globals a size past later =
      let begin : List Sketch → RoundState = λ skts. record {
        alg = view a skts;
        global_merges = map clear_global globals;
        modified = false;
        except = false;
      } in
      if_elim (Whenever IsThrown) (r == 0) _ _ (λ z. absurd (ground (arith, z, later)))
        (λ _.
          Whenever-eq IsThrown (read_graph a.sketches a.num_vertices (graph_id * a.num_vertices)) _
            λ skts _.
              Whenever-bind (λ (st : RoundState). st.except ≡ true) IsThrown
                (Round.run_threads m.hashes (m.failures r) m.partition m.blank r instrs
                  m.num_threads (m.schedule r) (begin skts))
                _
                (rw (single.one, single.turn r)
                  (run_threads-except m.hashes (m.failures r) m.partition m.blank r instrs
                    (begin skts) past (omega (arith, size, some_vertex))
                    (subst (IsWhole m.partition) (sym size) single.whole)))
                λ st q. q)

  -- The rest of the loop ends.
  abbrev Continues :
      (List MergeInstr → List GlobalMergeData → McSketchAlg → Run (Unit {0})) → Type 0
  Continues next =
      (instrs : List MergeInstr) (globals : List GlobalMergeData) (a : McSketchAlg)
      → a.num_vertices ≡ n
      → Ends (next instrs globals a)

  after_instrs-Ends :
      (next : List MergeInstr → List GlobalMergeData → McSketchAlg → Run (Unit {0}))
      (globals : List GlobalMergeData) (o : Option (List MergeInstr × McSketchAlg))
      → Continues next
      → Whenever (λ (s : List MergeInstr × McSketchAlg). s.1.num_vertices ≡ n) o
      → Ends (after_instrs m next globals o)
  unfolding after_instrs
  after_instrs-Ends next globals none k size = tt
  after_instrs-Ends next globals (some (instrs, a)) k size = k instrs globals a size

  -- A round either throws, or there is fuel for the rest.
  after_round-Ends :
      (next : List MergeInstr → List GlobalMergeData → McSketchAlg → Run (Unit {0}))
      (finish : McSketchAlg → McSketchAlg) (r : ℕ) (instrs : List MergeInstr)
      (o : Option KRoundState)
      → (Whenever IsThrown o ⊎ Continues next)
      → Whenever (λ (st : KRoundState). st.alg.num_vertices ≡ n) o
      → Ends (after_round m next finish r instrs o)
  unfolding after_round
  after_round-Ends next finish r instrs none k size = tt
  after_round-Ends next finish r instrs (some st) k size =
      let kept =
        Whenever-map (λ (s : List MergeInstr × McSketchAlg). Kept st.alg s.1)
          (λ s. s.1.num_vertices ≡ n) (create_merge_instructions m r instrs st.alg)
          (λ s p. p.0 ∙ size) (instrs-Kept m graph_id st.alg st.alg r instrs (refl, λ j. refl)) in
      if_elim Ends st.except _ _ (λ _. tt)
        λ calm.
          if_elim Ends st.modified _ _
            (λ _.
              after_instrs-Ends next st.global_merges _
                (elim k [ inl thrown ↦ absurd (ground (arith, calm, thrown)) | inr k' ↦ k' ]) kept)
            (λ _. tt)

  k_loop-Ends :
      (fuel r : ℕ) (instrs : List MergeInstr) (globals : List GlobalMergeData) (a : McSketchAlg)
      → m.blank.num_samples + 2 ≤ fuel + r
      → 0 < fuel
      → a.num_vertices ≡ n
      → Ends (k_emulation_loop m graph_id fuel r instrs globals a)
  unfolding k_emulation_loop
  k_loop-Ends zero r instrs globals a enough some_fuel size = absurd (omega arith)
  k_loop-Ends (suc fuel) r instrs globals a enough some_fuel size =
      let round = perform_k_boruvka_round m r instrs globals graph_id a in
      let kept =
        Whenever-map (λ st. Kept a st.alg) (λ st. st.alg.num_vertices ≡ n) round
          (λ st p. p.0 ∙ size) (k_round-Kept m graph_id r instrs globals a) in
      after_round-Ends (k_emulation_loop m graph_id fuel (r + 1))
        (λ a'. record a' { update_locked = false }) r instrs round
        (elim (eq-cases fuel 0) [
          | inl none_left ↦
              inl (later_round-except r instrs globals a size (omega arith) (omega arith))
          | inr some_left ↦ inr (λ is gs b size'.
              k_loop-Ends fuel (r + 1) is gs b (omega arith) (ground (arith, some_left)) size')
        ])
        kept

  swallow-Ends :
      (q : Run (Unit {0}))
      → Ends q
      → Ends (
          Query.◌>>=◌
            (swallow m q)
            λ _ a'. ran (new_spanning_forest a'.num_vertices a'.spanning_forest) a')
  unfolding swallow
  swallow-Ends (ran x a) e = tt
  swallow-Ends (threw a) e = tt
  swallow-Ends stuck e = tt
  swallow-Ends out_of_fuel e = e

  pub calc_spanning_forest-Ends :
      (a : McSketchAlg) → a.num_vertices ≡ n → Ends (calc_spanning_forest m graph_id a)
  unfolding calc_spanning_forest k_boruvka_emulation begin_emulation
  calc_spanning_forest-Ends a size = swallow-Ends (k_boruvka_emulation m graph_id a) (
      k_loop-Ends (m.blank.num_samples + 2) 0 _ _ (begin_emulation m a) (omega arith) (omega arith)
        size)
