-- ===== src/McAlg/Query.antt =====
-- src/mc_sketch_alg.cpp: the queries. A query returns, throws the exception of a sketch, meets a
-- failed assertion or a sketch that is not there, or runs out of the model's fuel, as in
-- CcAlg.Query. The minimum cut of the library VieCut is a parameter.
use graph_zeppelin.Base.{
  ℕ, zero, suc, ◌+◌, Bool, true, false, List, [], Option, none, some, map, ◌==◌, if◌then◌else◌, set,
  replicate,
}
use graph_zeppelin.CcAlg.Round.{MergeInstr, GlobalMergeData, new_global}
use graph_zeppelin.CcAlg.Query.{Machine, first_instrs}
use graph_zeppelin.Dsu.{Dsu, find_root, reset}
use graph_zeppelin.Dsu
use graph_zeppelin.McAlg.{McSketchAlg, sketch_at}
use graph_zeppelin.McAlg.Round.{
  KRoundState, perform_k_boruvka_round, perform_boruvka_round, create_merge_instructions,
}
use graph_zeppelin.ReturnTypes.{
  ConnectedComponents, new_connected_components, SpanningForest, new_spanning_forest,
}
use graph_zeppelin.Sketch.{Sketch, reset_sample_state}

pub data Run (A : Type 0) : Type 0 where
  ran : A → McSketchAlg → Run A
  threw : McSketchAlg → Run A
  stuck out_of_fuel : Run A

infixl 5 ◌>>=◌
abbrev pub ◌>>=◌ : {A B : Type 0} → Run A → (A → McSketchAlg → Run B) → Run B
ran x a >>= f = f x a
threw a >>= f = threw a
stuck >>= f = stuck
out_of_fuel >>= f = out_of_fuel

-- A step that fails only by a failed assertion or a missing sketch.
abbrev pub lift : McSketchAlg → Option McSketchAlg → Run (Unit {0})
lift a none = stuck
lift a (some a') = ran tt a'

abbrev Next : Type 0
Next = List MergeInstr → List GlobalMergeData → McSketchAlg → Run (Unit {0})

module _ (m : Machine) where
  -- The instructions of the next round, unless an assertion fails.
  unfoldable pub after_instrs :
      Next → List GlobalMergeData → Option (List MergeInstr × McSketchAlg) → Run (Unit {0})
  after_instrs next globals none = stuck
  after_instrs next globals (some (instrs, a)) = next instrs globals a

  -- What follows a round; `next` is the rest of the loop, and `finish` what the code does last.
  unfoldable pub after_round :
      Next → (McSketchAlg → McSketchAlg) → ℕ → List MergeInstr → Option KRoundState → Run (Unit {0})
  unfolding after_instrs
  after_round next finish round_num instrs none = stuck
  after_round next finish round_num instrs (some st) =
      let again =
        after_instrs next st.global_merges (create_merge_instructions m round_num instrs st.alg) in
      if st.except
      then threw st.alg
      else if st.modified
      then again
      else ran tt (finish (record st.alg { last_query_rounds = round_num }))

  -- The state in which the loop of an emulation begins.
  unfoldable pub begin_emulation : McSketchAlg → McSketchAlg
  begin_emulation a = record a {
    update_locked = true;
    dsu = reset a.dsu;
    spanning_forest = map (λ row. []) a.spanning_forest;
  }

  unfoldable pub emulation_loop :
      ℕ → ℕ → List MergeInstr → List GlobalMergeData → McSketchAlg → Run (Unit {0})
  unfolding after_round
  emulation_loop zero round_num instrs globals a = out_of_fuel
  emulation_loop (suc fuel) round_num instrs globals a =
      after_round (emulation_loop fuel (round_num + 1))
        (λ a'. record a' { dsu_valid = true; shared_dsu_valid = true; update_locked = false })
        round_num instrs (perform_boruvka_round m round_num instrs globals a)

  -- A round for each sample of a sketch, round zero, and one that finds no sample left.
  unfoldable pub boruvka_emulation : McSketchAlg → Run (Unit {0})
  unfolding emulation_loop begin_emulation
  boruvka_emulation a =
      emulation_loop (m.blank.num_samples + 2) 0 (first_instrs a.num_vertices 0)
        (replicate m.num_threads (new_global m.blank)) (begin_emulation a)

  unfoldable pub k_emulation_loop :
      ℕ → ℕ → ℕ → List MergeInstr → List GlobalMergeData → McSketchAlg → Run (Unit {0})
  unfolding after_round
  k_emulation_loop graph_id zero round_num instrs globals a = out_of_fuel
  k_emulation_loop graph_id (suc fuel) round_num instrs globals a =
      after_round (k_emulation_loop graph_id fuel (round_num + 1))
        (λ a'. record a' { update_locked = false }) round_num instrs
        (perform_k_boruvka_round m round_num instrs globals graph_id a)

  unfoldable pub k_boruvka_emulation : ℕ → McSketchAlg → Run (Unit {0})
  unfolding k_emulation_loop begin_emulation
  k_boruvka_emulation graph_id a =
      k_emulation_loop graph_id (m.blank.num_samples + 2) 0 (first_instrs a.num_vertices 0)
        (replicate m.num_threads (new_global m.blank)) (begin_emulation a)

  -- sketches[i]->reset_sample_state() for `left` vertices from `i` on.
  unfoldable pub reset_samples_loop : ℕ → ℕ → List (Option Sketch) → Option (List (Option Sketch))
  unfolding sketch_at
  reset_samples_loop zero i sketches = some sketches
  reset_samples_loop (suc left) i sketches =
      Dsu.◌>>=◌ (sketch_at sketches i)
        λ skt. reset_samples_loop left (i + 1) (set sketches i (some (reset_sample_state skt)))

  unfoldable pub reset_samples : McSketchAlg → Option McSketchAlg
  unfolding reset_samples_loop
  reset_samples a =
      Dsu.◌>>=◌ (reset_samples_loop a.num_vertices 0 a.sketches)
        λ sketches. some (record a { sketches = sketches })

  -- The `try`, the reset after it, and the exception thrown on.
  unfoldable pub settle : Run (Unit {0}) → Run (Unit {0})
  unfolding reset_samples
  settle (ran x a) = lift a (reset_samples a)
  settle (threw a) = lift a (reset_samples a) >>= λ _ a'. threw a'
  settle stuck = stuck
  settle out_of_fuel = out_of_fuel

  unfoldable pub read_components :
      McSketchAlg → Option (Dsu × ConnectedComponents) → Run ConnectedComponents
  read_components a none = stuck
  read_components a (some (d, cc)) = ran cc (record a { dsu = d })

  unfoldable pub connected_components : McSketchAlg → Run ConnectedComponents
  unfolding settle read_components
  connected_components a =
      let emulated = settle (boruvka_emulation a) in
      (if a.shared_dsu_valid then ran tt a else emulated) >>= λ _ a'.
      read_components a' (new_connected_components a'.num_vertices a'.dsu)

  unfoldable pub compare_roots : McSketchAlg → Option (Dsu × ℕ) → ℕ → Run Bool
  compare_roots alg none b = stuck
  compare_roots alg (some (d, r)) b = elim (find_root d b) [
    | none ↦ stuck
    | some (d', r') ↦ ran (r == r') (record alg { dsu = d' })
  ]

  unfoldable pub point_query : ℕ → ℕ → McSketchAlg → Run Bool
  unfolding settle compare_roots
  point_query a b alg =
      let emulated = settle (boruvka_emulation alg) in
      (if alg.dsu_valid then ran tt alg else emulated) >>= λ _ alg'.
      compare_roots alg' (find_root alg'.dsu a) b

  -- The `try`, whose exception is dropped.
  unfoldable pub swallow : Run (Unit {0}) → Run (Unit {0})
  swallow (ran x a) = ran x a
  swallow (threw a) = ran tt a
  swallow stuck = stuck
  swallow out_of_fuel = out_of_fuel

  unfoldable pub calc_spanning_forest : ℕ → McSketchAlg → Run SpanningForest
  unfolding swallow
  calc_spanning_forest graph_id a = swallow (k_boruvka_emulation graph_id a) >>= λ _ a'.
      ran (new_spanning_forest a'.num_vertices a'.spanning_forest) a'
