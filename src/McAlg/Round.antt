-- ===== src/McAlg/Round.antt =====
-- src/mc_sketch_alg.cpp: the rounds over one sketch graph. The code repeats the text of
-- CCSketchAlg with the sketches at an offset; the model runs the functions of that text
-- (CcAlg.Supernode, CcAlg.Round, CcAlg.Instr) on the sketches of the graph, and writes them back.
use graph_zeppelin.Base.{
  ℕ, zero, suc, ◌+◌, ◌*◌, Bool, false, List, [], ◌∷◌, Option, some, map, ◌==◌, if◌then◌else◌, set,
}
use graph_zeppelin.CcAlg.{CcSketchAlg}
use graph_zeppelin.CcAlg.Instr
use graph_zeppelin.CcAlg.Round.{MergeInstr, GlobalMergeData, new_global, RoundState}
use graph_zeppelin.CcAlg.Round
use graph_zeppelin.CcAlg.Query.{Machine}
use graph_zeppelin.Dsu.{◌>>=◌}
use graph_zeppelin.McAlg.{McSketchAlg, sketch_at}
use graph_zeppelin.Pairing.{u32}
use graph_zeppelin.Sketch.{Sketch}

-- The `left` sketches from index `i` on. A graph that is not allocated has none.
unfoldable pub read_graph : List (Option Sketch) → ℕ → ℕ → Option (List Sketch)
unfolding sketch_at
read_graph sketches zero i = some []
read_graph sketches (suc left) i = sketch_at sketches (u32 i) >>= λ skt.
    read_graph sketches left (i + 1) >>= λ rest. some (skt ∷ rest)

-- Stores sketches from index `i` on.
unfoldable pub write_graph : List (Option Sketch) → ℕ → List Sketch → List (Option Sketch)
write_graph sketches i [] = sketches
write_graph sketches i (skt ∷ rest) = write_graph (set sketches (u32 i) (some skt)) (i + 1) rest

-- The members that both classes have, with the sketches of one graph.
unfoldable pub view : McSketchAlg → List Sketch → CcSketchAlg
view a sketches = record {
  num_vertices = a.num_vertices;
  seed = a.seed;
  update_locked = a.update_locked;
  sketches = sketches;
  dsu = a.dsu;
  dsu_valid = a.dsu_valid;
  shared_dsu_valid = a.shared_dsu_valid;
  spanning_forest = a.spanning_forest;
  delta_sketches = a.delta_sketches;
  last_query_rounds = a.last_query_rounds;
}

-- What a round may change: the partition, the forest and the sample counts of the graph.
unfoldable pub put_back : ℕ → McSketchAlg → CcSketchAlg → McSketchAlg
unfolding write_graph
put_back graph_id a c = record a {
  sketches = write_graph a.sketches (graph_id * a.num_vertices) c.sketches;
  dsu = c.dsu;
  spanning_forest = c.spanning_forest;
}

-- What a round comes to: `except` tells that a sample threw.
pub record KRoundState : Type 0 where
  pub alg : McSketchAlg
  pub global_merges : List GlobalMergeData
  pub modified : Bool
  pub except : Bool

unfoldable pub k_round_of : ℕ → McSketchAlg → RoundState → KRoundState
unfolding put_back
k_round_of graph_id a st = record {
  alg = put_back graph_id a st.alg;
  global_merges = st.global_merges;
  modified = st.modified;
  except = st.except;
}

module _ (m : Machine) where
  unfoldable pub run_k_round_zero : ℕ → ℕ → List GlobalMergeData → McSketchAlg → Option KRoundState
  unfolding read_graph view k_round_of
  run_k_round_zero graph_id cur_round globals a =
      read_graph a.sketches a.num_vertices (graph_id * a.num_vertices) >>= λ sketches.
      Round.round_zero_loop m.hashes (m.failures cur_round) m.order (record {
        alg = view a sketches;
        global_merges = globals;
        modified = false;
        except = false;
      })
      >>= λ st. some (k_round_of graph_id a st)

  unfoldable pub perform_k_boruvka_round :
      ℕ → List MergeInstr → List GlobalMergeData → ℕ → McSketchAlg → Option KRoundState
  unfolding read_graph view k_round_of run_k_round_zero
  perform_k_boruvka_round cur_round merge_instr globals graph_id a =
      let later = read_graph a.sketches a.num_vertices (graph_id * a.num_vertices) >>= λ sketches.
      Round.run_threads m.hashes (m.failures cur_round) m.partition m.blank cur_round merge_instr
        m.num_threads (m.schedule cur_round)
        (record {
          alg = view a sketches;
          global_merges = map Round.clear_global globals;
          modified = false;
          except = false;
        })
      >>= λ st. some (k_round_of graph_id a st) in
      if cur_round == 0 then run_k_round_zero graph_id cur_round globals a else later

  -- The rounds of `boruvka_emulation` read the sketches from index 0 on: those of graph 0.
  unfoldable pub run_round_zero : ℕ → List GlobalMergeData → McSketchAlg → Option KRoundState
  run_round_zero cur_round globals a = run_k_round_zero 0 cur_round globals a

  unfoldable pub perform_boruvka_round :
      ℕ → List MergeInstr → List GlobalMergeData → McSketchAlg → Option KRoundState
  perform_boruvka_round cur_round merge_instr globals a =
      perform_k_boruvka_round cur_round merge_instr globals 0 a

  unfoldable pub create_merge_instructions :
      ℕ → List MergeInstr → McSketchAlg → Option (List MergeInstr × McSketchAlg)
  create_merge_instructions cur_round merge_instr a =
      Instr.create_merge_instructions m.partition a.num_vertices m.num_threads
        (m.schedule cur_round) a.dsu merge_instr
      >>= λ (d, instrs). some (instrs, record a { dsu = d })
