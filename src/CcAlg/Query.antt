-- ===== src/CcAlg/Query.antt =====
-- src/cc_sketch_alg.cpp: the queries. The loop of rounds runs on fuel. A query replies, throws the
-- exception of a sketch, or meets a failed assertion; it comes with the algorithm that it leaves.
pub mod Cached
pub mod Settled
pub mod Ends
pub mod Examples
use graph_zeppelin.Base.{
  ℕ, zero, suc, ◌+◌, ◌-◌, ◌*◌, ◌≤◌, ◌<◌, ◌≡◌, ◌≢◌, ◌⊎◌, ◌↔◌, inl, inr, refl, sym, ◌∙◌, ap, subst,
  arith, Bool, true, false, not, ◌&&◌, ◌||◌, List, [], ◌∷◌, ◌++◌, Option, none, some, map, lookup,
  length, ltb, leb, ◌==◌, ==_iff, if◌then◌else◌, Option-cases, Bool-cases, eq-cases, some_eq,
  get_or, set, contains, alter, replicate, dec_lt, dec_le,
}
use mathlib.Core.Path.{ap₂, subst₂}
use graph_zeppelin.Bucket.{Hashes}
use graph_zeppelin.CcAlg.{CcSketchAlg, update_edge}
use graph_zeppelin.CcAlg.Instr.{create_merge_instructions}
use graph_zeppelin.CcAlg.Round.{
  MergeInstr, GlobalMergeData, new_global, Partition, RoundState, perform_boruvka_round,
}
use graph_zeppelin.Dsu.{Dsu, find_root, reset}
use graph_zeppelin.Pairing.{Edge}
use graph_zeppelin.ReturnTypes.{
  ConnectedComponents, new_connected_components, SpanningForest, new_spanning_forest,
}
use graph_zeppelin.Sketch.{Sketch, reset_sample_state}

-- What a query depends on beside the algorithm: the threads and their order in each round, the
-- order of the vertices in round zero, the failures of the atomic set, and the sketch that is
-- allocated.
pub record Machine : Type 0 where
  pub hashes : Hashes
  pub failures : ℕ → ℕ → ℕ
  pub partition : Partition
  pub num_threads : ℕ
  pub schedule : ℕ → List ℕ
  pub order : List ℕ
  pub blank : Sketch

pub data Query (A : Type 0) : Type 0 where
  replied : A → CcSketchAlg → Query A
  query_threw : CcSketchAlg → Query A
  query_stuck query_out_of_fuel : Query A

infixl 5 ◌>>=◌
abbrev pub ◌>>=◌ : {A B : Type 0} → Query A → (A → CcSketchAlg → Query B) → Query B
replied x a >>= f = f x a
query_threw a >>= f = query_threw a
query_stuck >>= f = query_stuck
query_out_of_fuel >>= f = query_out_of_fuel

-- {i, i} for `left` vertices from `i` on.
unfoldable pub first_instrs : ℕ → ℕ → List MergeInstr
first_instrs zero i = []
first_instrs (suc left) i = record { root = i; child = i } ∷ first_instrs left (i + 1)

module _ (m : Machine) where
  -- The end of the loop: the partition is the answer, and updates may go on.
  unfoldable pub finish_emulation : ℕ → CcSketchAlg → CcSketchAlg
  finish_emulation round_num a = record a {
    last_query_rounds = round_num;
    dsu_valid = true;
    shared_dsu_valid = true;
    update_locked = false;
  }

  -- The instructions of the next round, unless an assertion fails.
  unfoldable pub after_instrs :
      (List MergeInstr → List GlobalMergeData → CcSketchAlg → Query (Unit {0}))
      → RoundState
      → Option (Dsu × List MergeInstr)
      → Query (Unit {0})
  after_instrs next st none = query_stuck
  after_instrs next st (some (d, instrs)) = next instrs st.global_merges (record st.alg { dsu = d })

  -- What follows a round; `next` is the rest of the loop.
  unfoldable pub after_round :
      (List MergeInstr → List GlobalMergeData → CcSketchAlg → Query (Unit {0}))
      → ℕ
      → List MergeInstr
      → Option RoundState
      → Query (Unit {0})
  unfolding after_instrs finish_emulation
  after_round next round_num instrs none = query_stuck
  after_round next round_num instrs (some st) =
      let again = after_instrs next st (
        create_merge_instructions m.partition st.alg.num_vertices m.num_threads
          (m.schedule round_num) st.alg.dsu instrs) in
      if st.except
      then query_threw st.alg
      else if st.modified
      then again
      else replied tt (finish_emulation round_num st.alg)

  unfoldable pub emulation_loop :
      ℕ → ℕ → List MergeInstr → List GlobalMergeData → CcSketchAlg → Query (Unit {0})
  unfolding after_round
  emulation_loop zero round_num instrs globals a = query_out_of_fuel
  emulation_loop (suc fuel) round_num instrs globals a =
      after_round (emulation_loop fuel (round_num + 1)) round_num instrs (
        perform_boruvka_round m.hashes (m.failures round_num) m.partition m.blank m.num_threads
          (m.schedule round_num) m.order round_num instrs globals a)

  -- A round for each sample of a sketch, round zero, and one that finds no sample left.
  unfoldable pub boruvka_emulation : CcSketchAlg → Query (Unit {0})
  unfolding emulation_loop first_instrs
  boruvka_emulation a =
      emulation_loop (m.blank.num_samples + 2) 0 (first_instrs a.num_vertices 0)
        (replicate m.num_threads (new_global m.blank))
        (record a {
          update_locked = true;
          dsu = reset a.dsu;
          spanning_forest = map (λ row. []) a.spanning_forest;
        })

  -- sketches[i]->reset_sample_state() for every vertex.
  unfoldable pub reset_samples : CcSketchAlg → CcSketchAlg
  reset_samples a = record a { sketches = map reset_sample_state a.sketches }

  -- The `try`, the reset after it, and the exception thrown on.
  unfoldable pub settle : Query (Unit {0}) → Query (Unit {0})
  unfolding reset_samples
  settle (replied x a) = replied x (reset_samples a)
  settle (query_threw a) = query_threw (reset_samples a)
  settle query_stuck = query_stuck
  settle query_out_of_fuel = query_out_of_fuel

  unfoldable pub read_components :
      CcSketchAlg → Option (Dsu × ConnectedComponents) → Query ConnectedComponents
  read_components a none = query_stuck
  read_components a (some (d, cc)) = replied cc (record a { dsu = d })

  unfoldable pub connected_components : CcSketchAlg → Query ConnectedComponents
  unfolding settle read_components
  connected_components a =
      let emulated = settle (boruvka_emulation a) in
      (if a.shared_dsu_valid then replied tt a else emulated) >>= λ _ a'.
      read_components a' (new_connected_components a'.num_vertices a'.dsu)

  unfoldable pub calc_spanning_forest : CcSketchAlg → Query SpanningForest
  calc_spanning_forest a = connected_components a >>= λ _ a'.
      replied (new_spanning_forest a'.num_vertices a'.spanning_forest) a'

  -- update(edge) for each edge, in a deletion or an insertion alike.
  unfoldable pub update_edges : List Edge → CcSketchAlg → Query (Unit {0})
  update_edges [] a = replied tt a
  update_edges (e ∷ es) a = elim (update_edge m.hashes 0 a e) [
    | none ↦ query_stuck
    | some a' ↦ update_edges es a'
  ]

  -- Finds `k` forests, each of which is deleted before the next is sought.
  unfoldable pub peel_forests : ℕ → ℕ → CcSketchAlg → Query (List SpanningForest × ℕ)
  unfolding update_edges
  peel_forests zero max_rounds a = replied ([], max_rounds) a
  peel_forests (suc k) max_rounds a = calc_spanning_forest a >>= λ sf a1.
      update_edges sf.edges a1 >>= λ _ a2.
      peel_forests k
        (if ltb a1.last_query_rounds max_rounds then max_rounds else a1.last_query_rounds) a2
      >>= λ (sfs, rounds) a3. replied (sf ∷ sfs, rounds) a3

  unfoldable pub restore_forests : List SpanningForest → CcSketchAlg → Query (Unit {0})
  unfolding update_edges
  restore_forests [] a = replied tt a
  restore_forests (sf ∷ sfs) a = update_edges sf.edges a >>= λ _ a'. restore_forests sfs a'

  unfoldable pub calc_disjoint_spanning_forests : ℕ → CcSketchAlg → Query (List SpanningForest)
  unfolding peel_forests restore_forests
  calc_disjoint_spanning_forests k a = peel_forests k 0 a >>= λ (sfs, max_rounds) a1.
      restore_forests sfs a1 >>= λ _ a2. replied sfs (record a2 { last_query_rounds = max_rounds })

  unfoldable pub compare_roots : CcSketchAlg → Option (Dsu × ℕ) → ℕ → Query Bool
  compare_roots alg none b = query_stuck
  compare_roots alg (some (d, r)) b = elim (find_root d b) [
    | none ↦ query_stuck
    | some (d', r') ↦ replied (r == r') (record alg { dsu = d' })
  ]

  unfoldable pub point_query : ℕ → ℕ → CcSketchAlg → Query Bool
  unfolding settle compare_roots
  point_query a b alg =
      let emulated = settle (boruvka_emulation alg) in
      (if alg.dsu_valid then replied tt alg else emulated) >>= λ _ alg'.
      compare_roots alg' (find_root alg'.dsu a) b
