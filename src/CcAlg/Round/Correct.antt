-- ===== src/CcAlg/Round/Correct.antt =====
-- A round of one thread, from its instructions to what it tells.
use graph_zeppelin.Base.{ℕ, ◌<◌, ◌≡◌, ◌≢◌, ◌⊎◌, ◌∙◌, Bool, true, List, [], ◌∷◌, some, length}
use mathlib.Core.List.{Memᴰ}
use graph_zeppelin.Bucket.{Hashes}
use graph_zeppelin.CcAlg.{CcSketchAlg}
use graph_zeppelin.CcAlg.Forest.{IsEager}
use graph_zeppelin.CcAlg.Round.{
  MergeInstr, GlobalMergeData, Partition, RoundState, perform_boruvka_round,
}
use graph_zeppelin.CcAlg.Round.Groups.{groups}
use graph_zeppelin.CcAlg.Round.Pass.{ArePartition, IsTrusted, sample_groups-IsEager}
use graph_zeppelin.CcAlg.Round.Progress.{IsSound}
use graph_zeppelin.CcAlg.Round.Single.{IsBlank, single_round, round_start}
use graph_zeppelin.Sketch.{Sketch}

-- Take one thread, whose part is all of the vertices, in a round after round zero. Let the forest
-- be a part of the graph whose components are the sets of the partition, let the instructions
-- list these sets, and let the sum of the sketches of each set be trusted to answer for the edges
-- that leave the set. The round ends without a failed assertion, and the forest is still a part
-- of the graph whose components are the sets. If no sample threw and none asks for another
-- round, then the sets are the components of the graph.
pub single_round-IsEager :
    (h : Hashes) (failures : ℕ → ℕ) (p : Partition) (blank : Sketch) (order : List ℕ)
    (cur_round : ℕ) (instr : MergeInstr) (instrs : List MergeInstr) (globals : List GlobalMergeData)
    (a : CcSketchAlg) (graph : ℕ → ℕ → Bool)
    → IsBlank blank
    → cur_round ≢ 0
    → length (instr ∷ instrs) ≡ a.num_vertices
    → p.first_of a.num_vertices 0 1 ≡ 0
    → p.first_of a.num_vertices 1 1 ≡ a.num_vertices
    → IsSound a.num_vertices graph a
    → ((x y : ℕ) → graph x y ≡ true → (x < a.num_vertices) × (y < a.num_vertices))
    → ArePartition a.num_vertices a (groups (instr ∷ instrs))
    → ((g : ℕ × List ℕ)
        → Memᴰ g (groups (instr ∷ instrs))
        → IsTrusted h a.num_vertices graph a.sketches cur_round blank g.1)
    → (st : RoundState) × (perform_boruvka_round h failures p blank 1
          (0 ∷ [])
          order
          cur_round
          (instr ∷ instrs)
          globals
          a
        ≡ some st)
      × IsSound a.num_vertices graph st.alg
      × ((st.except ≡ true)
          ⊎ ((st.modified ≡ true) ⊎ IsEager a.num_vertices st.alg.dsu st.alg.spanning_forest graph))
single_round-IsEager h failures p blank order r instr instrs globals a graph b late size first last
      i range parts trust =
    let (st, e, sound, told) =
      sample_groups-IsEager h failures r a.num_vertices graph blank (groups (instr ∷ instrs))
        (round_start a globals) i range parts trust in
    (
      st,
      single_round h failures p blank order r instr instrs globals a b late size first last ∙ e,
      sound,
      told,
    )
