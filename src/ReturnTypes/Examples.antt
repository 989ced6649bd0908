-- ===== src/ReturnTypes/Examples.antt =====
-- Tests of the answer for a set of four vertices, of which two are joined.
use graph_zeppelin.Base.{ℕ, ◌<◌, ◌≡◌, ◌↔◌, refl, arith, true, [], ◌∷◌, some}
use graph_zeppelin.ReturnTypes.{
  ConnectedComponents, is_connected, get_component_sets, collect_roots, new_connected_components,
}
use graph_zeppelin.ReturnTypes.Sets.{together, get_component_sets-is_connected}
use graph_zeppelin.Dsu.{Dsu, find_root, find_loop}
use graph_zeppelin.Dsu.FindRoot.{IsValid}
use graph_zeppelin.Dsu.Merge.{SameSet}
use graph_zeppelin.ReturnTypes.Connectivity.{KeepsSets, new_connected_components-SameSet}

-- Vertex 3 below vertex 1, which has the same priority.
abbrev joined : Dsu
joined = record { n = 4; parent = 0 ∷ 1 ∷ 2 ∷ 1 ∷ []; priority = 7 ∷ 7 ∷ 7 ∷ 7 ∷ [] }

joined-IsValid : IsValid joined
joined-IsValid = record {
  forest = record { size = refl; bounded = λ u lt. ground arith; above = λ u lt ne. ground arith };
  drawn = refl;
}

components_run :
    new_connected_components 4 joined
    ≡ some (joined, record { parent_arr = 0 ∷ 1 ∷ 2 ∷ 1 ∷ []; num_vertices = 4; num_cc = 3 })
unfolding new_connected_components collect_roots find_root find_loop
components_run = refl

new_connected_components-SameSet_example :
    (d' : Dsu) × (c : ConnectedComponents) × (new_connected_components 4 joined ≡ some (d', c))
    × ((a b : ℕ) → a < 4 → b < 4 → (is_connected c a b ≡ true) ↔ SameSet joined a b)
    × KeepsSets joined d'
new_connected_components-SameSet_example =
    new_connected_components-SameSet 4 joined joined-IsValid (omega arith)

-- Vertices 0 and 2 under root 2, and vertex 1 alone.
abbrev two_sets : ConnectedComponents
two_sets = record { parent_arr = 2 ∷ 1 ∷ 2 ∷ []; num_vertices = 3; num_cc = 2 }

sets_in_order : get_component_sets two_sets ≡ (1 ∷ []) ∷ (0 ∷ 2 ∷ []) ∷ []
unfolding get_component_sets
sets_in_order = refl

get_component_sets-is_connected_example :
    (together 0 2 (get_component_sets two_sets) ≡ true) ↔ (is_connected two_sets 0 2 ≡ true)
get_component_sets-is_connected_example =
    get_component_sets-is_connected two_sets 0 2 (omega arith) (omega arith)
