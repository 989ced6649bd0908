-- ===== src/McAlg/Filter/Restored.antt =====
-- src/mc_sketch_alg.cpp: calc_disjoint_spanning_forests restores the sketches.
use graph_zeppelin.Base.{ℕ, ◌*◌, ◌≡◌, List, [], ◌∷◌, ◌++◌}
use graph_zeppelin.Bucket.{Hashes}
use graph_zeppelin.CcAlg.Query.{Machine}
use graph_zeppelin.McAlg.Ends.{Ends}
use graph_zeppelin.McAlg.Filter.Contents.{Changed, contents}
use graph_zeppelin.McAlg.Query.{Run, ran, threw, stuck, out_of_fuel}
use graph_zeppelin.McAlg.{McSketchAlg, Sketch}
use graph_zeppelin.CcAlg.Round.Whenever.{Whenever}
use graph_zeppelin.McAlg.Filter.Uniform.{filter_threads-IsUniform}
use graph_zeppelin.McAlg.Query
use graph_zeppelin.Pairing.{Edge}
use graph_zeppelin.ReturnTypes.{SpanningForest, get_sorted_adjacency}

-- The vertices are the same, and each sketch has taken some updates.
abbrev Moved : Hashes → (ℕ → List ℕ) → McSketchAlg → McSketchAlg → Type 0
Moved h xs a a' = (a'.num_vertices ≡ a.num_vertices) × Changed h xs a.sketches a'.sketches

-- The run throws nothing and does not end the fuel, and what it returns has the property.
abbrev Returns : {A : Type 0} → (A → McSketchAlg → Type 0) → Run A → Type 0
Returns P (ran x a) = P x a
Returns P (threw a) = ⊥
Returns P stuck = Unit
Returns P out_of_fuel = ⊥

module _ (m : Machine) (sort : List Edge → List Edge) (schedule : List ℕ) (graph_id n : ℕ) where
  -- The updates that a forest stands for.
  abbrev updates_of : SpanningForest → ℕ → List ℕ
  updates_of sf =
      (filter_threads-IsUniform m.hashes (graph_id * n) m.partition m.num_threads
        (get_sorted_adjacency sort sf) schedule).0

  abbrev updates_of_all : List SpanningForest → ℕ → List ℕ
  updates_of_all [] i = []
  updates_of_all (sf ∷ sfs) i = updates_of sf i ++ updates_of_all sfs i

-- The query returns, and every sketch of every graph has the contents that it had.
abbrev pub Restores : McSketchAlg → Run (List SpanningForest) → Type 0
Restores a (ran sfs a') = (i : ℕ) → contents a'.sketches i ≡ contents a.sketches i
Restores a (threw a') = ⊥
Restores a stuck = ⊥
Restores a out_of_fuel = ⊥
