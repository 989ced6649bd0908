-- ===== src/McAlg/Filter/Single.antt =====
-- src/mc_sketch_alg.cpp: filter_sf_edges with one thread.
use graph_zeppelin.Base.{ℕ, ◌+◌, ◌≡◌, List, [], ◌∷◌, ◌++◌, Option, some}
use graph_zeppelin.CcAlg.Round.Whenever.{Whenever}
use graph_zeppelin.McAlg.{sketch_at}
use graph_zeppelin.McAlg.Filter.Contents.{one_update}
use graph_zeppelin.Pairing.{u32, Edge, concat_pairing_fn}
use graph_zeppelin.Sketch.{Sketch}

-- The sketch at the index is allocated.
abbrev IsThere : List (Option Sketch) → ℕ → Type 0
IsThere sketches i = (skt : Sketch) × (sketch_at sketches i ≡ some skt)

-- The source of each edge has a sketch in the graph that begins at `offset`.
abbrev pub HaveSketches : ℕ → List (Option Sketch) → List Edge → Type 0
HaveSketches offset sketches [] = Unit
HaveSketches offset sketches (e ∷ es) =
    IsThere sketches (u32 (offset + e.src)) × HaveSketches offset sketches es

-- What each sketch takes: an update for each edge from its vertex.
abbrev pub edge_updates : ℕ → List Edge → ℕ → List ℕ
edge_updates offset [] i = []
edge_updates offset (e ∷ es) i =
    one_update (u32 (offset + e.src)) (concat_pairing_fn e.src e.dst) i ++ edge_updates offset es i
