-- ===== src/McAlg/Cut.antt =====
-- src/mc_sketch_alg.cpp: calc_minimum_cut. VieCut's search for a minimum cut is a parameter: of the
-- number of vertices and the edges it gives the value of a cut, and whether a vertex is in it.
pub mod Sides
use graph_zeppelin.Base.{
  ℕ, zero, suc, ◌+◌, ◌-◌, ◌*◌, ◌≤◌, ◌<◌, ◌≡◌, ◌≢◌, ◌⊎◌, ◌↔◌, inl, inr, refl, sym, ◌∙◌, ap, subst,
  arith, Bool, true, false, not, ◌&&◌, ◌||◌, List, [], ◌∷◌, ◌++◌, Option, none, some, map, lookup,
  length, ltb, leb, ◌==◌, ==_iff, if◌then◌else◌, Option-cases, Bool-cases, eq-cases, some_eq,
  get_or, set, contains, alter, replicate, dec_lt, dec_le,
}
use mathlib.Core.Path.{ap₂, subst₂}
use graph_zeppelin.Pairing.{Edge}
use graph_zeppelin.ReturnTypes.{ordered_insert}

pub record MinCut : Type 0 where
  pub left_vertices : List ℕ
  pub right_vertices : List ℕ
  pub value : ℕ

-- What perform_minimum_cut leaves: the value, and getNodeInCut.
pub record Cut : Type 0 where
  pub weight : ℕ
  pub node_in_cut : ℕ → Bool

-- The loop over the vertices, from vertex `i` with `left` to go: the two sides.
unfoldable pub split_vertices : (ℕ → Bool) → ℕ → ℕ → List ℕ × List ℕ → List ℕ × List ℕ
unfolding ordered_insert
split_vertices in_cut zero i sides = sides
split_vertices in_cut (suc left) i (lefts, rights) =
    split_vertices in_cut left (i + 1)
      (if in_cut i then (ordered_insert i lefts, rights) else (lefts, ordered_insert i rights))

unfoldable pub calc_minimum_cut : (ℕ → List Edge → Cut) → ℕ → List Edge → MinCut
unfolding split_vertices
calc_minimum_cut perform_minimum_cut num_vertices edges =
    let cut = perform_minimum_cut num_vertices edges in
    let (left, right) = split_vertices cut.node_in_cut num_vertices 0 ([], []) in
    record { left_vertices = left; right_vertices = right; value = cut.weight }
