-- ===== src/ReturnTypes.antt =====
-- include/return_types.h and src/return_types.cpp: the answer of a connectivity query. The
-- searches of the parallel loop are run in the order of the vertices; a failed assertion of the
-- set is `none`.
pub mod Connectivity
pub mod Examples
pub mod Sets
use graph_zeppelin.Base.{
  ℕ, zero, suc, ◌+◌, ◌-◌, ◌*◌, ◌≤◌, ◌<◌, ◌≡◌, ◌≢◌, ◌⊎◌, ◌↔◌, inl, inr, refl, sym, ◌∙◌, ap, subst,
  arith, Bool, true, false, not, ◌&&◌, ◌||◌, List, [], ◌∷◌, ◌++◌, Option, none, some, map, lookup,
  length, ltb, leb, ◌==◌, ==_iff, if◌then◌else◌, Option-cases, Bool-cases, eq-cases, some_eq,
  get_or, set, contains, alter, replicate, dec_lt, dec_le,
}
use mathlib.Core.Path.{ap₂, subst₂}
use graph_zeppelin.Pairing.{Edge}
use graph_zeppelin.Dsu.{Dsu, at, find_root, ◌>>=◌}

pub record ConnectedComponents : Type 0 where
  pub parent_arr : List ℕ
  pub num_vertices : ℕ
  pub num_cc : ℕ

-- The loop of the constructor, from vertex `i` with `left` rounds to go: the set after it, the
-- roots, and the number of vertices that are their own root.
unfoldable pub collect_roots : ℕ → ℕ → Dsu → Option (Dsu × List ℕ × ℕ)
collect_roots zero i d = some (d, [], 0)
collect_roots (suc left) i d = find_root d i >>= λ (d1, r).
    collect_roots left (i + 1) d1 >>= λ (d2, rest, temp_cc).
    some (d2, r ∷ rest, if r == i then temp_cc + 1 else temp_cc)

unfoldable pub new_connected_components : ℕ → Dsu → Option (Dsu × ConnectedComponents)
new_connected_components num_vertices d =
    collect_roots num_vertices 0 d >>= λ (d1, parent_arr, temp_cc).
    some (d1, record { parent_arr = parent_arr; num_vertices = num_vertices; num_cc = temp_cc })

unfoldable pub is_connected : ConnectedComponents → ℕ → ℕ → Bool
is_connected c a b = at c.parent_arr a == at c.parent_arr b

-- std::set::insert, in the order of the numbers.
unfoldable pub ordered_insert : ℕ → List ℕ → List ℕ
ordered_insert v [] = v ∷ []
ordered_insert v (x ∷ xs) =
    let rest = ordered_insert v xs in
    if v == x then x ∷ xs else if ltb v x then v ∷ x ∷ xs else x ∷ rest

-- temp[root].insert(v), on a map in the order of its keys.
unfoldable pub file_vertex : ℕ → ℕ → List (ℕ × List ℕ) → List (ℕ × List ℕ)
unfolding ordered_insert
file_vertex root v [] = (root, v ∷ []) ∷ []
file_vertex root v ((r, vs) ∷ temp) =
    let rest = file_vertex root v temp in
    if root == r
    then (r, ordered_insert v vs) ∷ temp
    else if ltb root r
    then (root, v ∷ []) ∷ (r, vs) ∷ temp
    else (r, vs) ∷ rest

-- The loop of get_component_sets, from vertex `i` with `left` vertices to go.
unfoldable pub file_vertices : ℕ → ℕ → List ℕ → List (ℕ × List ℕ) → List (ℕ × List ℕ)
unfolding file_vertex
file_vertices zero i parent_arr temp = temp
file_vertices (suc left) i parent_arr temp =
    file_vertices left (i + 1) parent_arr (file_vertex (at parent_arr i) i temp)

unfoldable pub get_component_sets : ConnectedComponents → List (List ℕ)
unfolding file_vertices
get_component_sets c = map (λ e. e.1) (file_vertices c.num_vertices 0 c.parent_arr [])

pub record SpanningForest : Type 0 where
  pub num_vertices : ℕ
  pub edges : List Edge

-- The edges of the rows from `src` on.
unfoldable pub forest_edges : ℕ → List (List ℕ) → List Edge
forest_edges src [] = []
forest_edges src (row ∷ rows) =
    map (λ dst. record { src = src; dst = dst }) row ++ forest_edges (src + 1) rows

unfoldable pub new_spanning_forest : ℕ → List (List ℕ) → SpanningForest
unfolding forest_edges
new_spanning_forest num_vertices spanning_forest = record {
  num_vertices = num_vertices;
  edges = forest_edges 0 spanning_forest;
}

-- std::swap of the ends.
abbrev pub swap_ends : Edge → Edge
swap_ends e = record { src = e.dst; dst = e.src }

-- `sort` is that of the C++ library. The code keeps the result, as the edges of a forest do not
-- change.
unfoldable pub get_sorted_adjacency : (List Edge → List Edge) → SpanningForest → List Edge
get_sorted_adjacency sort sf = sort (sf.edges ++ map swap_ends sf.edges)
