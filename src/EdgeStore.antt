-- ===== src/EdgeStore.antt =====
-- src/edge_store.cpp, include/edge_store.h and SubgraphTaggedUpdate of include/types.h: the
-- adjacency lists that hold an edge until its subgraph is handed to a sketch. One call runs at a
-- time; `std::sort` is a parameter. A read past the end of the updates gives `none`.
use graph_zeppelin.Base.{
  ℕ, zero, suc, ◌+◌, ◌-◌, ◌*◌, ◌≤◌, ◌<◌, ◌≡◌, ◌≢◌, ◌⊎◌, ◌↔◌, inl, inr, refl, sym, ◌∙◌, ap, subst,
  arith, Bool, true, false, not, ◌&&◌, ◌||◌, List, [], ◌∷◌, ◌++◌, Option, none, some, map, lookup,
  length, ltb, leb, ◌==◌, ==_iff, if◌then◌else◌, Option-cases, Bool-cases, eq-cases, some_eq,
  get_or, set, contains, alter, replicate, dec_lt, dec_le, ◌/◌, ◌^◌,
}
use mathlib.Core.Path.{ap₂, subst₂}
use graph_zeppelin.Pairing.{u32, u64, Edge}
pub mod Insert
pub mod Weigh
pub mod Sweep
pub mod Drain
pub mod Examples
pub mod Stored
pub mod Contract
pub mod Fill
pub mod Merge

-- An update, tagged with the highest subgraph that its edge belongs to.
pub record SubgraphTaggedUpdate : Type 0 where
  pub subgraph : ℕ
  pub dst : ℕ

-- operator<
unfoldable pub before : SubgraphTaggedUpdate → SubgraphTaggedUpdate → Bool
before x y = if x.subgraph == y.subgraph then ltb x.dst y.dst else ltb x.subgraph y.subgraph

-- operator>
unfoldable pub after : SubgraphTaggedUpdate → SubgraphTaggedUpdate → Bool
after x y = if x.subgraph == y.subgraph then ltb y.dst x.dst else ltb y.subgraph x.subgraph

pub record TaggedUpdateBatch : Type 0 where
  pub src : ℕ
  pub min_subgraph : ℕ
  pub first_es_subgraph : ℕ
  pub dsts_data : List SubgraphTaggedUpdate

pub record EdgeStore : Type 0 where
  pub seed : ℕ
  pub num_vertices : ℕ
  pub num_subgraphs : ℕ
  pub cur_subgraph : ℕ
  pub true_min_subgraph : ℕ
  pub num_edges : ℕ
  pub needs_contraction : ℕ
  pub adjlist : List (List SubgraphTaggedUpdate)
  pub vertex_contracted : List Bool
  pub max_edges : ℕ

-- A value-initialised update, as `resize` adds.
abbrev pub zeroed : SubgraphTaggedUpdate
zeroed = record { subgraph = 0; dst = 0 }

-- store_edge_bytes, the size of two 32-bit numbers.
abbrev store_edge_bytes : ℕ
store_edge_bytes = 8

-- The constructor leaves `needs_contraction` as it finds it.
unfoldable pub new_store : ℕ → ℕ → ℕ → ℕ → ℕ → ℕ → EdgeStore
new_store leftover seed num_vertices sketch_bytes num_subgraphs start_subgraph = record {
  seed = seed;
  num_vertices = num_vertices;
  num_subgraphs = num_subgraphs;
  cur_subgraph = start_subgraph;
  true_min_subgraph = start_subgraph;
  num_edges = 0;
  needs_contraction = leftover;
  adjlist = replicate num_vertices [];
  vertex_contracted = replicate num_vertices true;
  max_edges = sketch_bytes / store_edge_bytes;
}

-- A batch of the subgraphs below `cur`, whose numbers are cut to 32 bits.
unfoldable pub batch_below : ℕ → ℕ → List SubgraphTaggedUpdate → TaggedUpdateBatch
batch_below src cur dsts_data = record {
  src = src;
  min_subgraph = u32 (cur + 2 ^ 64 - 1);
  first_es_subgraph = u32 cur;
  dsts_data = dsts_data;
}

-- std::vector::resize
unfoldable pub resized : ℕ → List SubgraphTaggedUpdate → List SubgraphTaggedUpdate
resized zero xs = []
resized (suc n) [] = zeroed ∷ resized n []
resized (suc n) (x ∷ xs) = x ∷ resized n xs

-- num_edges += now - old
abbrev pub recount : EdgeStore → ℕ → ℕ → ℕ
recount s old now = u64 (s.num_edges + u64 (now + 2 ^ 64 - old))

-- The loop of vertex_contract, over `left` updates from `i` on: the buffer and keep_idx.
unfoldable pub contract_loop :
    ℕ → ℕ → ℕ → ℕ → List SubgraphTaggedUpdate → List SubgraphTaggedUpdate × ℕ
contract_loop zero i cur keep_idx buffer = (buffer, keep_idx)
contract_loop (suc left) i cur keep_idx buffer =
    let x = get_or buffer i zeroed in
    let kept = leb cur x.subgraph in
    contract_loop left (i + 1) cur (if kept then keep_idx + 1 else keep_idx)
      (if kept then set buffer keep_idx x else buffer)

-- vertex_contract after its first test, and after the flag is set.
unfoldable pub contract_buffer :
    EdgeStore → ℕ → List SubgraphTaggedUpdate → List SubgraphTaggedUpdate × EdgeStore
unfolding contract_loop resized
contract_buffer s src [] = ([], s)
contract_buffer s src (x ∷ xs) =
    let (buffer, keep_idx) = contract_loop (length (x ∷ xs)) 0 s.cur_subgraph 0 (x ∷ xs) in
    (
      x ∷ xs,
      record s {
        adjlist = set s.adjlist src (resized keep_idx buffer);
        num_edges = recount s (length (x ∷ xs)) keep_idx;
      },
    )

unfoldable pub vertex_contract : EdgeStore → ℕ → List SubgraphTaggedUpdate × EdgeStore
unfolding contract_buffer
vertex_contract s src =
    let contracted =
      contract_buffer (record s { vertex_contracted = set s.vertex_contracted src true }) src
        (get_or s.adjlist src []) in
    if get_or s.vertex_contracted src true then ([], s) else contracted

-- What vertex_advance_subgraph does with the vertex it draws; `next` goes on with the loop.
unfoldable pub advance_at :
    EdgeStore
    → ℕ
    → ℕ
    → Option (TaggedUpdateBatch × EdgeStore)
    → Option (TaggedUpdateBatch × EdgeStore)
unfolding vertex_contract batch_below
advance_at s src cur next =
    let (ret, contracted) = vertex_contract s src in
    if leb s.num_vertices src
    then some (
      batch_below 0 cur [],
      (if src == s.num_vertices
          then record s { true_min_subgraph = s.true_min_subgraph + 1 }
          else s),
    )
    else if not (length (get_or s.adjlist src []) == 0) && not (get_or s.vertex_contracted src true)
    then some (batch_below src cur ret, contracted)
    else next

-- The loop of vertex_advance_subgraph, which takes a vertex in each turn.
unfoldable pub advance_loop : ℕ → EdgeStore → ℕ → Option (TaggedUpdateBatch × EdgeStore)
unfolding advance_at
advance_loop zero s cur = none
advance_loop (suc fuel) s cur =
    let src = s.needs_contraction in
    let drawn = record s { needs_contraction = u32 (src + 1) } in
    advance_at drawn src cur (
      advance_loop fuel (record drawn { vertex_contracted = set s.vertex_contracted src true }) cur)

unfoldable pub vertex_advance_subgraph : EdgeStore → ℕ → Option (TaggedUpdateBatch × EdgeStore)
unfolding advance_loop
vertex_advance_subgraph s cur = advance_loop (s.num_vertices + 1) s cur

unfoldable pub check_if_too_big : EdgeStore → EdgeStore
check_if_too_big s =
    if ltb s.num_edges s.max_edges
    then s
    else if ltb s.true_min_subgraph s.cur_subgraph
    then s
    else record s {
      vertex_contracted = map (λ flag. false) s.vertex_contracted;
      needs_contraction = 0;
      cur_subgraph = s.cur_subgraph + 1;
    }

unfoldable pub contract_in_progress : EdgeStore → Bool
contract_in_progress s = ltb s.true_min_subgraph s.cur_subgraph

-- The edges of a vertex.
unfoldable pub row_edges : ℕ → List SubgraphTaggedUpdate → List Edge
row_edges src [] = []
row_edges src (x ∷ xs) = record { src = src; dst = x.dst } ∷ row_edges src xs

-- The loop of get_edges, over the vertices from `src` on.
unfoldable pub rows_edges : ℕ → List (List SubgraphTaggedUpdate) → List Edge
unfolding row_edges
rows_edges src [] = []
rows_edges src (row ∷ rows) = row_edges src row ++ rows_edges (src + 1) rows

unfoldable pub get_edges : EdgeStore → List Edge
unfolding rows_edges
get_edges s = rows_edges 0 s.adjlist
