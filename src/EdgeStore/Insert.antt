-- ===== src/EdgeStore/Insert.antt =====
-- src/edge_store.cpp: insert_adj_edges, which sorts the updates, merges them into the vertex's
-- buffer in place, and may start or advance a contraction.
use graph_zeppelin.Base.{
  ℕ, zero, suc, ◌+◌, ◌-◌, true, not, ◌&&◌, List, [], ◌∷◌, ◌++◌, Option, none, some, map, length,
  ltb, leb, ◌==◌, if◌then◌else◌, get_or, set,
}
use graph_zeppelin.Pairing.{concat_pairing_fn}
use graph_zeppelin.Bucket.{Hashes, get_index_depth}
use graph_zeppelin.EdgeStore.{
  SubgraphTaggedUpdate, before, after, TaggedUpdateBatch, EdgeStore, zeroed, recount, resized,
  vertex_contract, vertex_advance_subgraph, check_if_too_big, batch_below,
}

-- The buffer, the updates, and the three indices of the merge.
pub record Merging : Type 0 where
  pub data_buffer : List SubgraphTaggedUpdate
  pub dst_data : List SubgraphTaggedUpdate
  pub out_ptr : ℕ
  pub buffer_ptr : ℕ
  pub update_ptr : ℕ

abbrev pub buffered : Merging → SubgraphTaggedUpdate
buffered m = get_or m.data_buffer m.buffer_ptr zeroed

abbrev pub incoming : Merging → SubgraphTaggedUpdate
incoming m = get_or m.dst_data m.update_ptr zeroed

-- The update is smaller: it goes out, and the buffered one takes its place.
unfoldable pub take_update : Merging → Merging
take_update m = record {
  data_buffer = set m.data_buffer m.out_ptr (incoming m);
  dst_data = set m.dst_data m.update_ptr (buffered m);
  out_ptr = m.out_ptr + 1;
  buffer_ptr = m.buffer_ptr + 1;
  update_ptr = m.update_ptr;
}

-- The buffered one is smaller, and goes out.
unfoldable pub take_buffered : Merging → Merging
take_buffered m = record m {
  data_buffer = set m.data_buffer m.out_ptr (buffered m);
  out_ptr = m.out_ptr + 1;
  buffer_ptr = m.buffer_ptr + 1;
}

-- The two are equal, and cancel.
unfoldable pub cancel : Merging → Merging
cancel m = record m { buffer_ptr = m.buffer_ptr + 1; update_ptr = m.update_ptr + 1 }

-- The loop over the buffer, with `left` of it to go; it also ends with the updates.
unfoldable pub merge_updates_loop : ℕ → ℕ → Merging → Merging
unfolding before after take_update take_buffered cancel
merge_updates_loop zero size m = m
merge_updates_loop (suc left) size m =
    let bigger = after (buffered m) (incoming m) in
    let smaller = before (buffered m) (incoming m) in
    let m' = if bigger then take_update m else if smaller then take_buffered m else cancel m in
    let rest = merge_updates_loop left size m' in
    if not bigger && not smaller && leb size m'.update_ptr then m' else rest

-- data_buffer[out_ptr++] = dst_data[update_ptr++], for `left` updates.
unfoldable pub place_updates : ℕ → Merging → Merging
place_updates zero m = m
place_updates (suc left) m = place_updates left (record m {
  data_buffer = set m.data_buffer m.out_ptr (incoming m);
  out_ptr = m.out_ptr + 1;
  update_ptr = m.update_ptr + 1;
})

-- data_buffer[out_ptr++] = data_buffer[buffer_ptr++], for `left` of the buffer.
unfoldable pub place_buffered : ℕ → Merging → Merging
unfolding take_buffered
place_buffered zero m = m
place_buffered (suc left) m = place_buffered left (take_buffered m)

-- What follows the loop: the buffer gets its new size, with what is left on either side at its end.
unfoldable pub fill : ℕ → ℕ → Merging → List SubgraphTaggedUpdate
unfolding place_updates place_buffered resized
fill orig_size size m =
    let new_size = m.out_ptr + (size - m.update_ptr) + (orig_size - m.buffer_ptr) in
    let room = resized (if ltb new_size orig_size then orig_size else new_size) m.data_buffer in
    let placed = place_updates (size - m.update_ptr) (record m { data_buffer = room }) in
    let filled = place_buffered (orig_size - placed.buffer_ptr) placed in
    resized new_size filled.data_buffer

-- The new buffer, from the old one and the updates from `update_ptr` on.
unfoldable pub merge_updates :
    List SubgraphTaggedUpdate → List SubgraphTaggedUpdate → ℕ → List SubgraphTaggedUpdate
unfolding merge_updates_loop fill
merge_updates buffer updates update_ptr = fill (length buffer) (length updates) (
    merge_updates_loop (length buffer) (length updates) (record {
      data_buffer = buffer;
      dst_data = updates;
      out_ptr = 0;
      buffer_ptr = 0;
      update_ptr = update_ptr;
    }))

abbrev pub one_on : Option ℕ → Option ℕ
one_on none = none
one_on (some i) = some (suc i)

-- Moves past the updates of the subgraphs below `cur`, of which one must be left to stop at.
unfoldable pub skip_below : ℕ → List SubgraphTaggedUpdate → Option ℕ
skip_below cur [] = none
skip_below cur (x ∷ xs) =
    let rest = one_on (skip_below cur xs) in if ltb x.subgraph cur then rest else some 0

-- The buffer of the vertex with the updates merged in.
unfoldable pub store_updates : EdgeStore → ℕ → List SubgraphTaggedUpdate → ℕ → EdgeStore
unfolding merge_updates
store_updates s src updates update_ptr =
    let old = get_or s.adjlist src [] in
    let buffer = merge_updates old updates update_ptr in
    record s {
      adjlist = set s.adjlist src buffer;
      num_edges = recount s (length old) (length buffer);
    }

-- The end of insert_adj_edges, after the lock is given back.
unfoldable pub settle_insert :
    EdgeStore → ℕ → ℕ → List SubgraphTaggedUpdate → Option (TaggedUpdateBatch × EdgeStore)
unfolding vertex_advance_subgraph check_if_too_big batch_below
settle_insert s src cur ret =
    if (length ret == 0) && ltb s.true_min_subgraph cur
    then vertex_advance_subgraph s cur
    else some (batch_below src cur ret, check_if_too_big s)

-- What comes under the lock first: the vertex's contraction, where one is due.
unfoldable pub contract_if_due : EdgeStore → ℕ → List SubgraphTaggedUpdate × EdgeStore
unfolding vertex_contract
contract_if_due s src =
    let contracted = vertex_contract s src in
    if ltb s.true_min_subgraph s.cur_subgraph && not (get_or s.vertex_contracted src true)
    then contracted
    else ([], s)

-- insert_adj_edges on updates that are sorted and not empty.
unfoldable pub insert_sorted :
    EdgeStore → ℕ → ℕ → List SubgraphTaggedUpdate → Option (TaggedUpdateBatch × EdgeStore)
unfolding contract_if_due skip_below store_updates settle_insert
insert_sorted s src caller_first updates =
    let cur = s.cur_subgraph in
    let (ret, s') = contract_if_due s src in
    elim (skip_below cur updates) [
      | none ↦ none
      | some update_ptr ↦
          settle_insert (store_updates s' src updates update_ptr) src cur
            (if ltb caller_first cur then ret ++ updates else ret)
    ]

-- insert_adj_edges of updates with their subgraphs.
unfoldable pub insert_tagged :
    (List SubgraphTaggedUpdate → List SubgraphTaggedUpdate)
    → EdgeStore
    → ℕ
    → ℕ
    → List SubgraphTaggedUpdate
    → Option (TaggedUpdateBatch × EdgeStore)
unfolding insert_sorted
insert_tagged sort s src caller_first dst_data =
    let inserted = insert_sorted s src caller_first (sort dst_data) in
    if length dst_data == 0 then some (batch_below src s.cur_subgraph [], s) else inserted

unfoldable pub tag : Hashes → EdgeStore → ℕ → ℕ → SubgraphTaggedUpdate
tag h s src dst = record {
  subgraph = get_index_depth h (concat_pairing_fn src dst) s.seed s.num_subgraphs;
  dst = dst;
}

-- insert_adj_edges of plain vertices, which are tagged first.
unfoldable pub insert_adj_edges :
    Hashes
    → (List SubgraphTaggedUpdate → List SubgraphTaggedUpdate)
    → EdgeStore
    → ℕ
    → List ℕ
    → Option (TaggedUpdateBatch × EdgeStore)
unfolding insert_tagged tag
insert_adj_edges h sort s src dst_vertices =
    insert_tagged sort s src 0 (map (tag h s src) dst_vertices)
