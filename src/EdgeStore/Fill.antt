-- ===== src/EdgeStore/Fill.antt =====
-- src/edge_store.cpp: the end of the merge of insert_adj_edges, and the whole of it.
use graph_zeppelin.Base.{
  ℕ, zero, suc, ◌+◌, ◌-◌, ◌≤◌, ◌<◌, ◌≡◌, ◌⊎◌, inl, inr, refl, sym, ◌∙◌, ap, subst, arith, List,
  length, ltb, if◌then◌else◌, set, slice, length-set, ⊎_elim,
}
use graph_zeppelin.EdgeStore.{SubgraphTaggedUpdate, resized}
use graph_zeppelin.EdgeStore.Insert.{
  Merging, buffered, incoming, take_buffered, place_updates, place_buffered, fill, merge_updates,
}
use graph_zeppelin.EdgeStore.Weigh.{
  weigh-resized, weigh-slice_all, Exceeds, weigh, weigh-slice_none, weigh-slice_front,
  weigh-slice_push, length-resized, slice-resized,
}
use graph_zeppelin.EdgeStore.Merge.{InRange, content, written, merge_updates_loop-Ends}

-- `n` entries, of the weight `v`, have gone out between `m` and `m'`.
abbrev Placed : (SubgraphTaggedUpdate → ℕ) → ℕ → ℕ → Merging → Merging → Type 0
Placed w n v m m' =
    (m'.out_ptr ≡ m.out_ptr + n)
    × (length m'.data_buffer ≡ length m.data_buffer)
    × (weigh w (slice 0 m'.out_ptr m'.data_buffer) ≡ weigh w (slice 0 m.out_ptr m.data_buffer) + v)

buffer_ptr-place_updates :
    (left : ℕ) (m : Merging) → (place_updates left m).buffer_ptr ≡ m.buffer_ptr
unfolding place_updates
buffer_ptr-place_updates zero m = refl
buffer_ptr-place_updates (suc left) m = buffer_ptr-place_updates left _

module _ (w : SubgraphTaggedUpdate → ℕ) where
  place_updates-Placed :
      (left : ℕ) (m : Merging)
      → m.out_ptr + left ≤ length m.data_buffer
      → m.update_ptr + left ≤ length m.dst_data
      → Placed w left (weigh w (slice m.update_ptr left m.dst_data)) m (place_updates left m)
  unfolding place_updates
  place_updates-Placed zero m le le' =
      (omega arith, refl, omega (arith, weigh-slice_none w m.update_ptr m.dst_data))
  place_updates-Placed (suc left) m le le' =
      let push =
        weigh-slice_push w m.out_ptr (m.out_ptr + 1) m.data_buffer (incoming m) (omega arith)
          (omega arith) in
      let front =
        weigh-slice_front w m.update_ptr (m.update_ptr + 1) left m.dst_data (omega arith)
          (omega arith) in
      let len = length-set m.data_buffer m.out_ptr (incoming m) in
      let (out, len', rest) =
        place_updates-Placed left
          (record m {
            data_buffer = set m.data_buffer m.out_ptr (incoming m);
            out_ptr = m.out_ptr + 1;
            update_ptr = m.update_ptr + 1;
          })
          (omega arith) (omega arith) in
      (omega arith, len' ∙ len, omega (arith, rest, push, front))

  place_buffered-Placed :
      (left : ℕ) (m : Merging)
      → m.out_ptr ≤ m.buffer_ptr
      → m.buffer_ptr + left ≤ length m.data_buffer
      → Placed w left (weigh w (slice m.buffer_ptr left m.data_buffer)) m (place_buffered left m)
  unfolding place_buffered take_buffered
  place_buffered-Placed zero m le room =
      (omega arith, refl, omega (arith, weigh-slice_none w m.buffer_ptr m.data_buffer))
  place_buffered-Placed (suc left) m le room =
      let one = written w left m (buffered m) le (omega arith) in
      let len = length-set m.data_buffer m.out_ptr (buffered m) in
      let (out, len', rest) =
        place_buffered-Placed left (take_buffered m) (omega arith) (omega arith) in
      (omega arith, len' ∙ len, omega (arith, rest, one))

  -- The buffer after both loops, up to the end of the output.
  abbrev Filled : ℕ → ℕ → Merging → Merging → Type 0
  Filled left size m m' =
      (m'.out_ptr ≡ m.out_ptr + (size - m.update_ptr) + left)
      × (length m'.data_buffer ≡ length m.data_buffer)
      × (weigh w (slice 0 m'.out_ptr m'.data_buffer) ≡ content w left size m)

  place-Filled :
      (orig_size size : ℕ) (m : Merging)
      → m.out_ptr ≤ m.buffer_ptr
      → m.update_ptr ≤ size
      → length m.dst_data ≡ size
      → m.buffer_ptr ≤ orig_size
      → orig_size ≤ length m.data_buffer
      → m.out_ptr + (size - m.update_ptr) + (orig_size - m.buffer_ptr) ≤ length m.data_buffer
      → (orig_size - m.buffer_ptr ≡ 0) ⊎ (size - m.update_ptr ≡ 0)
      → let m1 = place_updates (size - m.update_ptr) m in
        Filled (orig_size - m.buffer_ptr) size m (place_buffered (orig_size - m1.buffer_ptr) m1)
  unfolding place_updates place_buffered
  place-Filled orig_size size m le up len all room room' (inl e) =
      let m1 = place_updates (size - m.update_ptr) m in
      let (out, len', rest) =
        place_updates-Placed (size - m.update_ptr) m (omega arith) (omega arith) in
      let none_left : orig_size - m1.buffer_ptr ≡ 0 =
        omega (arith, e, buffer_ptr-place_updates (size - m.update_ptr) m) in
      let last =
        subst (λ n. weigh w (slice m.buffer_ptr n m.data_buffer) ≡ 0) (sym e)
          (weigh-slice_none w m.buffer_ptr m.data_buffer) in
      subst (λ n. Filled (orig_size - m.buffer_ptr) size m (place_buffered n m1)) (sym none_left)
        (omega arith, len', omega (arith, rest, last))
  place-Filled orig_size size m le up len all room room' (inr e) =
      let (out, len', rest) = place_buffered-Placed (orig_size - m.buffer_ptr) m le (omega arith) in
      let last =
        subst (λ n. weigh w (slice m.update_ptr n m.dst_data) ≡ 0) (sym e)
          (weigh-slice_none w m.update_ptr m.dst_data) in
      subst
        (λ n.
          let m1 = place_updates n m in
          Filled (orig_size - m.buffer_ptr) size m (place_buffered (orig_size - m1.buffer_ptr) m1))
        (sym e) (omega arith, len', omega (arith, rest, last))

  -- The new buffer weighs what was out and what was left.
  fill-weigh :
      (orig_size size left : ℕ) (m : Merging)
      → InRange left size m
      → (left ≡ 0) ⊎ (m.update_ptr ≡ size)
      → length m.data_buffer ≡ orig_size
      → weigh w (fill orig_size size m) ≡ content w left size m
  unfolding fill
  fill-weigh orig_size size left m (le, all, up, len') stop len =
      let new_size = m.out_ptr + (size - m.update_ptr) + (orig_size - m.buffer_ptr) in
      let cap = if ltb new_size orig_size then orig_size else new_size in
      let room = resized cap m.data_buffer in
      let e : orig_size - m.buffer_ptr ≡ left = omega arith in
      let cap_orig : orig_size ≤ cap = ground arith in
      let cap_new : new_size ≤ cap = ground arith in
      let size_room = length-resized cap m.data_buffer in
      let (out, kept, rest) =
        place-Filled orig_size size (record m { data_buffer = room }) le up len' (omega arith)
          (omega arith) (omega arith)
          (⊎_elim (λ z. inl (omega arith)) (λ z. inr (omega arith)) stop) in
      let buffer =
        (place_buffered
          (orig_size
            - (place_updates (size - m.update_ptr) (record m { data_buffer = room })).buffer_ptr)
          (place_updates (size - m.update_ptr) (record m { data_buffer = room }))).data_buffer in
      let out_same =
        ap (weigh w) (slice-resized cap 0 m.out_ptr m.data_buffer (omega arith) (omega arith)) in
      let left_same =
        ap (weigh w) (
          slice-resized cap m.buffer_ptr (orig_size - m.buffer_ptr) m.data_buffer (omega arith)
            (omega arith))
        ∙ ap (λ n. weigh w (slice m.buffer_ptr n m.data_buffer)) e in
      weigh-resized w new_size buffer (omega arith)
      ∙ ap (λ n. weigh w (slice 0 n buffer)) (sym out)
      ∙ rest
      ∙ omega (arith, out_same, left_same)

-- Where at least one of the updates is left from `update_ptr` on, the merged buffer holds what
-- the old buffer and the updates from `update_ptr` on hold, less pairs of equal entries: the sum
-- of a weight over the two is that over the new buffer and an even number.
pub merge_updates-weigh :
    (w : SubgraphTaggedUpdate → ℕ) (buffer updates : List SubgraphTaggedUpdate) (update_ptr : ℕ)
    → update_ptr < length updates
    → Exceeds
        (weigh w buffer + weigh w (slice update_ptr (length updates - update_ptr) updates))
        (weigh w (merge_updates buffer updates update_ptr))
unfolding merge_updates
merge_updates-weigh w buffer updates update_ptr lt =
    let (left, r, stop, len, ex) =
      merge_updates_loop-Ends (length buffer) (length updates)
        (record {
          data_buffer = buffer;
          dst_data = updates;
          out_ptr = 0;
          buffer_ptr = 0;
          update_ptr = update_ptr;
        })
        (omega arith, omega arith, omega arith, refl) lt in
    let (k, e) = ex w in
    (
      k,
      omega (
        arith,
        e,
        fill-weigh w (length buffer) (length updates) left _ r stop len,
        weigh-slice_none w 0 buffer,
        weigh-slice_all w buffer,
      ),
    )
