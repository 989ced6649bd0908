-- ===== src/EdgeStore/Merge.antt =====
-- src/edge_store.cpp: what the in-place merge of insert_adj_edges keeps of the buffer and the
-- updates.
use graph_zeppelin.Base.{
  ℕ, zero, suc, ◌+◌, ◌-◌, ◌≤◌, ◌<◌, ◌≡◌, ◌⊎◌, inl, inr, refl, ◌∙◌, ap, arith, Bool, true, false,
  not, ◌&&◌, length, leb, if◌then◌else◌, set, slice, length-set, get_or-set_self,
}
use graph_zeppelin.EdgeStore.{SubgraphTaggedUpdate, zeroed, after, before}
use graph_zeppelin.EdgeStore.Insert.{
  Merging, buffered, incoming, take_update, take_buffered, cancel, merge_updates_loop,
}
use graph_zeppelin.EdgeStore.Weigh.{
  weigh, Exceeds, weigh-slice_front, weigh-slice_push, slice-set_before, weigh-slice_rest,
  Exceeds-trans, same_tags,
}

-- The indices of the merge, with `left` of the buffer to go.
abbrev pub InRange : ℕ → ℕ → Merging → Type 0
InRange left size m =
    (m.out_ptr ≤ m.buffer_ptr)
    × (m.buffer_ptr + left ≡ length m.data_buffer)
    × (m.update_ptr ≤ size)
    × (length m.dst_data ≡ size)

module _ (w : SubgraphTaggedUpdate → ℕ) where
  -- What is out, what is left of the buffer, and what is left of the updates.
  abbrev pub content : ℕ → ℕ → Merging → ℕ
  content left size m =
      weigh w (slice 0 m.out_ptr m.data_buffer)
      + weigh w (slice m.buffer_ptr left m.data_buffer)
      + weigh w (slice m.update_ptr (size - m.update_ptr) m.dst_data)

  -- What a write at the end of the output does to the output, and to what comes after.
  pub written :
      (left : ℕ) (m : Merging) (v : SubgraphTaggedUpdate)
      → m.out_ptr ≤ m.buffer_ptr
      → m.buffer_ptr + suc left ≤ length m.data_buffer
      → weigh w (slice 0 (m.out_ptr + 1) (set m.data_buffer m.out_ptr v))
          + weigh w (slice (m.buffer_ptr + 1) left (set m.data_buffer m.out_ptr v))
          + w (buffered m)
        ≡ weigh w (slice 0 m.out_ptr m.data_buffer)
          + weigh w (slice m.buffer_ptr (suc left) m.data_buffer)
          + w v
  written left m v le room =
      let push =
        weigh-slice_push w m.out_ptr (m.out_ptr + 1) m.data_buffer v (omega arith) (omega arith) in
      let kept =
        ap (weigh w)
          (slice-set_before (m.buffer_ptr + 1) left m.out_ptr m.data_buffer v (omega arith)) in
      let front =
        weigh-slice_front w m.buffer_ptr (m.buffer_ptr + 1) left m.data_buffer (omega arith)
          (omega arith) in
      omega (arith, push, kept, front)

  pub content-take_buffered :
      (left size : ℕ) (m : Merging)
      → InRange (suc left) size m
      → content left size (take_buffered m) ≡ content (suc left) size m
  unfolding take_buffered
  content-take_buffered left size m (le, all, up, len) =
      omega (arith, written left m (buffered m) le (omega arith))

  pub content-take_update :
      (left size : ℕ) (m : Merging)
      → InRange (suc left) size m
      → m.update_ptr < size
      → content left size (take_update m) ≡ content (suc left) size m
  unfolding take_update
  content-take_update left size m (le, all, up, len) lt =
      let new = set m.dst_data m.update_ptr (buffered m) in
      let out = written left m (incoming m) le (omega arith) in
      let front = weigh-slice_rest w m.update_ptr size m.dst_data lt len in
      let front' =
        weigh-slice_rest w m.update_ptr size new lt
          (length-set m.dst_data m.update_ptr (buffered m) ∙ len) in
      let kept = ap (weigh w) (
        slice-set_before (m.update_ptr + 1) (size - (m.update_ptr + 1)) m.update_ptr m.dst_data
          (buffered m) (omega arith)) in
      let same = ap w (get_or-set_self m.dst_data m.update_ptr (buffered m) zeroed (omega arith)) in
      omega (arith, out, front, front', kept, same)

  pub content-cancel :
      (left size : ℕ) (m : Merging)
      → InRange (suc left) size m
      → m.update_ptr < size
      → buffered m ≡ incoming m
      → Exceeds (content (suc left) size m) (content left size (cancel m))
  unfolding cancel
  content-cancel left size m (le, all, up, len) lt e =
      let front =
        weigh-slice_front w m.buffer_ptr (m.buffer_ptr + 1) left m.data_buffer (omega arith)
          (omega arith) in
      let front' = weigh-slice_rest w m.update_ptr size m.dst_data lt len in
      let same = ap w e in (w (incoming m), omega (arith, front, front', same))

-- `m'` is the end of the loop from `m`: either side has come to its end, and what the two hold
-- has lost pairs of equal entries only.
abbrev pub Ends : ℕ → ℕ → Merging → Merging → Type 0
Ends left size m m' =
    (left' : ℕ) × InRange left' size m'
    × ((left' ≡ 0) ⊎ (m'.update_ptr ≡ size))
    × (length m'.data_buffer ≡ length m.data_buffer)
    × ((w : SubgraphTaggedUpdate → ℕ) → Exceeds (content w left size m) (content w left' size m'))

-- A turn of the loop before its end.
Ends-after :
    (left size : ℕ) (m m1 m' : Merging)
    → length m1.data_buffer ≡ length m.data_buffer
    → ((w : SubgraphTaggedUpdate → ℕ)
        → Exceeds (content w (suc left) size m) (content w left size m1))
    → Ends left size m1 m'
    → Ends (suc left) size m m'
Ends-after left size m m1 m' len ex (left', r, stop, len', ex') =
    (left', r, stop, len' ∙ len, (λ w. Exceeds-trans _ _ _ (ex w) (ex' w)))

cancel_turn-Ends :
    (left size : ℕ) (m : Merging) (last : Bool)
    → leb size (m.update_ptr + 1) ≡ last
    → buffered m ≡ incoming m
    → InRange (suc left) size m
    → m.update_ptr < size
    → ((m1 : Merging)
        → InRange left size m1
        → m1.update_ptr < size
        → Ends left size m1 (merge_updates_loop left size m1))
    → Ends (suc left) size m (if last then cancel m else merge_updates_loop left size (cancel m))
unfolding cancel
cancel_turn-Ends left size m true e same r lt next =
    let (le, all, up, len) = r in
    Ends-after left size m (cancel m) _ refl (λ w. content-cancel w left size m r lt same)
      (
        left,
        (omega arith, omega arith, omega arith, len),
        inr (ground arith),
        refl,
        (λ w. (0, omega arith)),
      )
cancel_turn-Ends left size m false e same r lt next =
    let (le, all, up, len) = r in
    Ends-after left size m (cancel m) _ refl (λ w. content-cancel w left size m r lt same)
      (next (cancel m) (omega arith, omega arith, omega arith, len) (ground arith))

merge_turn-Ends :
    (left size : ℕ) (m : Merging) (bigger smaller : Bool)
    → after (buffered m) (incoming m) ≡ bigger
    → before (buffered m) (incoming m) ≡ smaller
    → InRange (suc left) size m
    → m.update_ptr < size
    → ((m1 : Merging)
        → InRange left size m1
        → m1.update_ptr < size
        → Ends left size m1 (merge_updates_loop left size m1))
    → let m1 = if bigger then take_update m else if smaller then take_buffered m else cancel m in
      Ends (suc left) size m (
        if not bigger && not smaller && leb size m1.update_ptr
        then m1
        else merge_updates_loop left size m1)
unfolding take_update take_buffered cancel
merge_turn-Ends left size m true smaller p q r lt next =
    let (le, all, up, len) = r in
    let kept = length-set m.data_buffer m.out_ptr (incoming m) in
    let kept' = length-set m.dst_data m.update_ptr (buffered m) in
    Ends-after left size m (take_update m) _ kept
      (λ w. (0, omega (arith, content-take_update w left size m r lt)))
      (next (take_update m) (omega arith, omega arith, up, kept' ∙ len) lt)
merge_turn-Ends left size m false true p q r lt next =
    let (le, all, up, len) = r in
    let kept = length-set m.data_buffer m.out_ptr (buffered m) in
    Ends-after left size m (take_buffered m) _ kept
      (λ w. (0, omega (arith, content-take_buffered w left size m r)))
      (next (take_buffered m) (omega arith, omega arith, up, len) lt)
merge_turn-Ends left size m false false p q r lt next =
    cancel_turn-Ends left size m _ refl (same_tags (buffered m) (incoming m) p q) r lt next

pub merge_updates_loop-Ends :
    (left size : ℕ) (m : Merging)
    → InRange left size m
    → m.update_ptr < size
    → Ends left size m (merge_updates_loop left size m)
unfolding merge_updates_loop
merge_updates_loop-Ends zero size m r lt = (0, r, inl refl, refl, (λ w. (0, omega arith)))
merge_updates_loop-Ends (suc left) size m r lt =
    merge_turn-Ends left size m _ _ refl refl r lt (merge_updates_loop-Ends left size)
