-- ===== src/CcAlg/Instr.antt =====
-- src/cc_sketch_alg.cpp: create_merge_instructions, a counting sort of the vertices by their
-- roots. The barriers part it into phases; within a phase the threads run one after the other in
-- the order of `schedule`. A map from roots to vertices is an association list.
use graph_zeppelin.Base.{
  ℕ, zero, suc, ◌+◌, ◌-◌, List, [], ◌∷◌, ◌++◌, Option, some, length, ltb, ◌==◌, if◌then◌else◌, set,
  replicate, slice,
}
use graph_zeppelin.CcAlg.Round.{MergeInstr, Partition, get_ith_partition}
use graph_zeppelin.Dsu.{Dsu, at, find_root, ◌>>=◌}

-- local_ccs[root].push_back(child).
unfoldable pub add_child : ℕ → ℕ → List (ℕ × List ℕ) → List (ℕ × List ℕ)
add_child root child [] = (root, child ∷ []) ∷ []
add_child root child ((r, vertices) ∷ ccs) =
    if r == root
    then (r, vertices ++ child ∷ []) ∷ ccs
    else (r, vertices) ∷ add_child root child ccs

-- The first loop of a thread: the roots of the children in its range.
unfoldable pub collect_ccs :
    List MergeInstr → Dsu → List (ℕ × List ℕ) → Option (Dsu × List (ℕ × List ℕ))
unfolding add_child
collect_ccs [] d ccs = some (d, ccs)
collect_ccs (instr ∷ instrs) d ccs =
    find_root d instr.child >>= λ (d', root). collect_ccs instrs d' (add_child root instr.child ccs)

-- Takes room for each of a thread's sets in `cc_prefix`, and keeps where it starts.
unfoldable pub claim_room : List (ℕ × List ℕ) → List ℕ → List ℕ × List ℕ
claim_room [] cc_prefix = ([], cc_prefix)
claim_room ((root, vertices) ∷ ccs) cc_prefix =
    let idx = at cc_prefix root in
    let rest = claim_room ccs (set cc_prefix root (idx + length vertices)) in (idx ∷ rest.0, rest.1)

-- What a thread keeps from one phase to the next.
pub record LocalCcs : Type 0 where
  pub thr_id : ℕ
  pub local_ccs : List (ℕ × List ℕ)
  pub local_cc_idx : List ℕ

-- The sums of a range, `left` of them from index `i` on.
unfoldable pub prefix_loop : ℕ → ℕ → List ℕ → List ℕ
prefix_loop zero i cc_prefix = cc_prefix
prefix_loop (suc left) i cc_prefix =
    prefix_loop left (i + 1) (set cc_prefix i (at cc_prefix i + at cc_prefix (i - 1)))

-- Adds a sum to the entries of a range.
unfoldable pub add_loop : ℕ → ℕ → ℕ → List ℕ → List ℕ
add_loop zero i sum cc_prefix = cc_prefix
add_loop (suc left) i sum cc_prefix =
    add_loop left (i + 1) sum (set cc_prefix i (at cc_prefix i + sum))

-- Writes the instructions of one set.
unfoldable pub write_set : ℕ → List ℕ → ℕ → List MergeInstr → List MergeInstr
write_set root [] placement merge_instr = merge_instr
write_set root (child ∷ vertices) placement merge_instr =
    write_set root vertices (placement + 1)
      (set merge_instr placement (record { root = root; child = child }))

-- The last loop of a thread.
unfoldable pub write_ccs : List ℕ → List (ℕ × List ℕ) → List ℕ → List MergeInstr → List MergeInstr
unfolding write_set
write_ccs cc_prefix [] idxs merge_instr = merge_instr
write_ccs cc_prefix ((root, vertices) ∷ ccs) [] merge_instr = merge_instr
write_ccs cc_prefix ((root, vertices) ∷ ccs) (thr_idx ∷ idxs) merge_instr =
    let placement = if ltb 0 root then thr_idx + at cc_prefix (root - 1) else thr_idx in
    write_ccs cc_prefix ccs idxs (write_set root vertices placement merge_instr)

module _ (p : Partition) (num_vertices num_threads : ℕ) where
  -- The range of a thread: its first index, and the number of its indices.
  unfoldable pub range_of : ℕ → ℕ × ℕ
  unfolding get_ith_partition
  range_of thr_id =
      let (start, end) = get_ith_partition p num_vertices thr_id num_threads in (start, end - start)

  -- The phase up to the first barrier.
  unfoldable pub gather_phase :
      List MergeInstr → List ℕ → Dsu → List ℕ → Option (Dsu × List ℕ × List LocalCcs)
  unfolding range_of collect_ccs claim_room
  gather_phase merge_instr [] d cc_prefix = some (d, cc_prefix, [])
  gather_phase merge_instr (thr_id ∷ schedule) d cc_prefix =
      let (start, len) = range_of thr_id in
      collect_ccs (slice start len merge_instr) d [] >>= λ (d1, ccs).
      let (idxs, cc_prefix1) = claim_room ccs cc_prefix in
      gather_phase merge_instr schedule d1 cc_prefix1 >>= λ (d2, cc_prefix2, locals).
      some
        (d2, cc_prefix2, record { thr_id = thr_id; local_ccs = ccs; local_cc_idx = idxs } ∷ locals)

  -- The prefix sums of each thread's range.
  unfoldable pub prefix_phase : List ℕ → List ℕ → List ℕ
  unfolding range_of prefix_loop
  prefix_phase [] cc_prefix = cc_prefix
  prefix_phase (thr_id ∷ schedule) cc_prefix =
      let (start, len) = range_of thr_id in
      prefix_phase schedule (prefix_loop (len - 1) (start + 1) cc_prefix)

  -- range_sums[t] for `left` threads from thread `t` on, given that of the thread before.
  unfoldable pub range_sums : ℕ → ℕ → ℕ → List ℕ → List ℕ
  unfolding range_of
  range_sums zero t sum cc_prefix = []
  range_sums (suc left) t sum cc_prefix =
      let (start, len) = range_of (t - 1) in
      let sum' = at cc_prefix (start + len - 1) + sum in
      sum' ∷ range_sums left (t + 1) sum' cc_prefix

  -- Each thread but the first adds the sum of the ranges before its own.
  unfoldable pub add_phase : List ℕ → List ℕ → List ℕ → List ℕ
  unfolding range_of add_loop
  add_phase sums [] cc_prefix = cc_prefix
  add_phase sums (thr_id ∷ schedule) cc_prefix =
      let (start, len) = range_of thr_id in
      add_phase sums schedule
        (if ltb 0 thr_id then add_loop len start (at sums thr_id) cc_prefix else cc_prefix)

  unfoldable pub write_phase : List ℕ → List LocalCcs → List MergeInstr → List MergeInstr
  unfolding write_ccs
  write_phase cc_prefix [] merge_instr = merge_instr
  write_phase cc_prefix (l ∷ locals) merge_instr =
      write_phase cc_prefix locals (write_ccs cc_prefix l.local_ccs l.local_cc_idx merge_instr)

  unfoldable pub create_merge_instructions :
      List ℕ → Dsu → List MergeInstr → Option (Dsu × List MergeInstr)
  unfolding gather_phase prefix_phase range_sums add_phase write_phase
  create_merge_instructions schedule d merge_instr =
      gather_phase merge_instr schedule d (replicate num_vertices 0) >>= λ (d', cc_prefix, locals).
      let summed = prefix_phase schedule cc_prefix in
      let sums = 0 ∷ range_sums (num_threads - 1) 1 0 summed in
      some (d', write_phase (add_phase sums schedule summed) locals merge_instr)
