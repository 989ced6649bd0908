-- ===== src/CcAlg/Round.antt =====
-- src/cc_sketch_alg.cpp: one round of Boruvka. The threads of a parallel region run whole, one
-- after the other, in the order of `schedule`; they share the algorithm and the global merges.
-- `none` is a failed assertion or an index out of range. `failures i` counts the spurious
-- failures of the atomic set in the sample of supernode `i`.
pub mod Groups
pub mod Local
pub mod Single
pub mod Progress
pub mod Pass
pub mod Correct
pub mod Whenever
pub mod Keep
pub mod Threads
pub mod Spent
pub mod Examples
use graph_zeppelin.Base.{
  ℕ, zero, suc, ◌+◌, ◌-◌, ◌*◌, ◌≤◌, ◌<◌, ◌≡◌, ◌≢◌, ◌⊎◌, ◌↔◌, inl, inr, refl, sym, ◌∙◌, ap, subst,
  arith, Bool, true, false, not, ◌&&◌, ◌||◌, List, [], ◌∷◌, ◌++◌, Option, none, some, map, lookup,
  length, ltb, leb, ◌==◌, ==_iff, if◌then◌else◌, Option-cases, Bool-cases, eq-cases, some_eq,
  get_or, set, contains, alter, replicate, dec_lt, dec_le, ◌/◌, ◌^◌, slice,
}
use mathlib.Core.Path.{ap₂, subst₂}
use graph_zeppelin.Bucket.{Hashes}
use graph_zeppelin.CcAlg.{CcSketchAlg}
use graph_zeppelin.CcAlg.Supernode.{
  SupernodeResult, supernode_sampled, supernode_out_of_samples, supernode_out_of_bounds,
  sample_supernode,
}
use graph_zeppelin.Dsu.{◌>>=◌}
use graph_zeppelin.Sketch.{Sketch, zero_contents, range_merge}

pub record MergeInstr : Type 0 where
  pub root : ℕ
  pub child : ℕ

-- The order of instructions: by root, and then by child.
unfoldable pub instr_lt : MergeInstr → MergeInstr → Bool
instr_lt i oth = if i.root == oth.root then ltb i.child oth.child else ltb i.root oth.root

pub record GlobalMergeData : Type 0 where
  pub sketch : Sketch
  pub num_merge_needed : ℕ
  pub num_merge_done : ℕ

-- The `size_t` -1.
abbrev pub unknown_merges : ℕ
unknown_merges = 2 ^ 64 - 1

unfoldable pub new_global : Sketch → GlobalMergeData
new_global blank = record { sketch = blank; num_merge_needed = unknown_merges; num_merge_done = 0 }

unfoldable pub clear_global : GlobalMergeData → GlobalMergeData
clear_global g = record {
  sketch = zero_contents g.sketch;
  num_merge_needed = unknown_merges;
  num_merge_done = 0;
}

-- The divisions of a range into parts, which the code computes in floating point: the first
-- index of part `i`, and the part that an index lies in.
pub record Partition : Type 0 where
  pub first_of : ℕ → ℕ → ℕ → ℕ
  pub part_of : ℕ → ℕ → ℕ → ℕ

unfoldable pub get_ith_partition : Partition → ℕ → ℕ → ℕ → ℕ × ℕ
get_ith_partition p len i divisions = (p.first_of len i divisions, p.first_of len (i + 1) divisions)

-- What the round has come to: `except` tells that a sample threw.
pub record RoundState : Type 0 where
  pub alg : CcSketchAlg
  pub global_merges : List GlobalMergeData
  pub modified : Bool
  pub except : Bool

-- One sample, in its `try`, with the sketch after it.
unfoldable pub after_sample : RoundState → Sketch → SupernodeResult → Option (RoundState × Sketch)
after_sample st skt (supernode_sampled m alg skt') =
    some (record st { alg = alg; modified = st.modified || m }, skt')
after_sample st skt supernode_out_of_samples = some (record st { except = true }, skt)
after_sample st skt supernode_out_of_bounds = none

unfoldable pub try_sample : Hashes → ℕ → RoundState → Sketch → Option (RoundState × Sketch)
unfolding after_sample
try_sample h failures st skt = after_sample st skt (sample_supernode h failures st.alg skt)

-- The loop of round zero over the vertices of `order`, in which the sketches themselves are
-- sampled.
unfoldable pub round_zero_loop : Hashes → (ℕ → ℕ) → List ℕ → RoundState → Option RoundState
round_zero_loop h failures [] st = some st
round_zero_loop h failures (i ∷ order) st = lookup st.alg.sketches i >>= λ skt.
    try_sample h (failures i) st skt >>= λ (st1, skt').
    round_zero_loop h failures order
      (record st1 { alg = record st1.alg { sketches = set st1.alg.sketches i skt' } })

-- Merges a local sketch into a global one, and tells whether that was the last of its merges.
unfoldable pub merge_global : ℕ → Sketch → GlobalMergeData → Option (GlobalMergeData × Bool)
merge_global cur_round local_sketch global =
    let num_done = global.num_merge_done + 1 in
    let merged = record global {
      sketch = range_merge global.sketch local_sketch cur_round 1;
      num_merge_done = num_done;
    } in
    if leb num_done global.num_merge_needed
    then some (merged, leb global.num_merge_needed num_done)
    else none

-- The binary search for the last instruction of `root`. It halves the range on every step.
unfoldable pub last_instr_loop : ℕ → List MergeInstr → ℕ → ℕ → ℕ → Option ℕ
last_instr_loop zero merge_instr root lo hi = none
last_instr_loop (suc fuel) merge_instr root lo hi =
    let mid = lo + (hi - lo) / 2 in
    let target : MergeInstr = record { root = root; child = 2 ^ 32 - 1 } in
    let step = λ (instr : MergeInstr).
      (let right = last_instr_loop fuel merge_instr root (mid + 1) hi in
        let left = last_instr_loop fuel merge_instr root lo mid in
        if instr_lt instr target then right else left) in
    if ltb lo hi then lookup merge_instr mid >>= step else some lo

-- The two assertions at the end of the search.
unfoldable pub ends_root : List MergeInstr → ℕ → ℕ → Option Bool
ends_root merge_instr root i =
    let next = lookup merge_instr (i + 1) >>= λ after. some (ltb root after.root) in
    lookup merge_instr i >>= λ instr.
    (if i == length merge_instr - 1 then some true else next) >>= λ is_end.
    some (instr.root == root && is_end)

unfoldable pub find_last_instr : List MergeInstr → ℕ → ℕ → Option ℕ
unfolding last_instr_loop
find_last_instr merge_instr root min_hint =
    last_instr_loop (length merge_instr + 1) merge_instr root min_hint (length merge_instr - 1)
    >>= λ i. lookup merge_instr i >>= λ instr. some (if instr.root == root then i else i - 1)

unfoldable pub find_last_partition_of_root : Partition → List MergeInstr → ℕ → ℕ → ℕ → Option ℕ
unfolding find_last_instr ends_root
find_last_partition_of_root p merge_instr root min_hint num_threads =
    find_last_instr merge_instr root min_hint >>= λ i. ends_root merge_instr root i >>= λ ok.
    (if ok then some (p.part_of (length merge_instr) i num_threads) else none)

-- Whether the roots of two instructions are equal.
unfoldable pub same_root : List MergeInstr → ℕ → ℕ → Option Bool
same_root merge_instr i j =
    lookup merge_instr i >>= λ a. lookup merge_instr j >>= λ b. some (a.root == b.root)

-- The variables of one thread.
pub record ThreadState : Type 0 where
  pub round : RoundState
  pub local_sketch : Sketch
  pub root_from_left : Bool
  pub cur_root : ℕ

module _ (h : Hashes) (failures : ℕ → ℕ) (cur_round : ℕ) where
  -- Samples the local sketch.
  unfoldable pub query_local : ThreadState → Option ThreadState
  query_local t = try_sample h (failures t.cur_root) t.round t.local_sketch >>= λ (st, skt).
      some (record t { round = st; local_sketch = skt })

  -- Samples the global sketch `global_id`.
  unfoldable pub query_global : ℕ → GlobalMergeData → ThreadState → Option ThreadState
  query_global global_id global t =
      try_sample h (failures t.cur_root) t.round global.sketch >>= λ (st, skt). some (record t {
        round = record st {
          global_merges = set st.global_merges global_id (record global { sketch = skt });
        };
      })

  -- Merges the local sketch into the global one, and samples that if it is complete.
  unfoldable pub merge_and_query : ℕ → ThreadState → Option ThreadState
  unfolding query_global
  merge_and_query global_id t = lookup t.round.global_merges global_id >>= λ global.
      merge_global cur_round t.local_sketch global >>= λ (global', query_ready).
      let stored = record t {
        round = record t.round { global_merges = set t.round.global_merges global_id global' };
      } in
      if query_ready then query_global global_id global' stored else some stored

  -- The root changes in the loop of a thread.
  unfoldable pub change_root : ℕ → ℕ → ThreadState → Option ThreadState
  unfolding merge_and_query query_local
  change_root thr_id root t =
      let owned = merge_and_query thr_id t >>= λ t'. some (record t' { root_from_left = false }) in
      (if t.root_from_left then owned else query_local t) >>= λ t'.
      some (record t' { cur_root = root; local_sketch = zero_contents t'.local_sketch })

  -- local_sketch.range_merge(*sketches[child], cur_round, 1).
  unfoldable pub merge_child : ℕ → ThreadState → Option ThreadState
  merge_child child t = lookup t.round.alg.sketches child >>= λ skt.
      some (record t { local_sketch = range_merge t.local_sketch skt cur_round 1 })

  -- The loop of a thread over the instructions of its range.
  unfoldable pub thread_loop : ℕ → List MergeInstr → ThreadState → Option ThreadState
  unfolding change_root merge_child
  thread_loop thr_id [] t = some t
  thread_loop thr_id (instr ∷ instrs) t =
      (if instr.root == t.cur_root then some t else change_root thr_id instr.root t) >>= λ t'.
      merge_child instr.child t' >>= λ t''. thread_loop thr_id instrs t''

  -- The number of threads that merge into the last root of a thread, from its first one.
  unfoldable pub announce : ℕ → ℕ → ThreadState → Option ThreadState
  announce thr_id global_id t = lookup t.round.global_merges global_id >>= λ global.
      let told = record global { num_merge_needed = global_id - thr_id + 1 } in
      some (
        if t.root_from_left then t else record t {
          round = record t.round { global_merges = set t.round.global_merges global_id told };
        })

  -- The end of a thread, after its loop.
  unfoldable pub finish_thread :
      Partition → List MergeInstr → ℕ → ℕ → ℕ → Bool → ThreadState → Option ThreadState
  unfolding announce
  finish_thread p merge_instr num_threads thr_id start root_exits_right t =
      let shared =
        find_last_partition_of_root p merge_instr t.cur_root start num_threads >>= λ global_id.
        announce thr_id global_id t >>= λ t'. merge_and_query global_id t' in
      if root_exits_right || t.root_from_left then shared else query_local t

-- What one thread runs. `blank` is the sketch that it allocates.
module _ (h : Hashes) (failures : ℕ → ℕ) (p : Partition) (blank : Sketch) where
  unfoldable pub run_thread : ℕ → List MergeInstr → ℕ → RoundState → ℕ → Option RoundState
  unfolding get_ith_partition same_root finish_thread
  run_thread cur_round merge_instr num_threads st thr_id =
      let num_vertices = st.alg.num_vertices in
      let (start, end) = get_ith_partition p num_vertices thr_id num_threads in
      let from_left = same_root merge_instr (start - 1) start in
      let exits_right = same_root merge_instr (end - 1) end in
      (if ltb 0 start then from_left else some false) >>= λ root_from_left.
      (if ltb end num_vertices then exits_right else some false) >>= λ root_exits_right.
      lookup merge_instr start >>= λ instr.
      thread_loop h failures cur_round thr_id (slice start (end - start) merge_instr) (record {
        round = st;
        local_sketch = blank;
        root_from_left = root_from_left;
        cur_root = instr.root;
      })
      >>= λ t.
          finish_thread h failures cur_round p merge_instr num_threads thr_id start root_exits_right
            t
          >>= λ t'. some t'.round

  unfoldable pub run_threads : ℕ → List MergeInstr → ℕ → List ℕ → RoundState → Option RoundState
  run_threads cur_round merge_instr num_threads [] st = some st
  run_threads cur_round merge_instr num_threads (thr_id ∷ schedule) st =
      run_thread cur_round merge_instr num_threads st thr_id >>= λ st'.
      run_threads cur_round merge_instr num_threads schedule st'

  -- Round zero visits the vertices in the order `order`.
  unfoldable pub perform_boruvka_round :
      ℕ
      → List ℕ
      → List ℕ
      → ℕ
      → List MergeInstr
      → List GlobalMergeData
      → CcSketchAlg
      → Option RoundState
  unfolding clear_global
  perform_boruvka_round num_threads schedule order cur_round merge_instr globals a =
      let st : RoundState = record {
        alg = a;
        global_merges = globals;
        modified = false;
        except = false;
      } in
      let cleared : RoundState = record st { global_merges = map clear_global globals } in
      if cur_round == 0
      then round_zero_loop h failures order st
      else run_threads cur_round merge_instr num_threads schedule cleared
