-- ===== src/CcAlg/Round/Threads.antt =====
-- src/cc_sketch_alg.cpp: what the threads of a round leave alone, in any order.
use graph_zeppelin.Base.{
  ℕ, ◌-◌, ◌≡◌, refl, ◌∙◌, Bool, false, ◌||◌, List, [], ◌∷◌, some, lookup, ltb, ◌==◌, if◌then◌else◌,
  if_elim, slice,
}
use graph_zeppelin.Bucket.{Hashes}
use graph_zeppelin.CcAlg.{CcSketchAlg}
use graph_zeppelin.CcAlg.Round.{
  get_ith_partition, MergeInstr, GlobalMergeData, Partition, RoundState, ThreadState, try_sample,
  query_local, query_global, merge_global, merge_and_query, change_root, merge_child, thread_loop,
  announce, finish_thread, run_thread, run_threads, perform_boruvka_round, same_root,
  find_last_partition_of_root,
}
use graph_zeppelin.Sketch.{Sketch}
use graph_zeppelin.CcAlg.Round.Whenever.{Whenever, Whenever-bind, Whenever-map, Whenever-eq}
use graph_zeppelin.CcAlg.Round.Keep.{
  outline, Same, SameThread, SameSample, try_sample-Same, round_zero_loop-Same,
}

module _ (h : Hashes) (failures : ℕ → ℕ) (cur_round : ℕ) where
  query_local-Same :
      (t : ThreadState) → Whenever (SameThread t) (query_local h failures cur_round t)
  unfolding query_local
  query_local-Same t =
      Whenever-bind (SameSample t.round t.local_sketch) (SameThread t)
        (try_sample h (failures t.cur_root) t.round t.local_sketch) _
        (try_sample-Same h (failures t.cur_root) t.round t.local_sketch) λ x p. p.0

  query_global-Same :
      (global_id : ℕ) (global : GlobalMergeData) (t : ThreadState)
      → Whenever (SameThread t) (query_global h failures cur_round global_id global t)
  unfolding query_global
  query_global-Same global_id global t =
      Whenever-bind (SameSample t.round global.sketch) (SameThread t)
        (try_sample h (failures t.cur_root) t.round global.sketch) _
        (try_sample-Same h (failures t.cur_root) t.round global.sketch) λ x p. p.0

  merge_and_query-Same :
      (global_id : ℕ) (t : ThreadState)
      → Whenever (SameThread t) (merge_and_query h failures cur_round global_id t)
  unfolding merge_and_query
  merge_and_query-Same global_id t =
      Whenever-eq (SameThread t) (lookup t.round.global_merges global_id) _ λ global _.
        Whenever-eq (SameThread t) (merge_global cur_round t.local_sketch global) _ λ (g, ready) _.
          if_elim (Whenever (SameThread t)) ready _ _ (λ _. query_global-Same global_id g _)
            (λ _. refl)

  change_root-Same :
      (thr_id root : ℕ) (t : ThreadState)
      → Whenever (SameThread t) (change_root h failures cur_round thr_id root t)
  unfolding change_root
  change_root-Same thr_id root t =
      Whenever-bind (SameThread t) (SameThread t) _ _
        (if_elim (Whenever (SameThread t)) t.root_from_left _ _
          (λ _.
            Whenever-bind (SameThread t) (SameThread t)
              (merge_and_query h failures cur_round thr_id t) _ (merge_and_query-Same thr_id t)
              λ t' p. p)
          (λ _. query_local-Same t))
        λ t' p. p

  thread_loop-Same :
      (thr_id : ℕ) (instrs : List MergeInstr) (t : ThreadState)
      → Whenever (SameThread t) (thread_loop h failures cur_round thr_id instrs t)
  unfolding thread_loop merge_child
  thread_loop-Same thr_id [] t = refl
  thread_loop-Same thr_id (instr ∷ instrs) t =
      Whenever-bind (SameThread t) (SameThread t)
        (if instr.root == t.cur_root
          then some t
          else change_root h failures cur_round thr_id instr.root t)
        _
        (if_elim (Whenever (SameThread t)) (instr.root == t.cur_root) _ _ (λ _. refl)
          (λ _. change_root-Same thr_id instr.root t))
        λ t1 p.
          Whenever-bind (SameThread t1) (SameThread t)
            (merge_child h failures cur_round instr.child t1) _
            (Whenever-eq (SameThread t1) (lookup t1.round.alg.sketches instr.child) _ λ skt _. refl)
            λ t2 q.
              Whenever-map (SameThread t2) (SameThread t) _ (λ t3 r. r ∙ q ∙ p)
                (thread_loop-Same thr_id instrs t2)

  finish_thread-Same :
      (p : Partition) (instrs : List MergeInstr) (num_threads thr_id start : ℕ) (exits : Bool)
      (t : ThreadState)
      → Whenever
          (SameThread t)
          (finish_thread h failures cur_round p instrs num_threads thr_id start exits t)
  unfolding finish_thread announce
  finish_thread-Same p instrs num_threads thr_id start exits t =
      if_elim (Whenever (SameThread t)) (exits || t.root_from_left) _ _
        (λ _.
          Whenever-eq (SameThread t)
            (find_last_partition_of_root p instrs t.cur_root start num_threads) _
            λ global_id _.
              Whenever-bind (SameThread t) (SameThread t)
                (announce h failures cur_round thr_id global_id t) _
                (Whenever-eq (SameThread t) (lookup t.round.global_merges global_id) _
                  λ global _. if_elim (SameThread t) t.root_from_left _ _ (λ _. refl) (λ _. refl))
                λ t1 q.
                  Whenever-map (SameThread t1) (SameThread t) _ (λ t2 r. r ∙ q)
                    (merge_and_query-Same global_id t1))
        (λ _. query_local-Same t)

module _ (h : Hashes) (failures : ℕ → ℕ) (p : Partition) (blank : Sketch) where
  run_thread-Same :
      (cur_round : ℕ) (instrs : List MergeInstr) (num_threads : ℕ) (st : RoundState) (thr_id : ℕ)
      → Whenever (Same st) (run_thread h failures p blank cur_round instrs num_threads st thr_id)
  unfolding run_thread
  run_thread-Same cur_round instrs num_threads st thr_id =
      let n = st.alg.num_vertices in
      let part = get_ith_partition p n thr_id num_threads in
      let left = same_root instrs (part.0 - 1) part.0 in
      let right = same_root instrs (part.1 - 1) part.1 in
      Whenever-eq (Same st) (if ltb 0 part.0 then left else some false) _ λ from_left _.
        Whenever-eq (Same st) (if ltb part.1 n then right else some false) _ λ exits _.
          Whenever-eq (Same st) (lookup instrs part.0) _ λ instr _.
            let t : ThreadState = record {
              round = st;
              local_sketch = blank;
              root_from_left = from_left;
              cur_root = instr.root;
            } in
            let mine = slice part.0 (part.1 - part.0) instrs in
            Whenever-bind (SameThread t) (Same st) (thread_loop h failures cur_round thr_id mine t)
              _ (thread_loop-Same h failures cur_round thr_id mine t)
              λ t1 o.
                Whenever-bind (SameThread t1) (Same st)
                  (finish_thread h failures cur_round p instrs num_threads thr_id part.0 exits t1) _
                  (finish_thread-Same h failures cur_round p instrs num_threads thr_id part.0 exits
                    t1)
                  λ t2 q. q ∙ o

  pub run_threads-Same :
      (cur_round : ℕ) (instrs : List MergeInstr) (num_threads : ℕ) (schedule : List ℕ)
      (st : RoundState)
      → Whenever (Same st) (run_threads h failures p blank cur_round instrs num_threads schedule st)
  unfolding run_threads
  run_threads-Same cur_round instrs num_threads [] st = refl
  run_threads-Same cur_round instrs num_threads (thr_id ∷ schedule) st =
      Whenever-bind (Same st) (Same st)
        (run_thread h failures p blank cur_round instrs num_threads st thr_id) _
        (run_thread-Same cur_round instrs num_threads st thr_id)
        λ st1 o.
          Whenever-map (Same st1) (Same st) _ (λ st2 q. q ∙ o)
            (run_threads-Same cur_round instrs num_threads schedule st1)

  pub perform_boruvka_round-Same :
      (num_threads : ℕ) (schedule order : List ℕ) (cur_round : ℕ) (instrs : List MergeInstr)
      (globals : List GlobalMergeData) (a : CcSketchAlg)
      → Whenever
          (λ st. outline st.alg ≡ outline a)
          (perform_boruvka_round h failures p blank num_threads schedule order cur_round instrs
            globals a)
  unfolding perform_boruvka_round
  perform_boruvka_round-Same num_threads schedule order cur_round instrs globals a =
      if_elim (Whenever (λ st. outline st.alg ≡ outline a)) (cur_round == 0) _ _
        (λ _. round_zero_loop-Same h failures order _)
        (λ _. run_threads-Same cur_round instrs num_threads schedule _)
