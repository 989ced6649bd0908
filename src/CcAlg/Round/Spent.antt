-- ===== src/CcAlg/Round/Spent.antt =====
-- src/cc_sketch_alg.cpp: a round past the last sample of a sketch throws, with one thread.
use graph_zeppelin.Base.{
  ℕ, zero, suc, ◌+◌, ◌-◌, ◌≤◌, ◌<◌, ◌≡◌, refl, sym, ◌∙◌, ap, subst, arith, Bool, true, false, ◌||◌,
  List, [], ◌∷◌, Option, some, lookup, ltb, leb, ◌==◌, if◌then◌else◌, some_eq, if_elim, slice,
}
use graph_zeppelin.Bucket.{Hashes}
use graph_zeppelin.CcAlg.Round.{
  get_ith_partition, MergeInstr, Partition, RoundState, ThreadState, after_sample, try_sample,
  query_local, change_root, merge_child, thread_loop, finish_thread, run_thread, run_threads,
  same_root,
}
use graph_zeppelin.CcAlg.Round.Keep.{SameSample, try_sample-Same}
use graph_zeppelin.CcAlg.Round.Whenever.{Whenever, Whenever-bind, Whenever-eq}
use graph_zeppelin.CcAlg.Supernode.{use_sample, sample_supernode}
use graph_zeppelin.Dsu.{◌>>=◌}
use graph_zeppelin.Sketch.{Sketch, reset_sample_state, zero_contents, range_merge}
use graph_zeppelin.Sketch.Sample.{sample}

-- The one part of a range that is not divided.
pub record IsWhole (p : Partition) (n : ℕ) : Type 0 where
  pub first : p.first_of n 0 1 ≡ 0
  pub last : p.first_of n 1 1 ≡ n

module _ (h : Hashes) (failures : ℕ → ℕ) (cur_round num_samples : ℕ)
    (past : num_samples ≤ cur_round) where
  -- A thread that shares no root with an earlier one, with a local sketch of that many samples.
  abbrev Ready : ThreadState → Type 0
  Ready t = (t.local_sketch.num_samples ≡ num_samples) × (t.root_from_left ≡ false)

  -- Its local sketch has no sample left.
  abbrev Spent : ThreadState → Type 0
  Spent t = Ready t × (t.local_sketch.sample_idx ≡ num_samples)

  query_local-Ready :
      (t : ThreadState) → Ready t → Whenever Ready (query_local h failures cur_round t)
  unfolding query_local reset_sample_state
  query_local-Ready t (e, f) =
      Whenever-bind (SameSample t.round t.local_sketch) Ready
        (try_sample h (failures t.cur_root) t.round t.local_sketch) _
        (try_sample-Same h (failures t.cur_root) t.round t.local_sketch)
        λ x p. (ap (λ (s : Sketch). s.num_samples) p.1 ∙ e, f)

  change_root-Ready :
      (thr_id root : ℕ) (t : ThreadState)
      → Ready t
      → Whenever Ready (change_root h failures cur_round thr_id root t)
  unfolding change_root zero_contents reset_sample_state
  change_root-Ready thr_id root t r =
      Whenever-bind Ready Ready _ _
        (if_elim (Whenever Ready) t.root_from_left _ _ (λ t'. absurd (ground (arith, r.1, t')))
          (λ _. query_local-Ready t r))
        λ t' p. p

  merge_child-Spent :
      (child : ℕ) (t : ThreadState)
      → Ready t
      → Whenever Spent (merge_child h failures cur_round child t)
  unfolding merge_child range_merge
  merge_child-Spent child t (e, f) =
      Whenever-eq Spent (lookup t.round.alg.sketches child) _ λ skt _.
        if_elim (λ (s : Sketch). Spent (record t { local_sketch = s }))
          (ltb t.local_sketch.num_samples (cur_round + 1)) _ _ (λ _. ((e, f), e))
          (λ no_room. absurd (ground (arith, no_room, e, past)))

  -- One instruction, and the loop after it.
  thread_step-Spent :
      (thr_id : ℕ) (instr : MergeInstr) (instrs : List MergeInstr) (t : ThreadState)
      → Ready t
      → ((t' : ThreadState)
          → Spent t'
          → Whenever Spent (thread_loop h failures cur_round thr_id instrs t'))
      → Whenever Spent (thread_loop h failures cur_round thr_id (instr ∷ instrs) t)
  unfolding thread_loop
  thread_step-Spent thr_id instr instrs t r rest =
      Whenever-bind Ready Spent
        (if instr.root == t.cur_root
          then some t
          else change_root h failures cur_round thr_id instr.root t)
        _
        (if_elim (Whenever Ready) (instr.root == t.cur_root) _ _ (λ _. r)
          (λ _. change_root-Ready thr_id instr.root t r))
        λ t1 r1.
          Whenever-bind Spent Spent (merge_child h failures cur_round instr.child t1) _
            (merge_child-Spent instr.child t1 r1) rest

  thread_loop-Spent :
      (thr_id : ℕ) (instrs : List MergeInstr) (t : ThreadState)
      → Spent t
      → Whenever Spent (thread_loop h failures cur_round thr_id instrs t)
  unfolding thread_loop
  thread_loop-Spent thr_id [] t s = s
  thread_loop-Spent thr_id (instr ∷ instrs) t s =
      thread_step-Spent thr_id instr instrs t s.0 (thread_loop-Spent thr_id instrs)

  -- The sample of a used up sketch throws.
  query_local-except :
      (t : ThreadState)
      → Spent t
      → Whenever (λ (t' : ThreadState). t'.round.except ≡ true) (query_local h failures cur_round t)
  unfolding query_local try_sample sample_supernode sample use_sample after_sample
  query_local-except t ((e, f), s) =
      if_elim
        (λ q.
          Whenever (λ (t' : ThreadState). t'.round.except ≡ true)
            (after_sample t.round t.local_sketch (use_sample (failures t.cur_root) t.round.alg q)
              >>= λ (st, skt). some (record t { round = st; local_sketch = skt })))
        (leb t.local_sketch.num_samples t.local_sketch.sample_idx) _ _ (λ _. refl)
        (λ left. absurd (ground (arith, left, e, s)))

  finish_thread-except :
      (p : Partition) (instrs : List MergeInstr) (num_threads thr_id start : ℕ) (exits : Bool)
      (t : ThreadState)
      → exits ≡ false
      → Spent t
      → Whenever
          (λ (t' : ThreadState). t'.round.except ≡ true)
          (finish_thread h failures cur_round p instrs num_threads thr_id start exits t)
  unfolding finish_thread
  finish_thread-except p instrs num_threads thr_id start exits t x s =
      if_elim (Whenever (λ (t' : ThreadState). t'.round.except ≡ true)) (exits || t.root_from_left)
        _ _ (λ shared. absurd (ground (arith, shared, x, s.0.1))) (λ _. query_local-except t s)

slice-cons {ℓ} :
    {A : Type ℓ} (xs : List A) (i len : ℕ) (x : A)
    → lookup xs i ≡ some x
    → 0 < len
    → (rest : List A) × (slice i len xs ≡ x ∷ rest)
slice-cons [] i len x e lt = absurd cc
slice-cons (y ∷ xs) zero zero x e lt = absurd (omega arith)
slice-cons (y ∷ xs) zero (suc len) x e lt =
    (slice zero len xs, ap (λ z. z ∷ slice zero len xs) (some_eq e))
slice-cons (y ∷ xs) (suc i) len x e lt = slice-cons xs i len x e lt

-- A test that is not made reads nothing.
untested :
    (b x : Bool) (o : Option Bool) → b ≡ false → (if b then o else some false) ≡ some x → x ≡ false
untested true x o f e = absurd cc
untested false x o f e = sym (some_eq e)

module _ (h : Hashes) (failures : ℕ → ℕ) (p : Partition) (blank : Sketch) where
  run_thread-except :
      (cur_round : ℕ) (instrs : List MergeInstr) (st : RoundState)
      → blank.num_samples ≤ cur_round
      → 0 < st.alg.num_vertices
      → IsWhole p st.alg.num_vertices
      → Whenever
          (λ (st' : RoundState). st'.except ≡ true)
          (run_thread h failures p blank cur_round instrs 1 st 0)
  unfolding run_thread get_ith_partition
  run_thread-except cur_round instrs st past some_vertex whole =
      let n = st.alg.num_vertices in
      let Thrown : RoundState → Type 0 = λ st'. st'.except ≡ true in
      let part = get_ith_partition p n 0 1 in
      let left = same_root instrs (part.0 - 1) part.0 in
      let right = same_root instrs (part.1 - 1) part.1 in
      Whenever-eq Thrown (if ltb 0 part.0 then left else some false) _ λ from_left fl.
        Whenever-eq Thrown (if ltb part.1 n then right else some false) _ λ exits ex.
          Whenever-eq Thrown (lookup instrs part.0) _ λ instr at_start.
            let t : ThreadState = record {
              round = st;
              local_sketch = blank;
              root_from_left = from_left;
              cur_root = instr.root;
            } in
            let (rest, mine) =
              slice-cons instrs part.0 (part.1 - part.0) instr at_start
                (omega (arith, whole.first, whole.last, some_vertex)) in
            let Spends : ThreadState → Type 0 = Spent h failures cur_round blank.num_samples past in
            let alone = untested (ltb 0 part.0) from_left left (ground (arith, whole.first)) fl in
            let inside = untested (ltb part.1 n) exits right (ground (arith, whole.last)) ex in
            Whenever-bind Spends Thrown
              (thread_loop h failures cur_round 0 (slice part.0 (part.1 - part.0) instrs) t) _
              (subst (λ is. Whenever Spends (thread_loop h failures cur_round 0 is t)) (sym mine)
                (thread_step-Spent h failures cur_round blank.num_samples past 0 instr rest t
                  (refl, alone)
                  (thread_loop-Spent h failures cur_round blank.num_samples past 0 rest)))
              λ t1 s.
                Whenever-bind (λ (t2 : ThreadState). t2.round.except ≡ true) Thrown
                  (finish_thread h failures cur_round p instrs 1 0 part.0 exits t1) _
                  (finish_thread-except h failures cur_round blank.num_samples past p instrs 1 0
                    part.0 exits t1 inside s)
                  λ t2 q. q

  -- A round of one thread past the last sample throws, if no assertion fails.
  pub run_threads-except :
      (cur_round : ℕ) (instrs : List MergeInstr) (st : RoundState)
      → blank.num_samples ≤ cur_round
      → 0 < st.alg.num_vertices
      → IsWhole p st.alg.num_vertices
      → Whenever
          (λ (st' : RoundState). st'.except ≡ true)
          (run_threads h failures p blank cur_round instrs 1 (0 ∷ []) st)
  unfolding run_threads
  run_threads-except cur_round instrs st past some_vertex whole =
      Whenever-bind (λ (st' : RoundState). st'.except ≡ true) (λ st'. st'.except ≡ true)
        (run_thread h failures p blank cur_round instrs 1 st 0) _
        (run_thread-except cur_round instrs st past some_vertex whole) λ st' q. q
