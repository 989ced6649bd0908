-- ===== src/CcAlg/Round/Single.antt =====
-- With one thread a round samples each supernode once, by the sum of its sketches.
use graph_zeppelin.Base.{
  ℕ, ◌-◌, ◌≡◌, ◌≢◌, inl, inr, refl, ◌∙◌, ap, arith, true, false, List, [], ◌∷◌, Option, none, some,
  map, lookup, length, ltb, ◌==◌, ==_iff, if◌then◌else◌, Option-cases, Bool-cases, slice, slice_all,
}
use graph_zeppelin.Bucket.{Hashes}
use graph_zeppelin.CcAlg.Round.{
  MergeInstr, RoundState, ThreadState, query_local, change_root, merge_child, thread_loop,
  CcSketchAlg, perform_boruvka_round, GlobalMergeData, run_threads, run_thread, clear_global,
  get_ith_partition, finish_thread, Partition,
}
use graph_zeppelin.CcAlg.Round.Groups.{split_groups, sample_group, sample_groups, groups}
use graph_zeppelin.CcAlg.Round.Local.{dims, zero_contents-dims, dims-range_merge, try_sample-cases}
use graph_zeppelin.Dsu.{◌>>=◌}
use graph_zeppelin.Sketch.{Sketch, zero_contents, range_merge}
use graph_zeppelin.Sketch.Valid.{IsValid, range_merge-IsValid}

-- A zeroed sketch, as a thread allocates it.
pub record IsBlank (blank : Sketch) : Type 0 where
  pub valid : IsValid blank
  pub zeroed : zero_contents blank ≡ blank

module _ (h : Hashes) (failures : ℕ → ℕ) (cur_round : ℕ) (blank : Sketch) (b : IsBlank blank) where
  -- A thread that shares no root with an earlier one.
  abbrev alone : RoundState → Sketch → ℕ → ThreadState
  alone st local root = record {
    round = st;
    local_sketch = local;
    root_from_left = false;
    cur_root = root;
  }

  -- The end of a thread, where `shared` is what it does with a root that it shares.
  abbrev last_query : (ThreadState → Option ThreadState) → ThreadState → Option RoundState
  last_query shared t =
      (if t.root_from_left then shared t else query_local h failures cur_round t) >>= λ t'.
      some t'.round

  abbrev rest_groups : RoundState → Sketch → ℕ → List ℕ × List (ℕ × List ℕ) → Option RoundState
  rest_groups st local root gs =
      sample_group h failures cur_round blank root local gs.0 st >>= λ st'.
      sample_groups h failures cur_round blank gs.1 st'

  -- The sketch is a blank one again.
  cleared : (skt : Sketch) → IsValid skt → dims skt ≡ dims blank → zero_contents skt ≡ blank
  cleared skt v d = zero_contents-dims skt blank v b.valid d ∙ b.zeroed

  -- From a partial sum on, the loop samples the supernodes of the instructions that are left.
  thread_loop-groups :
      (shared : ThreadState → Option ThreadState) (thr_id : ℕ) (instrs : List MergeInstr)
      (st : RoundState) (local : Sketch) (root : ℕ)
      → IsValid local
      → dims local ≡ dims blank
      → (thread_loop h failures cur_round thr_id instrs (alone st local root) >>= last_query shared)
        ≡ rest_groups st local root (split_groups root instrs)
  unfolding thread_loop query_local change_root merge_child
  thread_loop-groups shared thr_id [] st local root v d =
      elim (try_sample-cases h (failures root) st local v) [
        | inl e ↦ rw e
        | inr (st', skt, e, _) ↦ rw e
      ]
  thread_loop-groups shared thr_id (i ∷ instrs) st local root v d =
      elim (Bool-cases (i.root == root)) [
        | inl same ↦
            let s = ap (λ r. split_groups r instrs) ((==_iff i.root root).0 same) in
            elim (Option-cases (lookup st.alg.sketches i.child)) [
              | inl missing ↦ rw (same, missing)
              | inr (skt, e) ↦
                  rw (same, e, s)
                    (thread_loop-groups shared thr_id instrs st (range_merge local skt cur_round 1)
                      root (range_merge-IsValid local skt cur_round 1 v)
                      (dims-range_merge local skt cur_round 1 ∙ d))
            ]
        | inr new ↦ elim (try_sample-cases h (failures root) st local v) [
          | inl stuck ↦ rw (new, stuck)
          | inr (st', used, p, k) ↦
              let z = cleared used k.valid (k.same_dims ∙ d) in
              elim (Option-cases (lookup st'.alg.sketches i.child)) [
                | inl missing ↦ rw (new, p, z, missing)
                | inr (skt, e) ↦
                    rw (new, p, z, e)
                      (thread_loop-groups shared thr_id instrs st'
                        (range_merge blank skt cur_round 1) i.root
                        (range_merge-IsValid blank skt cur_round 1 b.valid)
                        (dims-range_merge blank skt cur_round 1))
              ]
        ]
      ]

some_bind : (x : Option RoundState) → (x >>= λ st. some st) ≡ x
some_bind none = refl
some_bind (some st) = refl

-- The state in which a round after round zero starts.
abbrev pub round_start : CcSketchAlg → List GlobalMergeData → RoundState
round_start a globals = record {
  alg = a;
  global_merges = map clear_global globals;
  modified = false;
  except = false;
}

-- With one thread, whose part is all of the vertices, a round after round zero samples the
-- supernodes of its instructions, one after the other, each by the sum of the sketches of its
-- vertices for that round.
pub single_round :
    (h : Hashes) (failures : ℕ → ℕ) (p : Partition) (blank : Sketch) (order : List ℕ)
    (cur_round : ℕ) (instr : MergeInstr) (instrs : List MergeInstr) (globals : List GlobalMergeData)
    (a : CcSketchAlg)
    → IsBlank blank
    → cur_round ≢ 0
    → length (instr ∷ instrs) ≡ a.num_vertices
    → p.first_of a.num_vertices 0 1 ≡ 0
    → p.first_of a.num_vertices 1 1 ≡ a.num_vertices
    → perform_boruvka_round h failures p blank 1 (0 ∷ []) order cur_round (instr ∷ instrs) globals a
      ≡ sample_groups h failures cur_round blank (groups (instr ∷ instrs)) (round_start a globals)
unfolding perform_boruvka_round run_threads run_thread get_ith_partition finish_thread
single_round h failures p blank order cur_round instr instrs globals a b late size first last =
    let later : (cur_round == 0) ≡ false = ground arith in
    let whole : ltb a.num_vertices a.num_vertices ≡ false = ground arith in
    let all : slice 0 (a.num_vertices - 0) (instr ∷ instrs) ≡ instr ∷ instrs =
      (let e : a.num_vertices - 0 ≡ length (instr ∷ instrs) = omega (arith, size) in
        rw e (slice_all (instr ∷ instrs))) in
    let own : (instr.root == instr.root) ≡ true = (==_iff instr.root instr.root).1 refl in
    rw (later, first, last, whole, all)
      (some_bind _
        ∙ thread_loop-groups h failures cur_round blank b _ 0 (instr ∷ instrs)
            (round_start a globals) blank instr.root b.valid refl
        ∙ rw own)
