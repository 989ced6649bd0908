-- ===== src/McAlg/Keep.antt =====
-- src/mc_sketch_alg.cpp: a query for a spanning forest keeps the contents of every sketch, for any
-- threads in any order.
use graph_zeppelin.Base.{
  ℕ, zero, suc, ◌+◌, ◌*◌, ◌≡◌, inl, inr, refl, sym, ◌∙◌, ap, subst, false, List, [], ◌∷◌, Option,
  none, some, map, ◌==◌, eq-cases, some_eq, set, if_elim,
}
use graph_zeppelin.CcAlg.{CcSketchAlg}
use graph_zeppelin.CcAlg.Query.{Machine}
use graph_zeppelin.CcAlg.Round.{MergeInstr, GlobalMergeData, RoundState, clear_global}
use graph_zeppelin.CcAlg.Round
use graph_zeppelin.CcAlg.Instr
use graph_zeppelin.CcAlg.Round.Keep.{outline, round_zero_loop-Same}
use graph_zeppelin.CcAlg.Round.Threads.{run_threads-Same}
use graph_zeppelin.CcAlg.Round.Whenever.{
  bind_some, Whenever, Whenever-bind, Whenever-eq, Whenever-map,
}
use graph_zeppelin.McAlg.{McSketchAlg, sketch_at}
use graph_zeppelin.McAlg.Filter.Contents.{contents, rested}
use graph_zeppelin.McAlg.Places.{sketch_at-set_self, sketch_at-set_ne}
use graph_zeppelin.McAlg.Query
use graph_zeppelin.McAlg.Query.{
  Run, ran, threw, stuck, out_of_fuel, after_instrs, after_round, k_emulation_loop,
  k_boruvka_emulation, begin_emulation, swallow, calc_spanning_forest,
}
use graph_zeppelin.McAlg.Round.{
  KRoundState, read_graph, write_graph, view, put_back, k_round_of, run_k_round_zero,
  perform_k_boruvka_round, create_merge_instructions,
}
use graph_zeppelin.Pairing.{u32}
use graph_zeppelin.ReturnTypes.{SpanningForest, new_spanning_forest}
use graph_zeppelin.Sketch.{Sketch, reset_sample_state}

cons_ne {ℓ} : {A : Type ℓ} {x : A} {xs : List A} → x ∷ xs ≡ [] → ⊥
cons_ne e = cc

none_ne : {r : Sketch} → none ≡ some r → ⊥
none_ne e = cc

cons_eq {ℓ} : {A : Type ℓ} {x y : A} {xs ys : List A} → x ∷ xs ≡ y ∷ ys → (x ≡ y) × (xs ≡ ys)
cons_eq e = (cc, cc)

-- A sketch with the same contents is stored.
contents-set :
    (sketches : List (Option Sketch)) (i j : ℕ) (skt skt' : Sketch)
    → sketch_at sketches i ≡ some skt
    → reset_sample_state skt' ≡ reset_sample_state skt
    → contents (set sketches i (some skt')) j ≡ contents sketches j
contents-set sketches i j skt skt' e r = elim (eq-cases i j) [
  | inl same ↦
      subst (λ k. contents (set sketches i (some skt')) k ≡ contents sketches k) same
        (ap rested (sketch_at-set_self sketches i skt skt' e) ∙ ap some r ∙ sym (ap rested e))
  | inr ne ↦ ap rested (sketch_at-set_ne sketches i j (some skt') ne)
]

some_inside : (o : Option Sketch) (r : Sketch) → rested o ≡ some r → (skt : Sketch) × (o ≡ some skt)
some_inside none r e = absurd (none_ne e)
some_inside (some skt) r e = (skt, refl)

-- A sketch is stored where the original has the same contents.
contents-over :
    (first sketches : List (Option Sketch)) (i : ℕ) (skt skt' : Sketch)
    → ((j : ℕ) → contents sketches j ≡ contents first j)
    → sketch_at first i ≡ some skt
    → reset_sample_state skt' ≡ reset_sample_state skt
    → (j : ℕ) → contents (set sketches i (some skt')) j ≡ contents first j
contents-over first sketches i skt skt' same e r j =
    let here = same i ∙ ap rested e in
    let (skt0, at_i) = some_inside (sketch_at sketches i) (reset_sample_state skt) here in
    let r0 : reset_sample_state skt ≡ reset_sample_state skt0 =
      some_eq (sym here ∙ ap rested at_i) in
    contents-set sketches i j skt0 skt' at_i (r ∙ r0) ∙ same j

-- The sketches of a graph are written back with the same contents.
write_graph-contents :
    (first sketches : List (Option Sketch)) (left i : ℕ) (skts skts' : List Sketch)
    → ((j : ℕ) → contents sketches j ≡ contents first j)
    → read_graph first left i ≡ some skts
    → map reset_sample_state skts' ≡ map reset_sample_state skts
    → (j : ℕ) → contents (write_graph sketches i skts') j ≡ contents first j
unfolding read_graph write_graph
write_graph-contents first sketches left i skts [] same e r j = same j
write_graph-contents first sketches zero i skts (s' ∷ rest') same e r j =
    absurd (cons_ne (r ∙ ap (map reset_sample_state) (sym (some_eq e))))
write_graph-contents first sketches (suc left) i skts (s' ∷ rest') same e r j =
    let (skt, at_i, e') = bind_some (sketch_at first (u32 i)) _ skts e in
    let (rest, at_rest, e'') = bind_some (read_graph first left (i + 1)) _ skts e' in
    let r' : (reset_sample_state s' ≡ reset_sample_state skt)
        × (map reset_sample_state rest' ≡ map reset_sample_state rest) =
      cons_eq (r ∙ ap (map reset_sample_state) (sym (some_eq e''))) in
    write_graph-contents first (set sketches (u32 i) (some s')) left (i + 1) rest rest'
      (contents-over first sketches (u32 i) skt s' same at_i r'.0) at_rest r'.1 j

-- The same vertices, and the same contents.
abbrev pub Kept : McSketchAlg → McSketchAlg → Type 0
Kept a a' =
    (a'.num_vertices ≡ a.num_vertices) × ((j : ℕ) → contents a'.sketches j ≡ contents a.sketches j)

pub Kept-trans : (a b c : McSketchAlg) → Kept a b → Kept b c → Kept a c
Kept-trans a b c (p, q) (p', q') = (p' ∙ p, λ j. q' j ∙ q j)

k_round_of-Kept :
    (graph_id : ℕ) (a : McSketchAlg) (skts : List Sketch) (st : RoundState)
    → read_graph a.sketches a.num_vertices (graph_id * a.num_vertices) ≡ some skts
    → outline st.alg ≡ outline (view a skts)
    → Kept a (k_round_of graph_id a st).alg
unfolding k_round_of put_back outline view
k_round_of-Kept graph_id a skts st e o = (
  refl,
  write_graph-contents a.sketches a.sketches a.num_vertices (graph_id * a.num_vertices) skts
      st.alg.sketches (λ j. refl) e (ap (λ (c : CcSketchAlg). c.sketches) o),
)

module _ (m : Machine) (graph_id : ℕ) where
  pub k_round-Kept :
      (cur_round : ℕ) (instrs : List MergeInstr) (globals : List GlobalMergeData) (a : McSketchAlg)
      → Whenever
          (λ st. Kept a st.alg)
          (perform_k_boruvka_round m cur_round instrs globals graph_id a)
  unfolding perform_k_boruvka_round run_k_round_zero
  k_round-Kept cur_round instrs globals a =
      let P : KRoundState → Type 0 = λ st. Kept a st.alg in
      let skts = read_graph a.sketches a.num_vertices (graph_id * a.num_vertices) in
      let begin : List Sketch → List GlobalMergeData → RoundState =
        λ s gs. record { alg = view a s; global_merges = gs; modified = false; except = false } in
      if_elim (Whenever P) (cur_round == 0) _ _
        (λ _. Whenever-eq P skts _ λ s e.
          Whenever-bind (λ st. outline st.alg ≡ outline (view a s)) P
            (Round.round_zero_loop m.hashes (m.failures cur_round) m.order (begin s globals)) _
            (round_zero_loop-Same m.hashes (m.failures cur_round) m.order (begin s globals))
            (λ st o. k_round_of-Kept graph_id a s st e o))
        (λ _. Whenever-eq P skts _ λ s e.
          Whenever-bind (λ st. outline st.alg ≡ outline (view a s)) P
            (Round.run_threads m.hashes (m.failures cur_round) m.partition m.blank cur_round instrs
              m.num_threads (m.schedule cur_round) (begin s (map clear_global globals)))
            _
            (run_threads-Same m.hashes (m.failures cur_round) m.partition m.blank cur_round instrs
              m.num_threads (m.schedule cur_round) (begin s (map clear_global globals)))
            (λ st o. k_round_of-Kept graph_id a s st e o))

  -- However the loop ends.
  abbrev pub KeepsRun : {A : Type 0} → McSketchAlg → Run A → Type 0
  KeepsRun a (ran x a') = Kept a a'
  KeepsRun a (threw a') = Kept a a'
  KeepsRun a stuck = Unit
  KeepsRun a out_of_fuel = Unit

  instrs-KeepsRun :
      (next : List MergeInstr → List GlobalMergeData → McSketchAlg → Run (Unit {0}))
      (a : McSketchAlg) (globals : List GlobalMergeData)
      (o : Option (List MergeInstr × McSketchAlg))
      → ((is : List MergeInstr) (gs : List GlobalMergeData) (b : McSketchAlg)
          → Kept a b
          → KeepsRun a (next is gs b))
      → Whenever (λ r. Kept a r.1) o
      → KeepsRun a (after_instrs m next globals o)
  unfolding after_instrs
  instrs-KeepsRun next a globals none k p = tt
  instrs-KeepsRun next a globals (some (instrs, b)) k p = k instrs globals b p

  pub instrs-Kept :
      (a b : McSketchAlg) (r : ℕ) (instrs : List MergeInstr)
      → Kept a b
      → Whenever
          (λ (s : List MergeInstr × McSketchAlg). Kept a s.1)
          (create_merge_instructions m r instrs b)
  unfolding create_merge_instructions
  instrs-Kept a b r instrs p =
      Whenever-eq (λ (s : List MergeInstr × McSketchAlg). Kept a s.1)
        (Instr.create_merge_instructions m.partition b.num_vertices m.num_threads (m.schedule r)
          b.dsu instrs)
        _ λ x _. p

  round-KeepsRun :
      (next : List MergeInstr → List GlobalMergeData → McSketchAlg → Run (Unit {0}))
      (a : McSketchAlg) (r : ℕ) (instrs : List MergeInstr) (o : Option KRoundState)
      → ((is : List MergeInstr) (gs : List GlobalMergeData) (b : McSketchAlg)
          → Kept a b
          → KeepsRun a (next is gs b))
      → Whenever (λ st. Kept a st.alg) o
      → KeepsRun a (after_round m next (λ a'. record a' { update_locked = false }) r instrs o)
  unfolding after_round create_merge_instructions
  round-KeepsRun next a r instrs none k p = tt
  round-KeepsRun next a r instrs (some st) k p =
      if_elim (KeepsRun a) st.except _ _ (λ _. p)
        λ _.
          if_elim (KeepsRun a) st.modified _ _
            (λ _.
              instrs-KeepsRun next a st.global_merges (create_merge_instructions m r instrs st.alg)
                k (instrs-Kept a st.alg r instrs p))
            (λ _. p)

  k_loop-KeepsRun :
      (fuel r : ℕ) (instrs : List MergeInstr) (globals : List GlobalMergeData) (a b : McSketchAlg)
      → Kept a b
      → KeepsRun a (k_emulation_loop m graph_id fuel r instrs globals b)
  unfolding k_emulation_loop
  k_loop-KeepsRun zero r instrs globals a b p = tt
  k_loop-KeepsRun (suc fuel) r instrs globals a b p =
      round-KeepsRun (k_emulation_loop m graph_id fuel (r + 1)) a r instrs _
        (λ is gs c q. k_loop-KeepsRun fuel (r + 1) is gs a c q)
        (Whenever-map (λ st. Kept b st.alg) (λ st. Kept a st.alg)
          (perform_k_boruvka_round m r instrs globals graph_id b)
          (λ st q. Kept-trans a b st.alg p q) (k_round-Kept r instrs globals b))

  swallowed :
      (a : McSketchAlg) (q : Run (Unit {0}))
      → KeepsRun a q
      → KeepsRun {A = SpanningForest} a (
          Query.◌>>=◌
            (swallow m q)
            λ _ a'. ran (new_spanning_forest a'.num_vertices a'.spanning_forest) a')
  unfolding swallow
  swallowed a (ran x a') k = k
  swallowed a (threw a') k = k
  swallowed a stuck k = tt
  swallowed a out_of_fuel k = tt

  pub calc_spanning_forest-Kept : (a : McSketchAlg) → KeepsRun a (calc_spanning_forest m graph_id a)
  unfolding calc_spanning_forest k_boruvka_emulation begin_emulation
  calc_spanning_forest-Kept a =
      swallowed a (k_boruvka_emulation m graph_id a)
        (k_loop-KeepsRun _ 0 _ _ a (begin_emulation m a) (refl, λ j. refl))
