-- ===== src/CcAlg/Round/Examples.antt =====
-- Tests of a round over two vertices and the edge between them.
use graph_zeppelin.Base.{
  ℕ, zero, suc, ◌+◌, ◌*◌, ◌<◌, ◌≡◌, ◌≢◌, ◌⊎◌, inl, inr, refl, sym, ◌∙◌, ap, subst, arith, Bool,
  true, ◌&&◌, List, [], ◌∷◌, some, ◌==◌, contains, ◌/◌,
}
use mathlib.Core.List.{Memᴰ}
use mathlib.Core.List.Memᴰ
use graph_zeppelin.Bucket.{Hashes, is_good, get_index_depth, get_index_hash}
use graph_zeppelin.CcAlg.{CcSketchAlg, new_cc_sketch_alg}
use graph_zeppelin.CcAlg.Forest.{IsEager, no_edges}
use graph_zeppelin.CcAlg.Round.{MergeInstr, Partition, RoundState, perform_boruvka_round}
use graph_zeppelin.CcAlg.Round.Correct.{single_round-IsEager}
use graph_zeppelin.CcAlg.Round.Groups.{groups, sample_groups}
use graph_zeppelin.CcAlg.Round.Pass.{ArePartition, IsTrusted}
use graph_zeppelin.CcAlg.Round.Progress.{IsSound, IsCutSketch}
use graph_zeppelin.CcAlg.Round.Single.{IsBlank, single_round, round_start}
use graph_zeppelin.CcAlg.Eager.{SameSet-refl}
use graph_zeppelin.Dsu.Reset.{new_dsu-IsValid, SameSet-new_dsu}
use graph_zeppelin.CcAlg.Stream.{new_cc-IsEagerAlg}
use graph_zeppelin.CcAlg.Supernode.{IsEager-IsSpanning, edge_of}
use graph_zeppelin.Dsu.{new_dsu}
use graph_zeppelin.Dsu.Merge.{SameSet}
use graph_zeppelin.Bucket
use graph_zeppelin.Sketch.{
  merge_loop, update_at, update_columns, column_seed, checksum_seed, range_merge, zero_loop, Sketch,
  new_sketch, calc_bkt_per_col, update, zero_contents,
}
use graph_zeppelin.Sketch.Sample.{
  sample, query, is_zero, found, first_good, first_good_column, all_zero, SketchSample, returned,
  good,
}
use graph_zeppelin.Pairing.{lower, upper, inv_concat_pairing_fn, concat_pairing_fn}
use graph_zeppelin.Sketch.Valid.{new_sketch-IsValid}

abbrev toy : Hashes
toy = record { vec_hash = λ x s. x * 7 + s + 1; col_hash = λ x s. x * 3 + s }

blank : Sketch
unfolding new_sketch calc_bkt_per_col
blank = new_sketch (λ n. 3) 8 11 2 1

blank-IsBlank : IsBlank blank
unfolding blank zero_contents zero_loop
blank-IsBlank = record { valid = new_sketch-IsValid (λ n. 3) 8 11 2 1; zeroed = refl }

-- The sketch of either vertex.
end_sketch : Sketch
unfolding blank update concat_pairing_fn
end_sketch = update toy blank (concat_pairing_fn 0 1)

two : CcSketchAlg
unfolding new_cc_sketch_alg new_dsu
two = record (new_cc_sketch_alg (λ i. 7) 2 blank) { sketches = end_sketch ∷ end_sketch ∷ [] }

abbrev one_edge : ℕ → ℕ → Bool
one_edge x y = x == 0 && y == 1

abbrev one_part : Partition
one_part = record {
  first_of = λ len i parts. i * len / parts;
  part_of = λ len idx parts. idx * parts / len;
}

abbrev each_alone : List MergeInstr
each_alone = record { root = 0; child = 0 } ∷ record { root = 1; child = 1 } ∷ []

two-IsSound : IsSound 2 one_edge two
unfolding two
two-IsSound =
    let i = (new_cc-IsEagerAlg (λ i. 7) 2 blank).eager refl in
    record {
      spanning = IsEager-IsSpanning 2 no_edges two i;
      planted = λ x y e. (let clash = i.planted x y e in ground arith);
    }

own_group : (x : ℕ) → x < 2 → Memᴰ (x, x ∷ []) (groups each_alone)
own_group zero lx = Memᴰ.head refl
own_group (suc zero) lx = Memᴰ.tail (Memᴰ.head refl)
own_group (suc (suc x)) lx = absurd (omega arith)

contains_one : (x y : ℕ) → contains y (x ∷ []) ≡ true → x ≡ y
contains_one x y e = ground arith

contains_self : (x : ℕ) → contains x (x ∷ []) ≡ true
contains_self x = ground arith

two-ArePartition : ArePartition 2 two (groups each_alone)
unfolding two
two-ArePartition = record {
  whole = λ g m x y lx ly s. ap (λ z. contains z g.1) (SameSet-new_dsu (λ i. 7) 2 x y lx ly s);
  found = λ x lx. (
    (x, x ∷ []),
    own_group x lx,
    contains_self x,
    λ y ly c.
        subst (SameSet two.dsu x) (contains_one x y c)
          (SameSet-refl two.dsu x (new_dsu-IsValid (λ i. 7) 2) lx),
  );
}

sum_sketch : Sketch
unfolding blank end_sketch range_merge
sum_sketch = range_merge blank end_sketch 1 1

abbrev edge_sample : SketchSample
edge_sample = record { idx = 1; result = good }

sample_runs : sample toy sum_sketch ≡ returned edge_sample (record sum_sketch { sample_idx = 2 })
unfolding sum_sketch sample query is_zero found first_good first_good_column is_good blank
    end_sketch range_merge update concat_pairing_fn merge_loop update_at
    graph_zeppelin.Bucket.update update_columns get_index_depth column_seed get_index_hash
    checksum_seed
sample_runs = refl

returned_inj : {s s' : SketchSample} {k k' : Sketch} → returned s k ≡ returned s' k' → s' ≡ s
returned_inj e = cc

not_zero : good ≢ all_zero
not_zero e = cc

edge_only :
    (s : SketchSample) (skt' : Sketch) → sample toy sum_sketch ≡ returned s skt' → s ≡ edge_sample
edge_only s skt' e = returned_inj (sym sample_runs ∙ e)

-- What holds of the one sample holds of every sample.
of_sample :
    (P : SketchSample → Type 0)
    → P edge_sample
    → (s : SketchSample) (skt' : Sketch) → sample toy sum_sketch ≡ returned s skt'
    → P s
of_sample P p s skt' e = subst P (sym (edge_only s skt' e)) p

sum_sketch-IsCutSketch :
    (vs : List ℕ) → contains 0 vs ≢ contains 1 vs → IsCutSketch toy 2 one_edge vs sum_sketch
unfolding inv_concat_pairing_fn
sum_sketch-IsCutSketch vs ne = record {
  inside = λ s skt' e g.
      of_sample (λ s. ((edge_of s).src < 2) × ((edge_of s).dst < 2)) (omega arith) s skt' e;
  present = λ s skt' e g.
      of_sample
        (λ s.
          one_edge (lower (edge_of s).src (edge_of s).dst) (upper (edge_of s).src (edge_of s).dst)
          ≡ true)
        refl s skt' e;
  leaves = λ s skt' e g.
      of_sample (λ s. contains (edge_of s).src vs ≢ contains (edge_of s).dst vs) ne s skt' e;
  closed = λ s skt' e g.
      absurd (not_zero (sym (ap (λ (s : SketchSample). s.result) (edge_only s skt' e)) ∙ g));
}

end_sketch-IsTrusted :
    (g : ℕ × List ℕ)
    → Memᴰ g (groups each_alone)
    → IsTrusted toy 2 one_edge two.sketches 1 blank g.1
unfolding two sum_sketch
end_sketch-IsTrusted g m = elim (Memᴰ.cases_cons m) [
  | inl e ↦
      subst (λ (g : ℕ × List ℕ). IsTrusted toy 2 one_edge two.sketches 1 blank g.1) (sym e)
        (sum_sketch, refl, sum_sketch-IsCutSketch (0 ∷ []) (λ e. cc))
  | inr m' ↦ elim (Memᴰ.cases_cons m') [
    | inl e ↦
        subst (λ (g : ℕ × List ℕ). IsTrusted toy 2 one_edge two.sketches 1 blank g.1) (sym e)
          (sum_sketch, refl, sum_sketch-IsCutSketch (1 ∷ []) (λ e. cc))
    | inr m'' ↦ absurd (Memᴰ.not-nil m'')
  ]
]

edge_range : (x y : ℕ) → one_edge x y ≡ true → (x < 2) × (y < 2)
edge_range x y e = ground arith

single_round-IsEager_example :
    (st : RoundState) × (perform_boruvka_round toy
        (λ i. 0)
        one_part
        blank
        1
        (0 ∷ [])
        []
        1
        each_alone
        []
        two
      ≡ some st)
    × IsSound 2 one_edge st.alg
    × ((st.except ≡ true)
        ⊎ ((st.modified ≡ true) ⊎ IsEager 2 st.alg.dsu st.alg.spanning_forest one_edge))
unfolding two
single_round-IsEager_example =
    single_round-IsEager toy (λ i. 0) one_part blank [] 1 (record { root = 0; child = 0 })
      (record { root = 1; child = 1 } ∷ []) [] two one_edge blank-IsBlank (omega arith) refl refl
      refl two-IsSound edge_range two-ArePartition end_sketch-IsTrusted

single_round_example :
    perform_boruvka_round toy (λ i. 0) one_part blank 1 (0 ∷ []) [] 1 each_alone [] two
    ≡ sample_groups toy (λ i. 0) 1 blank (groups each_alone) (round_start two [])
unfolding two
single_round_example =
    single_round toy (λ i. 0) one_part blank [] 1 (record { root = 0; child = 0 })
      (record { root = 1; child = 1 } ∷ []) [] two blank-IsBlank (omega arith) refl refl refl
