-- ===== src/CcAlg/Round/Progress.antt =====
-- What a round finds out. A sketch is trusted to answer for the edges that leave its supernode:
-- with high probability its checksums keep it from any other answer.
use graph_zeppelin.Base.{
  ℕ, ◌+◌, ◌<◌, ◌≡◌, ◌≢◌, ◌⊎◌, inl, inr, refl, sym, ◌∙◌, subst, arith, Bool, true, false, ◌||◌, List,
  some, contains, dec_lt,
}
use mathlib.Core.Path.{subst₂}
use graph_zeppelin.Bucket.{Hashes}
use graph_zeppelin.CcAlg.{CcSketchAlg, in_forest}
use graph_zeppelin.CcAlg.Eager.{SameSet-cases}
use graph_zeppelin.CcAlg.Round.{RoundState, try_sample, after_sample}
use graph_zeppelin.CcAlg.Round.Groups.{gather, sample_group}
use graph_zeppelin.CcAlg.Supernode.{
  IsSpanning, IsSupernode, on_fail, on_zero, on_good, edge_of, result_step, sample_supernode,
  use_sample,
}
use graph_zeppelin.Dsu.{Dsu}
use graph_zeppelin.Dsu.Joined.{Joined, SameSet-trans, SameSet-sym}
use graph_zeppelin.Dsu.Merge.{SameSet}
use graph_zeppelin.Pairing.{lower, upper}
use graph_zeppelin.Sketch.{Sketch}
use graph_zeppelin.Sketch.Sample.{SketchSample, good, all_zero, sample, returned}
use graph_zeppelin.Sketch.Sampling.{sample_lem}

-- The sets of the partition are the components of the forest, which is part of the graph.
pub record IsSound (n : ℕ) (graph : ℕ → ℕ → Bool) (a : CcSketchAlg) : Type 0 where
  pub spanning : IsSpanning n a
  pub planted : (x y : ℕ) → in_forest a.spanning_forest x y ≡ true → graph x y ≡ true

-- No edge of the graph leaves the set.
abbrev pub IsClosed : (ℕ → ℕ → Bool) → List ℕ → Type 0
IsClosed graph vs = (x y : ℕ) → graph x y ≡ true → contains x vs ≡ contains y vs

-- A sketch answers for the edges that leave the set: a good sample is one of them, and the
-- sample of zero tells that there is none.
pub record IsCutSketch (h : Hashes) (n : ℕ) (graph : ℕ → ℕ → Bool) (vs : List ℕ) (skt : Sketch)
    : Type 0 where
  pub inside :
      (s : SketchSample) (skt' : Sketch)
      → sample h skt ≡ returned s skt'
      → s.result ≡ good
      → ((edge_of s).src < n) × ((edge_of s).dst < n)
  pub present :
      (s : SketchSample) (skt' : Sketch)
      → sample h skt ≡ returned s skt'
      → s.result ≡ good
      → graph (lower (edge_of s).src (edge_of s).dst) (upper (edge_of s).src (edge_of s).dst) ≡ true
  pub leaves :
      (s : SketchSample) (skt' : Sketch)
      → sample h skt ≡ returned s skt'
      → s.result ≡ good
      → contains (edge_of s).src vs ≢ contains (edge_of s).dst vs
  pub closed :
      (s : SketchSample) (skt' : Sketch)
      → sample h skt ≡ returned s skt'
      → s.result ≡ all_zero
      → IsClosed graph vs

-- Two vertices of one set of the partition, of which one is in the list.
abbrev pub IsSplit : ℕ → CcSketchAlg → List ℕ → Type 0
IsSplit n a vs =
    (u : ℕ) × (v : ℕ) × (u < n) × (v < n) × SameSet a.dsu u v × (contains u vs ≢ contains v vs)

-- One supernode has been sampled.
pub record IsStep (n : ℕ) (graph : ℕ → ℕ → Bool) (vs : List ℕ) (st st' : RoundState) : Type 0 where
  pub sound : IsSound n graph st'.alg
  pub keeps :
      st'.alg ≡ record st.alg { dsu = st'.alg.dsu; spanning_forest = st'.alg.spanning_forest }
  pub quiet_before : st'.modified ≡ false → st.modified ≡ false
  pub calm_before : st'.except ≡ false → st.except ≡ false
  pub merged_stay : (x y : ℕ) → x < n → y < n → SameSet st.alg.dsu x y → SameSet st'.alg.dsu x y
  pub no_merge :
      st'.modified ≡ false
      → (x y : ℕ) → x < n
      → y < n
      → SameSet st'.alg.dsu x y
      → SameSet st.alg.dsu x y
  pub told : st'.modified ≡ false → st'.except ≡ false → IsClosed graph vs ⊎ IsSplit n st.alg vs

or_false : (x y : Bool) → (x || y) ≡ false → (x ≡ false) × (y ≡ false)
or_false x y e = ground arith

unjoined : (d : Dsu) (u v x y : ℕ) → SameSet d u v → Joined d u v x y → SameSet d x y
unjoined d u v x y uv (inl s) = s
unjoined d u v x y uv (inr (inl (p, q))) = SameSet-trans d x u y p (SameSet-trans d u v y uv q)
unjoined d u v x y uv (inr (inr (p, q))) =
    SameSet-trans d x v y p (SameSet-trans d v u y (SameSet-sym d u v uv) q)

module _ (h : Hashes) (n : ℕ) (graph : ℕ → ℕ → Bool) (vs : List ℕ) (st : RoundState)
    (i : IsSound n graph st.alg) where
  -- The supernode's sketch returned a sample.
  after-IsStep :
      (skt skt' : Sketch) (s : SketchSample) (m : Bool) (a' : CcSketchAlg)
      → IsCutSketch h n graph vs skt
      → sample h skt ≡ returned s skt'
      → IsSupernode n st.alg s m a'
      → IsStep n graph vs st (record st { alg = a'; modified = st.modified || m })
  after-IsStep skt skt' s m a' c e (on_fail r) = record {
    sound = i;
    keeps = refl;
    quiet_before = λ q. (or_false st.modified true q).0;
    calm_before = λ q. q;
    merged_stay = λ x y lx ly p. p;
    no_merge = λ _ x y lx ly p. p;
    told = λ q _. (let clash = (or_false st.modified true q).1 in ground arith);
  }
  after-IsStep skt skt' s m a' c e (on_zero r) = record {
    sound = i;
    keeps = refl;
    quiet_before = λ q. (or_false st.modified false q).0;
    calm_before = λ q. q;
    merged_stay = λ x y lx ly p. p;
    no_merge = λ _ x y lx ly p. p;
    told = λ _ _. inl (c.closed s skt' e r);
  }
  after-IsStep skt skt' s m a' c e (on_good r merged sets grows keeps spanning) =
      let u = (edge_of s).src in
      let v = (edge_of s).dst in
      let d = st.alg.dsu in
      let (lu, lv) = c.inside s skt' e r in
      let together : m ≡ false → SameSet d u v = λ q.
        elim (SameSet-cases d u v i.spanning.valid (subst (λ k. u < k) (sym i.spanning.size) lu)
          (subst (λ k. v < k) (sym i.spanning.size) lv)) [
            | inl t ↦ t
            | inr ne ↦ (let clash = sym (merged.1 ne) ∙ q in ground arith)
          ] in
      record {
        sound = record {
          spanning = spanning;
          planted = λ x y pl. elim (grows x y pl) [
            | inl (p, q) ↦ subst₂ (λ x y. graph x y ≡ true) p q (c.present s skt' e r)
            | inr old ↦ i.planted x y old
          ];
        };
        keeps = keeps;
        quiet_before = λ q. (or_false st.modified m q).0;
        calm_before = λ q. q;
        merged_stay = λ x y lx ly p. (sets x y lx ly).1 (inl p);
        no_merge = λ q x y lx ly p.
            let same = together (or_false st.modified m q).1 in
            unjoined d u v x y same ((sets x y lx ly).0 p);
        told =
            λ q _. inr (u, v, lu, lv, together (or_false st.modified m q).1, c.leaves s skt' e r);
      }

  -- Sampling a supernode with such a sketch.
  pub group-IsStep :
      (failures : ℕ → ℕ) (cur_round root : ℕ) (blank skt : Sketch)
      → gather st.alg.sketches cur_round blank vs ≡ some skt
      → IsCutSketch h n graph vs skt
      → (st' : RoundState) × (sample_group h failures cur_round blank root blank vs st ≡ some st')
        × IsStep n graph vs st st'
  unfolding try_sample after_sample sample_supernode use_sample
  group-IsStep failures cur_round root blank skt g c =
      elim (dec_lt skt.sample_idx skt.num_samples) [
        | yes lt ↦
            let (s, e, _) = (sample_lem h skt).0 lt in
            let skt' = record skt { sample_idx = skt.sample_idx + 1 } in
            let (m, a', p, k) =
              result_step (failures root) n st.alg skt' s i.spanning (c.inside s skt' e) in
            (
              record st { alg = a'; modified = st.modified || m },
              rw (g, e, p),
              after-IsStep skt skt' s m a' c e k,
            )
        | no ge ↦
            let e = (sample_lem h skt).1 (omega arith) in
            (
              record st { except = true },
              rw (g, e),
              record {
                sound = i;
                keeps = refl;
                quiet_before = λ q. q;
                calm_before = λ q. (let clash = q in ground arith);
                merged_stay = λ x y lx ly p. p;
                no_merge = λ _ x y lx ly p. p;
                told = λ _ q. (let clash = q in ground arith);
              },
            )
      ]
