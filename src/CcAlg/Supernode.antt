-- ===== src/CcAlg/Supernode.antt =====
-- src/cc_sketch_alg.cpp: sampling one supernode, and the invariant that it keeps.
use graph_zeppelin.Base.{
  ℕ, ◌<◌, ◌≡◌, ◌⊎◌, ◌↔◌, inl, inr, refl, sym, ◌∙◌, subst, arith, Bool, true, false, Option, none,
  some, if◌then◌else◌, Bool-cases,
}
use mathlib.Core.Path.{subst₂}
use graph_zeppelin.Pairing.{Edge, lower, upper, inv_concat_pairing_fn}
use graph_zeppelin.Bucket.{Hashes}
use graph_zeppelin.Dsu.{Dsu, DsuMergeRet}
use graph_zeppelin.Dsu.Atomic.{merge_mt, merge_mt-IsJoin}
use graph_zeppelin.Dsu.Joined.{IsJoin, Joined, SameSet-sym}
use graph_zeppelin.Dsu.Merge.{SameSet}
use graph_zeppelin.CcAlg.{CcSketchAlg, in_forest, plant}
use graph_zeppelin.CcAlg.Eager.{eager_plants, eager_same, regrown}
use graph_zeppelin.CcAlg.Forest.{IsEager}
use graph_zeppelin.Sketch.{Sketch}
use graph_zeppelin.Sketch.Sample.{
  SampleResult, good, all_zero, fail, SketchSample, Attempt, returned, out_of_samples, sample,
}

-- What sampling a supernode does: `modified`, the algorithm and the sketch, or the exception of
-- the sketch.
pub data SupernodeResult : Type 0 where
  supernode_sampled : Bool → CcSketchAlg → Sketch → SupernodeResult
  supernode_out_of_samples : SupernodeResult
  supernode_out_of_bounds : SupernodeResult

-- After the merge of the sampled edge.
unfoldable pub sampled_edge :
    CcSketchAlg → Edge → Sketch → Option (Dsu × DsuMergeRet) → SupernodeResult
sampled_edge a e skt none = supernode_out_of_bounds
sampled_edge a e skt (some (d, m_ret)) =
    let forest = plant a.spanning_forest (lower e.src e.dst) (upper e.src e.dst) in
    if m_ret.merged
    then supernode_sampled true (record a { dsu = d; spanning_forest = forest }) skt
    else supernode_sampled false (record a { dsu = d }) skt

unfoldable pub by_result : SampleResult → ℕ → CcSketchAlg → Edge → Sketch → SupernodeResult
unfolding sampled_edge
by_result fail failures a e skt = supernode_sampled true a skt
by_result good failures a e skt = sampled_edge a e skt (merge_mt failures a.dsu e.src e.dst)
by_result all_zero failures a e skt = supernode_sampled false a skt

unfoldable pub use_sample : ℕ → CcSketchAlg → Attempt SketchSample → SupernodeResult
unfolding by_result
use_sample failures a out_of_samples = supernode_out_of_samples
use_sample failures a (returned s skt) =
    by_result s.result failures a (inv_concat_pairing_fn s.idx) skt

unfoldable pub sample_supernode : Hashes → ℕ → CcSketchAlg → Sketch → SupernodeResult
unfolding use_sample
sample_supernode h failures a skt = use_sample failures a (sample h skt)

-- The sets of the partition are the components of the spanning forest.
abbrev pub IsSpanning : ℕ → CcSketchAlg → Type 0
IsSpanning n a = IsEager n a.dsu a.spanning_forest (in_forest a.spanning_forest)

Joined-swap : (d : Dsu) (u v x y : ℕ) → Joined d u v x y → Joined d v u x y
Joined-swap d u v x y (inl s) = inl s
Joined-swap d u v x y (inr (inl p)) = inr (inr p)
Joined-swap d u v x y (inr (inr p)) = inr (inl p)

IsJoin-swap : (d : Dsu) (u v : ℕ) (out : Dsu × DsuMergeRet) → IsJoin d u v out → IsJoin d v u out
IsJoin-swap d u v out j = record {
  valid = j.valid;
  size = j.size;
  fresh =
      (λ m s. j.fresh.0 m (SameSet-sym d v u s), λ ne. j.fresh.1 (λ s. ne (SameSet-sym d u v s)));
  sound = λ x y lx ly s. Joined-swap d u v x y (j.sound x y lx ly s);
  complete = λ x y s. j.complete x y (Joined-swap d v u x y s);
}

ends-lt : (n u v : ℕ) → u < n → v < n → (lower u v < n) × (upper u v < n)
ends-lt n u v lu lv = ground arith

result-cases : (r : SampleResult) → (r ≡ fail) ⊎ ((r ≡ all_zero) ⊎ (r ≡ good))
result-cases fail = inl refl
result-cases all_zero = inr (inl refl)
result-cases good = inr (inr refl)

ends-cases : (u v : ℕ) → ((lower u v ≡ u) × (upper u v ≡ v)) ⊎ ((lower u v ≡ v) × (upper u v ≡ u))
ends-cases u v = ground arith

IsJoin-ordered :
    (d : Dsu) (u v : ℕ) (out : Dsu × DsuMergeRet)
    → IsJoin d u v out
    → IsJoin d (lower u v) (upper u v) out
IsJoin-ordered d u v out j = elim (ends-cases u v) [
  | inl (p, q) ↦ subst₂ (λ x y. IsJoin d x y out) (sym p) (sym q) j
  | inr (p, q) ↦ subst₂ (λ x y. IsJoin d x y out) (sym p) (sym q) (IsJoin-swap d u v out j)
]

abbrev pub edge_of : SketchSample → Edge
edge_of s = inv_concat_pairing_fn s.idx

-- What sampling a supernode comes to, by the result of the sample.
pub data IsSupernode (n : ℕ) (a : CcSketchAlg) (s : SketchSample)
    : Bool → CcSketchAlg → Type 0 where
  on_fail : s.result ≡ fail → IsSupernode n a s true a
  on_zero : s.result ≡ all_zero → IsSupernode n a s false a
  on_good :
      {modified : Bool} {a' : CcSketchAlg}
      → s.result ≡ good
      → (modified ≡ true) ↔ (¬ SameSet a.dsu (edge_of s).src (edge_of s).dst)
      → ((x y : ℕ)
          → x < n
          → y < n
          → SameSet a'.dsu x y ↔ Joined a.dsu (edge_of s).src (edge_of s).dst x y)
      → ((x y : ℕ)
          → in_forest a'.spanning_forest x y ≡ true
          → ((lower (edge_of s).src (edge_of s).dst ≡ x)
              × (upper (edge_of s).src (edge_of s).dst ≡ y))
            ⊎ (in_forest a.spanning_forest x y ≡ true))
      → a' ≡ record a { dsu = a'.dsu; spanning_forest = a'.spanning_forest }
      → IsSpanning n a'
      → IsSupernode n a s modified a'

edge_step :
    (n : ℕ) (a : CcSketchAlg) (s : SketchSample) (skt : Sketch) (out : Dsu × DsuMergeRet)
    → IsSpanning n a
    → s.result ≡ good
    → (edge_of s).src < n
    → (edge_of s).dst < n
    → IsJoin a.dsu (edge_of s).src (edge_of s).dst out
    → (modified : Bool) × (a' : CcSketchAlg) × (sampled_edge a (edge_of s) skt (some out)
        ≡ supernode_sampled modified a' skt)
      × IsSupernode n a s modified a'
unfolding sampled_edge
edge_step n a s skt out i e ls ld j =
    let u = (edge_of s).src in
    let v = (edge_of s).dst in
    let j' = IsJoin-ordered a.dsu u v out j in
    let (l, h) = ends-lt n u v ls ld in
    let sets : (x y : ℕ) → x < n → y < n → SameSet out.0 x y ↔ Joined a.dsu u v x y = λ x y lx ly. (
      j.sound x y (subst (λ m. x < m) (sym i.size) lx) (subst (λ m. y < m) (sym i.size) ly),
      j.complete x y,
    ) in
    let forest = a.spanning_forest in
    elim (Bool-cases out.1.merged) [
      | inl m ↦ (
        true,
        record a { dsu = out.0; spanning_forest = plant forest (lower u v) (upper u v) },
        rw m,
        on_good e (λ _. j.fresh.0 m, λ _. refl) sets
            (regrown n a.dsu forest (in_forest forest) (lower u v) (upper u v) out i l h j') refl
            (eager_plants n a.dsu forest (in_forest forest) (lower u v) (upper u v) out i l h j' m),
      )
      | inr m ↦ (
        false,
        record a { dsu = out.0 },
        rw m,
        on_good e ((λ w. (let clash = w in ground arith)), λ ne. sym m ∙ j.fresh.1 ne) sets
            (λ x y planted. inr planted) refl
            (eager_same n a.dsu forest (in_forest forest) (lower u v) (upper u v) out i l h j' m),
      )
    ]

-- The ends of a sample that is not good are not read.
pub result_step :
    (failures n : ℕ) (a : CcSketchAlg) (skt : Sketch) (s : SketchSample)
    → IsSpanning n a
    → (s.result ≡ good → ((edge_of s).src < n) × ((edge_of s).dst < n))
    → (modified : Bool) × (a' : CcSketchAlg) × (by_result s.result failures a (edge_of s) skt
        ≡ supernode_sampled modified a' skt)
      × IsSupernode n a s modified a'
unfolding by_result
result_step failures n a skt s i inside = elim (result-cases s.result) [
  | inl e ↦ (true, a, rw e, on_fail e)
  | inr (inl e) ↦ (false, a, rw e, on_zero e)
  | inr (inr e) ↦
      let u = (edge_of s).src in
      let v = (edge_of s).dst in
      let (ls, ld) = inside e in
      let (out, p, _, j) =
        merge_mt-IsJoin failures a.dsu u v i.valid (subst (λ m. u < m) (sym i.size) ls)
          (subst (λ m. v < m) (sym i.size) ld) in
      let (modified, a', q, c) = edge_step n a s skt out i e ls ld j in
      (modified, a', rw (e, p) q, c)
]

-- Let the sets of the partition be the components of the spanning forest. A supernode whose
-- sketch returns a sample, the ends of which are vertices, is sampled without an error. A failed
-- sample asks for another round and a zero one does not, and both leave the algorithm as it is.
-- A good sample asks for another round exactly if its ends were in different sets; it joins
-- these two sets and no others, and the sets are still the components of the forest, which takes
-- up no edge but that of the sample.
pub sample_supernode-IsSupernode :
    (h : Hashes) (failures n : ℕ) (a : CcSketchAlg) (skt skt' : Sketch) (s : SketchSample)
    → IsSpanning n a
    → sample h skt ≡ returned s skt'
    → (edge_of s).src < n
    → (edge_of s).dst < n
    → (modified : Bool) × (a' : CcSketchAlg) × (sample_supernode h failures a skt
        ≡ supernode_sampled modified a' skt')
      × IsSupernode n a s modified a'
unfolding sample_supernode use_sample
sample_supernode-IsSupernode h failures n a skt skt' s i e ls ld =
    let (modified, a', p, c) = result_step failures n a skt' s i (λ _. (ls, ld)) in
    (modified, a', rw e p, c)

-- A set that is valid for some graph has the components of the forest.
pub IsEager-IsSpanning :
    (n : ℕ) (graph : ℕ → ℕ → Bool) (a : CcSketchAlg)
    → IsEager n a.dsu a.spanning_forest graph
    → IsSpanning n a
IsEager-IsSpanning n graph a i = record {
  valid = i.valid;
  size = i.size;
  rows = i.rows;
  planted = λ x y e. e;
  spans = i.spans;
  covers = λ x y e. i.covers x y (i.planted x y e);
}
