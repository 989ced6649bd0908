-- ===== src/CcAlg/Round/Local.antt =====
-- The local sketch of a thread: what a sample and a merge keep of it.
use graph_zeppelin.Base.{
  ◌||◌, ℕ, ◌+◌, ◌<◌, ◌≡◌, ◌⊎◌, inl, inr, refl, sym, ◌∙◌, ap, subst, arith, List, [], none, some,
  Bool, length, get_or_ext, Option-cases, dec_lt, Bool-cases, ltb, true, false,
}
use graph_zeppelin.Bucket.{Bucket, Hashes, empty}
use graph_zeppelin.CcAlg.{CcSketchAlg, plant}
use graph_zeppelin.CcAlg.Round.{RoundState, try_sample, after_sample}
use graph_zeppelin.CcAlg.Supernode.{
  supernode_sampled, supernode_out_of_bounds, sample_supernode, use_sample, by_result, sampled_edge,
}
use graph_zeppelin.Dsu.Atomic.{merge_mt}
use mathlib.Core.Path.{ap₂}
use graph_zeppelin.Pairing.{lower, upper, Edge, inv_concat_pairing_fn}
use graph_zeppelin.Sketch.{Sketch, zero_contents, range_merge, reset_sample_state}
use graph_zeppelin.Sketch.Merge.{bucket_at-zero_contents, length-zero_contents}
use graph_zeppelin.Sketch.Sample.{SampleResult, good, all_zero, fail}
use graph_zeppelin.Sketch.Sampling.{sample_lem}
use graph_zeppelin.Sketch.Valid.{IsValid}

-- The sizes of a sketch.
abbrev pub dims : Sketch → Sketch
dims s = record s { sample_idx = 0; buckets = [] }

zero_contents_keeps :
    (s : Sketch) → zero_contents s ≡ record (dims s) { buckets = (zero_contents s).buckets }
unfolding zero_contents reset_sample_state
zero_contents_keeps s = refl

-- Two sketches of one size are equal once they are zeroed.
pub zero_contents-dims :
    (s t : Sketch) → IsValid s → IsValid t → dims s ≡ dims t → zero_contents s ≡ zero_contents t
zero_contents-dims s t v w e =
    let size : length s.buckets ≡ length t.buckets =
      v.allocated ∙ ap (λ (u : Sketch). u.num_buckets) e ∙ sym w.allocated in
    let same_length = length-zero_contents s ∙ size ∙ sym (length-zero_contents t) in
    let same : (zero_contents s).buckets ≡ (zero_contents t).buckets =
      get_or_ext empty _ _ same_length (λ j lt.
        let lt' = subst (λ n. j < n) (length-zero_contents s) lt in
        bucket_at-zero_contents s j v lt'
        ∙ sym (bucket_at-zero_contents t j w (subst (λ n. j < n) size lt'))) in
    zero_contents_keeps s
    ∙ ap₂ (λ (d : Sketch) (bs : List Bucket). record d { buckets = bs }) e same
    ∙ sym (zero_contents_keeps t)

pub dims-range_merge : (s t : Sketch) (start n : ℕ) → dims (range_merge s t start n) ≡ dims s
unfolding range_merge
dims-range_merge s t start n = elim (Bool-cases (ltb s.num_samples (start + n))) [
  | inl e ↦ rw e
  | inr e ↦ rw e
]

-- The sketch that a sample leaves.
abbrev pub sampled_once : Sketch → Sketch
sampled_once s = record s { sample_idx = s.sample_idx + 1 }

pub by_result-sampled :
    (r : SampleResult) (failures : ℕ) (a : CcSketchAlg) (e : Edge) (skt : Sketch)
    → (by_result r failures a e skt ≡ supernode_out_of_bounds)
      ⊎ ((m : Bool) × (a' : CcSketchAlg) × (by_result r failures a e skt
            ≡ supernode_sampled m a' skt)
          × (a'.sketches ≡ a.sketches))
unfolding by_result sampled_edge
by_result-sampled fail failures a e skt = inr (_, _, refl, refl)
by_result-sampled all_zero failures a e skt = inr (_, _, refl, refl)
by_result-sampled good failures a e skt =
    elim (Option-cases (merge_mt failures a.dsu e.src e.dst)) [
      | inl n ↦ inl (rw n)
      | inr ((d, ret), p) ↦ elim (Bool-cases ret.merged) [
        | inl m ↦ inr (
          true,
          record a {
            dsu = d;
            spanning_forest = plant a.spanning_forest (lower e.src e.dst) (upper e.src e.dst);
          },
          rw (p, m),
          refl,
        )
        | inr m ↦ inr (false, record a { dsu = d }, rw (p, m), refl)
      ]
    ]

-- What a try keeps of the sketch and of the algorithm, unless an assertion fails.
pub record IsTried (st : RoundState) (skt : Sketch) (st' : RoundState) (skt' : Sketch)
    : Type 0 where
  pub valid : IsValid skt'
  pub same_dims : dims skt' ≡ dims skt
  pub sketches : st'.alg.sketches ≡ st.alg.sketches

sampled_once-IsValid :
    (skt : Sketch) → IsValid skt → skt.sample_idx < skt.num_samples → IsValid (sampled_once skt)
sampled_once-IsValid skt v lt = record {
  columns = v.columns;
  count = v.count;
  allocated = v.allocated;
  samples = omega arith;
}

pub try_sample-cases :
    (h : Hashes) (failures : ℕ) (st : RoundState) (skt : Sketch)
    → IsValid skt
    → (try_sample h failures st skt ≡ none)
      ⊎ ((st' : RoundState) × (skt' : Sketch) × (try_sample h failures st skt ≡ some (st', skt'))
          × IsTried st skt st' skt')
unfolding try_sample after_sample sample_supernode use_sample
try_sample-cases h failures st skt v = elim (dec_lt skt.sample_idx skt.num_samples) [
  | yes lt ↦
      let (smp, p, _) = (sample_lem h skt).0 lt in
      let e = inv_concat_pairing_fn smp.idx in
      elim (by_result-sampled smp.result failures st.alg e (sampled_once skt)) [
        | inl stuck ↦ inl (rw (p, stuck))
        | inr (m, a, q, same) ↦ inr (
          record st { alg = a; modified = st.modified || m },
          sampled_once skt,
          rw (p, q),
          record { valid = sampled_once-IsValid skt v lt; same_dims = refl; sketches = same },
        )
      ]
  | no ge ↦
      let p = (sample_lem h skt).1 (omega arith) in
      inr (
        record st { except = true },
        skt,
        rw p,
        record { valid = v; same_dims = refl; sketches = refl },
      )
]
