-- ===== src/CcAlg/Round/Keep.antt =====
-- src/cc_sketch_alg.cpp: what the rounds of a query leave alone, for any threads in any order.
use graph_zeppelin.Base.{
  ℕ, zero, suc, ◌≡◌, refl, sym, ◌∙◌, ap, List, [], ◌∷◌, Option, none, some, map, lookup, leb,
  some_eq, set, if_elim,
}
use mathlib.Core.Path.{ap₂}
use graph_zeppelin.Bucket.{Hashes}
use graph_zeppelin.CcAlg.{CcSketchAlg}
use graph_zeppelin.CcAlg.Round.Whenever.{Whenever, Whenever-bind, Whenever-map, Whenever-eq}
use graph_zeppelin.CcAlg.Round.{RoundState, ThreadState, after_sample, try_sample, round_zero_loop}
use graph_zeppelin.CcAlg.Supernode.{
  SupernodeResult, supernode_sampled, supernode_out_of_samples, supernode_out_of_bounds,
  sampled_edge, by_result, use_sample, sample_supernode,
}
use graph_zeppelin.Dsu.{Dsu, DsuMergeRet, new_dsu}
use graph_zeppelin.Dsu.Atomic.{merge_mt}
use graph_zeppelin.Pairing.{Edge}
use graph_zeppelin.Sketch.{Sketch, reset_sample_state}
use graph_zeppelin.Sketch.Sample.{SampleResult, good, all_zero, fail, sample}

-- The algorithm without its partition, its forest and the sample counts of its sketches.
unfoldable pub outline : CcSketchAlg → CcSketchAlg
outline a = record a {
  dsu = new_dsu (λ i. 0) 0;
  spanning_forest = [];
  sketches = map reset_sample_state a.sketches;
}

-- One sample keeps the outline, and the contents of the sketch.
abbrev KeepsSample : CcSketchAlg → Sketch → SupernodeResult → Type 0
KeepsSample a skt (supernode_sampled m a' skt') =
    (outline a' ≡ outline a) × (reset_sample_state skt' ≡ reset_sample_state skt)
KeepsSample a skt supernode_out_of_samples = Unit
KeepsSample a skt supernode_out_of_bounds = Unit

sampled_edge-KeepsSample :
    (a : CcSketchAlg) (e : Edge) (skt skt' : Sketch) (out : Option (Dsu × DsuMergeRet))
    → reset_sample_state skt' ≡ reset_sample_state skt
    → KeepsSample a skt (sampled_edge a e skt' out)
unfolding sampled_edge outline
sampled_edge-KeepsSample a e skt skt' none r = tt
sampled_edge-KeepsSample a e skt skt' (some (d, m_ret)) r =
    if_elim (KeepsSample a skt) m_ret.merged _ _ (λ t. (refl, r)) (λ f. (refl, r))

by_result-KeepsSample :
    (res : SampleResult) (failures : ℕ) (a : CcSketchAlg) (e : Edge) (skt skt' : Sketch)
    → reset_sample_state skt' ≡ reset_sample_state skt
    → KeepsSample a skt (by_result res failures a e skt')
unfolding by_result
by_result-KeepsSample fail failures a e skt skt' r = (refl, r)
by_result-KeepsSample good failures a e skt skt' r =
    sampled_edge-KeepsSample a e skt skt' (merge_mt failures a.dsu e.src e.dst) r
by_result-KeepsSample all_zero failures a e skt skt' r = (refl, r)

sample_supernode-KeepsSample :
    (h : Hashes) (failures : ℕ) (a : CcSketchAlg) (skt : Sketch)
    → KeepsSample a skt (sample_supernode h failures a skt)
unfolding sample_supernode use_sample sample reset_sample_state
sample_supernode-KeepsSample h failures a skt =
    if_elim (λ q. KeepsSample a skt (use_sample failures a q)) (leb skt.num_samples skt.sample_idx)
      _ _ (λ t. tt) (λ f. by_result-KeepsSample _ failures a _ skt _ refl)

-- A state of the round with the same outline.
abbrev pub Same : RoundState → RoundState → Type 0
Same st st' = outline st'.alg ≡ outline st.alg

abbrev pub SameThread : ThreadState → ThreadState → Type 0
SameThread t t' = Same t.round t'.round

abbrev pub SameSample : RoundState → Sketch → RoundState × Sketch → Type 0
SameSample st skt (st', skt') = Same st st' × (reset_sample_state skt' ≡ reset_sample_state skt)

pub try_sample-Same :
    (h : Hashes) (failures : ℕ) (st : RoundState) (skt : Sketch)
    → Whenever (SameSample st skt) (try_sample h failures st skt)
unfolding try_sample after_sample
try_sample-Same h failures st skt =
    after (sample_supernode h failures st.alg skt)
      (sample_supernode-KeepsSample h failures st.alg skt)
  where
    after :
        (r : SupernodeResult)
        → KeepsSample st.alg skt r
        → Whenever (SameSample st skt) (after_sample st skt r)
    after (supernode_sampled m a' skt') k = k
    after supernode_out_of_samples k = (refl, refl)
    after supernode_out_of_bounds k = tt

map-set :
    (f : Sketch → Sketch) (xs : List Sketch) (i : ℕ) (y : Sketch)
    → map f (set xs i y) ≡ set (map f xs) i (f y)
map-set f [] i y = refl
map-set f (x ∷ xs) zero y = refl
map-set f (x ∷ xs) (suc i) y = ap (◌∷◌ (f x)) (map-set f xs i y)

set_same :
    (f : Sketch → Sketch) (xs : List Sketch) (i : ℕ) (x : Sketch)
    → lookup xs i ≡ some x
    → set (map f xs) i (f x) ≡ map f xs
set_same f [] i x e = refl
set_same f (y ∷ xs) zero x e = ap (λ t. f t ∷ map f xs) (sym (some_eq e))
set_same f (y ∷ xs) (suc i) x e = ap (◌∷◌ (f y)) (set_same f xs i x e)

-- A sampled sketch is stored in its place.
store-Same :
    (a a' : CcSketchAlg) (i : ℕ) (skt skt' : Sketch)
    → outline a' ≡ outline a
    → lookup a.sketches i ≡ some skt
    → reset_sample_state skt' ≡ reset_sample_state skt
    → outline (record a' { sketches = set a'.sketches i skt' }) ≡ outline a
unfolding outline
store-Same a a' i skt skt' o e r =
    ap (λ ss. record (outline a') { sketches = ss }) (map-set reset_sample_state a'.sketches i skt')
    ∙ ap₂ (λ (c : CcSketchAlg) s. record c { sketches = set c.sketches i s }) o r
    ∙ ap (λ ss. record (outline a) { sketches = ss })
        (set_same reset_sample_state a.sketches i skt e)

pub round_zero_loop-Same :
    (h : Hashes) (failures : ℕ → ℕ) (order : List ℕ) (st : RoundState)
    → Whenever (Same st) (round_zero_loop h failures order st)
unfolding round_zero_loop
round_zero_loop-Same h failures [] st = refl
round_zero_loop-Same h failures (i ∷ order) st =
    Whenever-eq (Same st) (lookup st.alg.sketches i) _ λ skt e.
      Whenever-bind (SameSample st skt) (Same st) (try_sample h (failures i) st skt) _
        (try_sample-Same h (failures i) st skt)
        λ (st1, skt') (o, r).
          let alg = record st1.alg { sketches = set st1.alg.sketches i skt' } in
          Whenever-map (Same (record st1 { alg = alg })) (Same st)
            (round_zero_loop h failures order (record st1 { alg = alg }))
            (λ st2 p. p ∙ store-Same st.alg st1.alg i skt skt' o e r)
            (round_zero_loop-Same h failures order (record st1 { alg = alg }))
