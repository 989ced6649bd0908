-- ===== src/Driver/Kept.antt =====
-- What the steps of the driver keep: every sketch holds the updates of its vertex that have been
-- delivered, and the rest are in the work queue or in the guttering system.
use graph_zeppelin.Base.{
  ℕ, ◌<◌, ◌≡◌, inl, inr, refl, sym, ◌∙◌, ap, subst, arith, Bool, List, [], ◌∷◌, ◌++◌, none, some,
  lookup, Option-cases, some_eq, if_elim,
}
use graph_zeppelin.Bucket.{Hashes}
use graph_zeppelin.CcAlg.{CcSketchAlg, pre_insert, eager, in_forest}
use graph_zeppelin.CcAlg.Batch.{HasShape}
use graph_zeppelin.Driver.{GutteringSystem, GraphSketchDriver, process_update, buffer}
use graph_zeppelin.Driver.Parity.{ends, flat, is_odd, xor, flat-append, is_odd-append, is_odd-Perm}
use graph_zeppelin.CcAlg.Round.Whenever.{bind_some}
use graph_zeppelin.Sketch.Valid.{IsValid}
use graph_zeppelin.Sketch.Batch.{update_all}
use graph_zeppelin.Sketch.Linear.{shape}
use graph_zeppelin.Sketch.{Sketch, update}
use graph_zeppelin.Dsu.{Dsu, DsuMergeRet, ◌>>=◌}
use graph_zeppelin.Dsu.Atomic.{merge_mt}
use graph_zeppelin.Pairing.{Edge, lower, upper}
use graph_zeppelin.Sketch.Vector.{bit_of}
use mathlib.Core.List.{Permᴰ}

-- What the driver relies on: the guttering system loses no update and invents none, and a flush
-- leaves it empty. `held` are the updates that it has buffered.
pub record KeepsUpdates {G : Type 0} (sys : GutteringSystem G) : Type 0 where
  pub held : G → List (ℕ × ℕ)
  pub inserts :
      (g : G) (p : ℕ × ℕ) → Permᴰ (flat (sys.insert g p).1 ++ held (sys.insert g p).0) (p ∷ held g)
  pub flushes : (g : G) → Permᴰ (flat (sys.force_flush g).1) (held g)
  pub empties : (g : G) → held (sys.force_flush g).0 ≡ []

-- The sketches of the algorithm and those of its workers, which pre_insert does not touch.
abbrev arrays : CcSketchAlg → List Sketch × List Sketch
arrays a = (a.sketches, a.delta_sketches)

pub none_not : {A : Type 0} {x : A} → none ≡ some x → ⊥
none_not e = cc

arrays-eager :
    (a : CcSketchAlg) (src dst : ℕ) (out : Dsu × DsuMergeRet)
    → arrays (eager a src dst out) ≡ arrays a
unfolding eager
arrays-eager a src dst (d, m_ret) =
    if_elim (λ b. arrays b ≡ arrays a) m_ret.merged _ _ (λ _. refl)
      (λ _.
        if_elim (λ b. arrays b ≡ arrays a) (in_forest a.spanning_forest src dst) _ _ (λ _. refl)
          (λ _. refl))

arrays-pre_insert :
    (failures : ℕ) (a a' : CcSketchAlg) (e : Edge)
    → pre_insert failures a e ≡ some a'
    → arrays a' ≡ arrays a
unfolding pre_insert
arrays-pre_insert failures a a' e p =
    if_elim (λ o. o ≡ some a' → arrays a' ≡ arrays a) a.dsu_valid _ _
      (λ _ q.
        elim (Option-cases (merge_mt failures a.dsu (lower e.src e.dst) (upper e.src e.dst))) [
          | inl r ↦ absurd (
              none_not (
                sym (
                  ap (λ o. o >>= λ out. some (eager a (lower e.src e.dst) (upper e.src e.dst) out))
                    r)
                ∙ q))
          | inr (out, r) ↦
              ap arrays (
                some_eq (
                  sym q
                  ∙ ap
                      (λ o. o >>= λ out. some (eager a (lower e.src e.dst) (upper e.src e.dst) out))
                      r))
              ∙ arrays-eager a (lower e.src e.dst) (upper e.src e.dst) out
        ])
      (λ _ q. ap arrays (sym (some_eq q))) p

module _ {G : Type 0} (sys : GutteringSystem G) (k : KeepsUpdates sys) (h : Hashes) (blank : Sketch)
    (valid : IsValid blank) (n : ℕ) where
  -- The updates that have not reached the sketches.
  abbrev pub pending : GraphSketchDriver G → List (ℕ × ℕ)
  pending s = flat s.work_queue ++ k.held s.gts

  -- The sketch of each vertex holds updates that make up `target` with those that are pending.
  pub record Holds (target : ℕ → ℕ → Bool) (s : GraphSketchDriver G) : Type 0 where
    pub sketch :
        (v : ℕ)
        → v < n
        → (xs : List ℕ) × (lookup s.sketching_alg.sketches v
            ≡ some (update_all (update h) blank xs))
          × ((a : ℕ) → xor (bit_of a xs) (is_odd v a (pending s)) ≡ target v a)
    pub deltas :
        (i : ℕ) (d : Sketch)
        → lookup s.sketching_alg.delta_sketches i ≡ some d
        → HasShape (shape blank) d

  pending-buffer :
      (p : ℕ × ℕ) (s : GraphSketchDriver G) (v a : ℕ)
      → is_odd v a (pending (buffer sys p s)) ≡ xor (is_odd v a (p ∷ [])) (is_odd v a (pending s))
  unfolding buffer
  pending-buffer p s v a =
      let (g, out) = sys.insert s.gts p in
      let law = is_odd-Perm v a (k.inserts s.gts p) in
      ground (
        arith,
        is_odd-append v a (flat (s.work_queue ++ out)) (k.held g),
        ap (is_odd v a) (flat-append s.work_queue out),
        is_odd-append v a (flat s.work_queue) (flat out),
        sym (is_odd-append v a (flat out) (k.held g))
            ∙ law
            ∙ is_odd-append v a (p ∷ []) (k.held s.gts),
        is_odd-append v a (flat s.work_queue) (k.held s.gts),
      )

  pub streamed-Holds :
      (target : ℕ → ℕ → Bool) (failures : ℕ) (e : Edge) (s s' : GraphSketchDriver G)
      → process_update sys failures e s ≡ some s'
      → Holds target s
      → Holds (λ v a. xor (target v a) (is_odd v a (ends (e ∷ [])))) s'
  unfolding process_update buffer
  streamed-Holds target failures e s s' p w =
      let (alg, at_alg, q) = bind_some (pre_insert failures s.sketching_alg e) _ s' p in
      let same = arrays-pre_insert failures s.sketching_alg alg e at_alg in
      let s1 = record s { sketching_alg = alg } in
      let s2 = buffer sys (e.src, e.dst) s1 in
      subst (Holds (λ v a. xor (target v a) (is_odd v a (ends (e ∷ []))))) (some_eq q) (record {
        sketch = λ v lt.
            let (xs, at_v, odd) = w.sketch v lt in
            (
              xs,
              ap (λ ss. lookup ss v) (ap (λ t. t.0) same) ∙ at_v,
              λ a. ground (
                arith,
                odd a,
                pending-buffer (e.dst, e.src) s2 v a,
                pending-buffer (e.src, e.dst) s1 v a,
                is_odd-append v a ((e.src, e.dst) ∷ []) ((e.dst, e.src) ∷ []),
              ),
            );
        deltas =
            λ i d at_i. w.deltas i d (sym (ap (λ ss. lookup ss i) (ap (λ t. t.1) same)) ∙ at_i);
      })
