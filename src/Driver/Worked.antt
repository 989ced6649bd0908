-- ===== src/Driver/Worked.antt =====
-- What a worker does when it applies a batch, and that it keeps what Driver.Kept states.
use graph_zeppelin.Base.{
  ℕ, ◌≡◌, inl, inr, sym, ◌∙◌, ap, subst, arith, Bool, List, ◌∷◌, ◌++◌, some, map, lookup, eq-cases,
  some_eq, set, lookup-set_ne, lookup-set_self,
}
use graph_zeppelin.Bucket.{Hashes}
use graph_zeppelin.CcAlg.{update_dsts}
use graph_zeppelin.CcAlg.Batch.{HasShape, batch_indices, merged_batch, update_dsts-update_all}
use graph_zeppelin.Driver.{Batch, GutteringSystem, GraphSketchDriver, WorkerStep, took}
use graph_zeppelin.Driver.Applied.{callback-Applied}
use graph_zeppelin.Driver.Kept.{KeepsUpdates, Holds, pending}
use graph_zeppelin.Driver.Parity.{
  flat, is_odd, xor, flat-append, is_odd-append, is_odd-batch, is_odd-other,
}
use graph_zeppelin.Sketch.{Sketch, update, merge, zero_contents}
use graph_zeppelin.Sketch.Batch.{
  update_all, update_all-append, update_all_keeps, update_all-IsValid,
}
use graph_zeppelin.Sketch.Linear.{shape, update-IsLinear}
use graph_zeppelin.Sketch.Merge.{shape-zero_contents}
use graph_zeppelin.Sketch.Valid.{IsValid, zero_contents-IsValid}
use graph_zeppelin.Sketch.Vector.{bit_of, bit_of-append}

module _ {G : Type 0} (sys : GutteringSystem G) (k : KeepsUpdates sys) (h : Hashes) (blank : Sketch)
    (valid : IsValid blank) (n : ℕ) where
  delta-HasShape :
      (delta : Sketch) (src : ℕ) (dsts : List ℕ)
      → HasShape (shape blank) delta
      → HasShape (shape blank) (update_dsts h (zero_contents delta) src dsts)
  delta-HasShape delta src dsts (v, e) =
      let xs = batch_indices src dsts in
      let z = zero_contents delta in
      subst (HasShape (shape blank)) (sym (update_dsts-update_all h z src dsts)) (
        update_all-IsValid (update h) (update-IsLinear h) z xs (zero_contents-IsValid delta v),
        ap shape (update_all_keeps (update h) (update-IsLinear h) z xs)
            ∙ shape-zero_contents delta
            ∙ e,
      )

  held-HasShape : (xs : List ℕ) → HasShape (shape blank) (update_all (update h) blank xs)
  held-HasShape xs = (
    update_all-IsValid (update h) (update-IsLinear h) blank xs valid,
    ap shape (update_all_keeps (update h) (update-IsLinear h) blank xs),
  )

  -- The batch that leaves the queue.
  pending-took :
      (s : GraphSketchDriver G) (before later : List Batch) (src v a : ℕ) (dsts : List ℕ)
      → s.work_queue ≡ before ++ (src, dsts) ∷ later
      → is_odd v a (pending sys k h blank valid n s)
        ≡ xor
            (is_odd v a (map (λ dst. (src, dst)) dsts))
            (is_odd v a (flat (before ++ later) ++ k.held s.gts))
  pending-took s before later src v a dsts q =
      let own : List (ℕ × ℕ) = map (λ dst. (src, dst)) dsts in
      ground (
        arith,
        is_odd-append v a (flat s.work_queue) (k.held s.gts),
        ap (λ bs. is_odd v a (flat bs)) q
            ∙ ap (is_odd v a) (flat-append before ((src, dsts) ∷ later)),
        is_odd-append v a (flat before) (own ++ flat later),
        is_odd-append v a own (flat later),
        is_odd-append v a (flat (before ++ later)) (k.held s.gts),
        ap (is_odd v a) (flat-append before later),
        is_odd-append v a (flat before) (flat later),
      )

  -- The sketch that the batch is for.
  own_sketch :
      (target : ℕ → ℕ → Bool) (s : GraphSketchDriver G) (before later : List Batch) (src v : ℕ)
      (dsts : List ℕ) (delta skt : Sketch) (xs : List ℕ)
      → s.work_queue ≡ before ++ (src, dsts) ∷ later
      → HasShape (shape blank) delta
      → lookup s.sketching_alg.sketches src ≡ some skt
      → src ≡ v
      → lookup s.sketching_alg.sketches v ≡ some (update_all (update h) blank xs)
      → ((a : ℕ) → xor (bit_of a xs) (is_odd v a (pending sys k h blank valid n s)) ≡ target v a)
      → (ys : List ℕ) × (lookup
            (set s.sketching_alg.sketches src
              (merge skt (update_dsts h (zero_contents delta) src dsts)))
            v
          ≡ some (update_all (update h) blank ys))
        × ((a : ℕ)
            → xor (bit_of a ys) (is_odd v a (flat (before ++ later) ++ k.held s.gts)) ≡ target v a)
  own_sketch target s before later src v dsts delta skt xs q hs e same at_v odd =
      let ss = s.sketching_alg.sketches in
      let idxs = batch_indices src dsts in
      let is_skt : skt ≡ update_all (update h) blank xs =
        some_eq (sym e ∙ ap (lookup ss) same ∙ at_v) in
      let shaped = subst (HasShape (shape blank)) (sym is_skt) (held-HasShape xs) in
      let merged =
        merged_batch h skt delta src dsts (shape blank) shaped hs
        ∙ ap (λ t. update_all (update h) t idxs) is_skt
        ∙ sym (update_all-append (update h) blank xs idxs) in
      (
        xs ++ idxs,
        ap (lookup (set ss src (merge skt (update_dsts h (zero_contents delta) src dsts))))
              (sym same)
            ∙ lookup-set_self ss src skt _ e
            ∙ ap some merged,
        λ a. ground (
          arith,
          odd a,
          pending-took s before later src v a dsts q,
          ap (λ u. is_odd u a (map (λ dst. (src, dst)) dsts)) (sym same) ∙ is_odd-batch src a dsts,
          bit_of-append a xs idxs,
        ),
      )

  pub worked-Holds :
      (target : ℕ → ℕ → Bool) (s s' : GraphSketchDriver G)
      → WorkerStep sys h s s'
      → Holds sys k h blank valid n target s
      → Holds sys k h blank valid n target s'
  worked-Holds target s s' (took before later thr_id src dsts q p) w =
      let s0 = record s { work_queue = before ++ later } in
      let (delta, skt, e, e', r) = callback-Applied sys h s0 s' thr_id src dsts p in
      let alg = s.sketching_alg in
      let new = merge skt (update_dsts h (zero_contents delta) src dsts) in
      subst (Holds sys k h blank valid n target) r (record {
        sketch = λ v lt.
            let (xs, at_v, odd) = w.sketch v lt in
            elim (eq-cases src v) [
              | inl same ↦
                  own_sketch target s before later src v dsts delta skt xs q
                    (w.deltas thr_id delta e) e' same at_v odd
              | inr ne ↦ (
                xs,
                lookup-set_ne alg.sketches src v new ne ∙ at_v,
                λ a. ground (
                  arith,
                  odd a,
                  pending-took s before later src v a dsts q,
                  is_odd-other v src a dsts ne,
                ),
              )
            ];
        deltas = λ i d at_i. elim (eq-cases thr_id i) [
          | inl same ↦
              subst (HasShape (shape blank))
                (some_eq (
                  sym (lookup-set_self alg.delta_sketches thr_id delta _ e)
                  ∙ ap (lookup (set alg.delta_sketches thr_id _)) same
                  ∙ at_i))
                (delta-HasShape delta src dsts (w.deltas thr_id delta e))
          | inr ne ↦ w.deltas i d (sym (lookup-set_ne alg.delta_sketches thr_id i _ ne) ∙ at_i)
        ];
      })

  pub worked-gts : (s s' : GraphSketchDriver G) → WorkerStep sys h s s' → s'.gts ≡ s.gts
  worked-gts s s' (took before later thr_id src dsts q p) =
      let (delta, skt, e, e', r) =
        callback-Applied sys h (record s { work_queue = before ++ later }) s' thr_id src dsts p in
      ap (λ (t : GraphSketchDriver G). t.gts) (sym r)
