-- ===== src/Sketch/Batch.antt =====
-- A batch of updates: a sketch is a linear function of the vector over GF(2) that its updates
-- build, for every update function that is linear.
use graph_zeppelin.Base.{
  ℕ, ◌<◌, ◌≡◌, refl, sym, ◌∙◌, ap, subst, List, [], ◌∷◌, ◌++◌, length, get_or_ext,
}
use graph_zeppelin.Bucket.{Bucket, empty}
use graph_zeppelin.Bucket.Group.{◌⊕◌, ⊕-empty, empty-⊕}
use graph_zeppelin.Sketch.{Sketch, zero_contents, merge}
use graph_zeppelin.Sketch.Array.{chain}
use graph_zeppelin.Sketch.Linear.{Shape, shape, bucket_at, IsLinear}
use graph_zeppelin.Sketch.Merge.{
  bucket_at-merge, bucket_at-zero_contents, shape-zero_contents, length-zero_contents, length-merge,
  merge_keeps,
}
use graph_zeppelin.Sketch.Valid.{IsValid, zero_contents-IsValid}
use graph_zeppelin.Sketch.Vector.{bit_of, total, total_of_vector}

-- The loop over a batch of updates.
abbrev pub update_all : (Sketch → ℕ → Sketch) → Sketch → List ℕ → Sketch
update_all upd s [] = s
update_all upd s (x ∷ xs) = update_all upd (upd s x) xs

pub update_all-append :
    (upd : Sketch → ℕ → Sketch) (s : Sketch) (xs ys : List ℕ)
    → update_all upd s (xs ++ ys) ≡ update_all upd (update_all upd s xs) ys
update_all-append upd s [] ys = refl
update_all-append upd s (x ∷ xs) ys = update_all-append upd (upd s x) xs ys

module _ (upd : Sketch → ℕ → Sketch) (l : IsLinear upd) where
  pub update_all-IsValid : (s : Sketch) (xs : List ℕ) → IsValid s → IsValid (update_all upd s xs)
  update_all-IsValid s [] v = v
  update_all-IsValid s (x ∷ xs) v = update_all-IsValid (upd s x) xs (l.keeps_valid s x v)

  -- Updates change the buckets alone.
  pub update_all_keeps :
      (s : Sketch) (xs : List ℕ)
      → update_all upd s xs ≡ record s { buckets = (update_all upd s xs).buckets }
  update_all_keeps s [] = refl
  update_all_keeps s (x ∷ xs) =
      update_all_keeps (upd s x) xs
      ∙ ap (λ (t : Sketch). record t { buckets = (update_all upd (upd s x) xs).buckets })
          (l.keeps s x)

  same_length : (s : Sketch) (x : ℕ) → IsValid s → length (upd s x).buckets ≡ length s.buckets
  same_length s x v =
      let v' = l.keeps_valid s x v in
      v'.allocated ∙ ap (λ (t : Sketch). t.num_buckets) (l.keeps s x) ∙ sym v.allocated

  -- After a batch each bucket holds the sum of what the updates of the batch add.
  pub update_all_adds :
      (s : Sketch) (xs : List ℕ) (j : ℕ)
      → IsValid s
      → j < length s.buckets
      → bucket_at (update_all upd s xs) j ≡ bucket_at s j ⊕ total (λ x. l.delta (shape s) x j) xs
  update_all_adds s [] j v lt = sym (⊕-empty (bucket_at s j))
  update_all_adds s (x ∷ xs) j v lt =
      chain (bucket_at s j) (l.delta (shape s) x j) (total (λ y. l.delta (shape s) y j) xs)
        (l.adds s x j lt)
        (update_all_adds (upd s x) xs j (l.keeps_valid s x v)
            (subst (λ n. j < n) (sym (same_length s x v)) lt)
          ∙ ap (λ p. bucket_at (upd s x) j ⊕ total (λ y. l.delta p y j) xs)
              (ap shape (l.keeps s x)))

  -- Two sketches of one shape, with the same buckets.
  same_buckets :
      (s t : Sketch)
      → IsValid s
      → IsValid t
      → s.num_buckets ≡ t.num_buckets
      → ((j : ℕ) → j < length s.buckets → bucket_at s j ≡ bucket_at t j)
      → s.buckets ≡ t.buckets
  same_buckets s t v w e at =
      get_or_ext empty s.buckets t.buckets (v.allocated ∙ e ∙ sym w.allocated) at

  all_length :
      (s : Sketch) (xs : List ℕ)
      → IsValid s
      → length (update_all upd s xs).buckets ≡ length s.buckets
  all_length s xs v =
      let v' = update_all-IsValid s xs v in
      v'.allocated ∙ ap (λ (t : Sketch). t.num_buckets) (update_all_keeps s xs) ∙ sym v.allocated

  -- A well-formed sketch depends on the vector alone: two lists of updates in which every index
  -- occurs with the same parity leave it in the same state.
  pub update_all_of_vector :
      (s : Sketch) (xs ys : List ℕ)
      → IsValid s
      → ((a : ℕ) → bit_of a xs ≡ bit_of a ys)
      → update_all upd s xs ≡ update_all upd s ys
  update_all_of_vector s xs ys v same =
      update_all_keeps s xs
      ∙ ap (λ (bs : List Bucket). record s { buckets = bs })
          (get_or_ext empty _ _ (all_length s xs v ∙ sym (all_length s ys v)) (λ j lt.
            let lt' = subst (λ n. j < n) (all_length s xs v) lt in
            update_all_adds s xs j v lt'
            ∙ ap (◌⊕◌ (bucket_at s j)) (total_of_vector (λ x. l.delta (shape s) x j) xs ys same)
            ∙ sym (update_all_adds s ys j v lt')))
      ∙ sym (update_all_keeps s ys)

  -- The delta sketch of a worker: zeroed, updated with a batch, and merged into a sketch of the
  -- same shape, it does what the updates of the batch would have done there one by one.
  pub merge-update_all :
      (s d : Sketch) (xs : List ℕ)
      → IsValid s
      → IsValid d
      → shape s ≡ shape d
      → merge s (update_all upd (zero_contents d) xs) ≡ update_all upd s xs
  merge-update_all s d xs v w e =
      let z = zero_contents d in
      let wz = zero_contents-IsValid d w in
      let m = merge s (update_all upd z xs) in
      let sum = λ (p : Shape) (j : ℕ). total (λ x. l.delta p x j) xs in
      let room : length s.buckets ≡ length d.buckets =
        v.allocated ∙ ap (λ (p : Shape). p.num_buckets) e ∙ sym w.allocated in
      let batch = λ (j : ℕ) (lt : j < length d.buckets).
        update_all_adds z xs j wz (subst (λ n. j < n) (sym (length-zero_contents d)) lt)
        ∙ ap (λ b. b ⊕ sum (shape z) j) (bucket_at-zero_contents d j w lt)
        ∙ empty-⊕ (sum (shape z) j)
        ∙ ap (λ p. sum p j) (shape-zero_contents d ∙ sym e) in
      merge_keeps s (update_all upd z xs)
      ∙ ap (λ (bs : List Bucket). record s { buckets = bs })
          (get_or_ext empty _ _ (length-merge s (update_all upd z xs) ∙ sym (all_length s xs v))
            (λ j lt.
              let lt' = subst (λ n. j < n) (length-merge s (update_all upd z xs)) lt in
              bucket_at-merge s (update_all upd z xs) j v lt'
              ∙ ap (◌⊕◌ (bucket_at s j)) (batch j (subst (λ n. j < n) room lt'))
              ∙ sym (update_all_adds s xs j v lt')))
      ∙ sym (update_all_keeps s xs)
