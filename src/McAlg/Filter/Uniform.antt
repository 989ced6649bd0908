-- ===== src/McAlg/Filter/Uniform.antt =====
-- src/mc_sketch_alg.cpp: which updates filter_sf_edges does depends on the edges and the threads
-- alone, not on the sketches.
use graph_zeppelin.Base.{
  ℕ, zero, suc, ◌+◌, ◌-◌, ◌≡◌, refl, sym, subst, Bool, true, false, List, [], ◌∷◌, ◌++◌, Option,
  none, some, lookup, length, ltb, ◌==◌, if◌then◌else◌, slice,
}
use graph_zeppelin.Bucket.{Hashes}
use graph_zeppelin.CcAlg.Round.{Partition, get_ith_partition}
use graph_zeppelin.CcAlg.Round.Whenever.{Whenever, Whenever-bind, Whenever-map}
use graph_zeppelin.Dsu.{◌>>=◌}
use graph_zeppelin.McAlg.Filter.{
  filter_edge, filter_up, filter_down, filter_edges, same_source, filter_left, filter_right,
  filter_thread, filter_threads,
}
use graph_zeppelin.McAlg.Filter.Contents.{
  Changed, Changed-refl, Changed-trans, one_update, update_sketch-Changed,
}
use graph_zeppelin.Pairing.{u32, Edge, concat_pairing_fn}
use graph_zeppelin.Sketch.{Sketch}

abbrev Sketches : Type 0
Sketches = List (Option Sketch)

-- The step does the same updates in every state, if it ends without an error.
abbrev pub IsUniform : Hashes → (Sketches → Option Sketches) → Type 0
IsUniform h f = (xs : ℕ → List ℕ) × ((s : Sketches) → Whenever (Changed h xs s) (f s))

-- It gives the same index too.
abbrev Gives : Hashes → ℕ → (ℕ → List ℕ) → Sketches → ℕ × Sketches → Type 0
Gives h i xs s (i', s') = (i' ≡ i) × Changed h xs s s'

abbrev IsIndexed : Hashes → (Sketches → Option (ℕ × Sketches)) → Type 0
IsIndexed h f = (i : ℕ) × (xs : ℕ → List ℕ) × ((s : Sketches) → Whenever (Gives h i xs s) (f s))

module _ (h : Hashes) where
  IsUniform-some : IsUniform h some
  IsUniform-some = (λ i. [], λ s. Changed-refl h s)

  IsUniform-seq :
      (f g : Sketches → Option Sketches)
      → IsUniform h f
      → IsUniform h g
      → IsUniform h (λ s. f s >>= g)
  IsUniform-seq f g (xs, c) (ys, d) = (
    λ i. xs i ++ ys i,
    λ s. Whenever-bind (Changed h xs s) (Changed h (λ i. xs i ++ ys i) s) (f s) g (c s) λ t p.
        Whenever-map (Changed h ys t) (Changed h (λ i. xs i ++ ys i) s) (g t)
          (λ u q. Changed-trans h xs ys s t u p q) (d t),
  )

  IsIndexed-seq :
      (f : Sketches → Option Sketches) (g : Sketches → Option (ℕ × Sketches))
      → IsUniform h f
      → IsIndexed h g
      → IsIndexed h (λ s. f s >>= g)
  IsIndexed-seq f g (xs, c) (i, ys, d) = (
    i,
    λ j. xs j ++ ys j,
    λ s. Whenever-bind (Changed h xs s) (Gives h i (λ j. xs j ++ ys j) s) (f s) g (c s) λ t p.
        Whenever-map (Gives h i ys t) (Gives h i (λ j. xs j ++ ys j) s) (g t)
          (λ r q. (q.0, Changed-trans h xs ys s t r.1 p q.1)) (d t),
  )

  -- The step that uses the index.
  IsUniform-use :
      (f : Sketches → Option (ℕ × Sketches)) (g : ℕ → Sketches → Option Sketches)
      → IsIndexed h f
      → ((i : ℕ) → IsUniform h (g i))
      → IsUniform h (λ s. f s >>= λ r. g r.0 r.1)
  IsUniform-use f g (i, xs, c) k =
      let (ys, d) = k i in
      (
        λ j. xs j ++ ys j,
        λ s. Whenever-bind (Gives h i xs s) (Changed h (λ j. xs j ++ ys j) s) (f s) _ (c s) λ r p.
            subst (λ i'. Whenever (Changed h (λ j. xs j ++ ys j) s) (g i' r.1)) (sym p.0)
              (Whenever-map (Changed h ys r.1) (Changed h (λ j. xs j ++ ys j) s) (g i r.1)
                (λ u q. Changed-trans h xs ys s r.1 u p.1 q) (d r.1)),
      )

  IsIndexed-some : (i : ℕ) → IsIndexed h (λ s. some (i, s))
  IsIndexed-some i = (i, λ j. [], λ s. (refl, Changed-refl h s))

  IsIndexed-none : IsIndexed h (λ s. none)
  IsIndexed-none = (0, λ j. [], λ s. tt)

  -- A value that does not depend on the sketches is read first.
  IsIndexed-read :
      {A : Type 0} (o : Option A) (f : A → Sketches → Option (ℕ × Sketches))
      → ((x : A) → IsIndexed h (f x))
      → IsIndexed h (λ s. o >>= λ x. f x s)
  IsIndexed-read none f k = IsIndexed-none
  IsIndexed-read (some x) f k = k x

  IsIndexed-if :
      (b : Bool) (f g : Sketches → Option (ℕ × Sketches))
      → IsIndexed h f
      → IsIndexed h g
      → IsIndexed h (λ s. if b then f s else g s)
  IsIndexed-if true f g c d = c
  IsIndexed-if false f g c d = d

  module _ (offset : ℕ) where
    filter_edge-IsUniform : (edge : Edge) → IsUniform h (filter_edge h offset edge)
    unfolding filter_edge
    filter_edge-IsUniform edge = (
      one_update (u32 (offset + edge.src)) (concat_pairing_fn edge.src edge.dst),
      update_sketch-Changed h (u32 (offset + edge.src)) (concat_pairing_fn edge.src edge.dst),
    )

    filter_edges-IsUniform : (edges : List Edge) → IsUniform h (filter_edges h offset edges)
    unfolding filter_edges
    filter_edges-IsUniform [] = IsUniform-some
    filter_edges-IsUniform (edge ∷ edges) =
        IsUniform-seq (filter_edge h offset edge) (filter_edges h offset edges)
          (filter_edge-IsUniform edge) (filter_edges-IsUniform edges)

    filter_up-IsIndexed :
        (fuel : ℕ) (edges : List Edge) (src start : ℕ)
        → IsIndexed h (filter_up h offset fuel edges src start)
    unfolding filter_up
    filter_up-IsIndexed zero edges src start = IsIndexed-none
    filter_up-IsIndexed (suc fuel) edges src start =
        let next = filter_up-IsIndexed fuel edges src (start + 1) in
        IsIndexed-read (lookup edges start) _ λ edge.
          IsIndexed-if (edge.src == src) _ _
            (IsIndexed-seq (filter_edge h offset edge) _ (filter_edge-IsUniform edge) next)
            (IsIndexed-some start)

    filter_down-IsIndexed :
        (edges : List Edge) (src end : ℕ) → IsIndexed h (filter_down h offset edges src end)
    unfolding filter_down
    filter_down-IsIndexed edges src zero = IsIndexed-none
    filter_down-IsIndexed edges src (suc i) =
        let next = filter_down-IsIndexed edges src i in
        IsIndexed-read (lookup edges i) _ λ edge.
          IsIndexed-if (edge.src == src) _ _
            (IsIndexed-seq (filter_edge h offset edge) _ (filter_edge-IsUniform edge) next)
            (IsIndexed-some (suc i))

    filter_left-IsIndexed :
        (edges : List Edge) (start : ℕ) → IsIndexed h (filter_left h offset edges start)
    unfolding filter_left
    filter_left-IsIndexed edges start =
        IsIndexed-read
          (if ltb 0 start then same_source h offset edges start (start - 1) else some false) _
          λ collides.
            IsIndexed-if collides _ _
              (IsIndexed-read (lookup edges start) _
                λ edge. filter_up-IsIndexed (length edges + 1) edges edge.src start)
              (IsIndexed-some start)

    filter_right-IsIndexed :
        (edges : List Edge) (end : ℕ) → IsIndexed h (filter_right h offset edges end)
    unfolding filter_right
    filter_right-IsIndexed edges zero =
        IsIndexed-if (ltb 0 (length edges)) _ _ IsIndexed-none (IsIndexed-some 0)
    filter_right-IsIndexed edges (suc last) =
        IsIndexed-read
          (if ltb (suc last) (length edges)
            then same_source h offset edges last (suc last)
            else some false)
          _
          λ collides.
            IsIndexed-if collides _ _
              (IsIndexed-read (lookup edges last) _
                λ edge. filter_down-IsIndexed edges edge.src (suc last))
              (IsIndexed-some (suc last))

    filter_thread-IsUniform :
        (p : Partition) (num_threads : ℕ) (edges : List Edge) (thr_id : ℕ)
        → IsUniform h (filter_thread h offset p num_threads edges thr_id)
    unfolding filter_thread
    filter_thread-IsUniform p num_threads edges thr_id =
        let (start, end) = get_ith_partition p (length edges) thr_id num_threads in
        IsUniform-use (filter_left h offset edges start) _ (filter_left-IsIndexed edges start)
          λ start'.
            IsUniform-use (filter_right h offset edges end)
              (λ end' s. filter_edges h offset (slice start' (end' - start') edges) s)
              (filter_right-IsIndexed edges end)
              λ end'. filter_edges-IsUniform (slice start' (end' - start') edges)

    pub filter_threads-IsUniform :
        (p : Partition) (num_threads : ℕ) (edges : List Edge) (schedule : List ℕ)
        → IsUniform h (filter_threads h offset p num_threads edges schedule)
    unfolding filter_threads
    filter_threads-IsUniform p num_threads edges [] = IsUniform-some
    filter_threads-IsUniform p num_threads edges (thr_id ∷ schedule) =
        IsUniform-seq (filter_thread h offset p num_threads edges thr_id)
          (filter_threads h offset p num_threads edges schedule)
          (filter_thread-IsUniform p num_threads edges thr_id)
          (filter_threads-IsUniform p num_threads edges schedule)
