-- ===== src/McAlg/Cut/Sides.antt =====
-- src/mc_sketch_alg.cpp: the two sides that calc_minimum_cut returns.
use graph_zeppelin.Base.{
  ℕ, zero, suc, ◌+◌, ◌<◌, ◌≡◌, refl, sym, ◌∙◌, ap, arith, Bool, true, false, not, ◌&&◌, ◌||◌, List,
  [], ◌∷◌, ltb, leb, ◌==◌, ==_iff, if◌then◌else◌, contains, if_elim,
}
use graph_zeppelin.McAlg.Cut.{Cut, split_vertices, calc_minimum_cut, ordered_insert}
use graph_zeppelin.Pairing.{Edge}
use graph_zeppelin.Dsu.Components.{InRange}
use graph_zeppelin.ReturnTypes.Sets.{contains-ordered_insert}

-- Whether the loop has met the vertex.
abbrev met : ℕ → ℕ → ℕ → Bool
met i left v = leb i v && ltb v (i + left)

met_step : (i left v : ℕ) → met i (suc left) v ≡ ((v == i) || met (i + 1) left v)
met_step i left v = ground arith

-- The vertex is put on this side, and the test tells that it belongs there.
on_side :
    (here p c m : Bool)
    → (here ≡ true → p ≡ true)
    → ((here || c) || (m && p)) ≡ (c || ((here || m) && p))
on_side here p c m f = ground (arith, f)

off_side :
    (here p c m : Bool) → (here ≡ true → p ≡ false) → (c || (m && p)) ≡ (c || ((here || m) && p))
off_side here p c m f = ground (arith, f)

split_vertices-sides :
    (in_cut : ℕ → Bool) (v left i : ℕ) (lefts rights : List ℕ)
    → (contains v (split_vertices in_cut left i (lefts, rights)).0
        ≡ (contains v lefts || (met i left v && in_cut v)))
      × (contains v (split_vertices in_cut left i (lefts, rights)).1
          ≡ (contains v rights || (met i left v && not (in_cut v))))
unfolding split_vertices
split_vertices-sides in_cut v zero i lefts rights = (ground arith, ground arith)
split_vertices-sides in_cut v (suc left) i lefts rights =
    let told : (b : Bool) → in_cut i ≡ b → (v == i) ≡ true → in_cut v ≡ b =
      λ b e t. ap in_cut ((==_iff v i).0 t) ∙ e in
    let m = met (i + 1) left v in
    let step = met_step i left v in
    if_elim
      (λ q.
        (contains v (split_vertices in_cut left (i + 1) q).0
          ≡ (contains v lefts || (met i (suc left) v && in_cut v)))
        × (contains v (split_vertices in_cut left (i + 1) q).1
            ≡ (contains v rights || (met i (suc left) v && not (in_cut v)))))
      (in_cut i) _ _
      (λ t.
        let (f, g) = split_vertices-sides in_cut v left (i + 1) (ordered_insert i lefts) rights in
        (
          f
              ∙ ap (λ c. c || (m && in_cut v)) (contains-ordered_insert v i lefts)
              ∙ on_side (v == i) (in_cut v) (contains v lefts) m (told true t)
              ∙ ap (λ c. contains v lefts || (c && in_cut v)) (sym step),
          g
              ∙ off_side (v == i) (not (in_cut v)) (contains v rights) m
                  (λ e. ap not (told true t e))
              ∙ ap (λ c. contains v rights || (c && not (in_cut v))) (sym step),
        ))
      (λ t.
        let (f, g) = split_vertices-sides in_cut v left (i + 1) lefts (ordered_insert i rights) in
        (
          f
              ∙ off_side (v == i) (in_cut v) (contains v lefts) m (told false t)
              ∙ ap (λ c. contains v lefts || (c && in_cut v)) (sym step),
          g
              ∙ ap (λ c. c || (m && not (in_cut v))) (contains-ordered_insert v i rights)
              ∙ on_side (v == i) (not (in_cut v)) (contains v rights) m
                  (λ e. ap not (told false t e))
              ∙ ap (λ c. contains v rights || (c && not (in_cut v))) (sym step),
        ))

-- The edges that join the two sides.
abbrev pub crossing : List ℕ → List ℕ → List Edge → ℕ
crossing lefts rights [] = 0
crossing lefts rights (e ∷ es) =
    (if (contains e.src lefts && contains e.dst rights)
        || (contains e.src rights && contains e.dst lefts)
      then 1
      else 0)
    + crossing lefts rights es

-- The weight of the cut that a test on the vertices gives.
abbrev pub cut_weight : (ℕ → Bool) → List Edge → ℕ
cut_weight in_cut [] = 0
cut_weight in_cut (e ∷ es) =
    (if in_cut e.src && not (in_cut e.dst) || not (in_cut e.src) && in_cut e.dst then 1 else 0)
    + cut_weight in_cut es

met_all : (n v : ℕ) (p : Bool) → v < n → (false || (met 0 n v && p)) ≡ p
met_all n v p lt = ground arith

module _ (lefts rights : List ℕ) (in_cut : ℕ → Bool) (n : ℕ) where
  -- The sides are those of the test.
  abbrev AreSides : Type 0
  AreSides = (v : ℕ) → v < n → (contains v lefts ≡ in_cut v) × (contains v rights ≡ not (in_cut v))

  crossing-cut_weight :
      (es : List Edge) → AreSides → InRange n es → crossing lefts rights es ≡ cut_weight in_cut es
  crossing-cut_weight [] sides h = refl
  crossing-cut_weight (e ∷ es) sides ((ls, ld), h) =
      let (a, b) = sides e.src ls in
      let (c, d) = sides e.dst ld in
      let rest = crossing-cut_weight es sides h in
      rw (a, b, c, d)
        (ap
          (λ k.
            (if in_cut e.src && not (in_cut e.dst) || not (in_cut e.src) && in_cut e.dst
              then 1
              else 0)
            + k)
          rest)

-- Let VieCut give a cut with its weight, the number of edges across it. The two sets that
-- calc_minimum_cut returns for edges between the vertices then divide the vertices: each vertex is
-- in exactly one of them, and the value is the number of edges between the two.
pub calc_minimum_cut-crossing :
    (perform_minimum_cut : ℕ → List Edge → Cut) (n : ℕ) (es : List Edge)
    → InRange n es
    → (perform_minimum_cut n es).weight ≡ cut_weight (perform_minimum_cut n es).node_in_cut es
    → ((v : ℕ)
        → v < n
        → contains v (calc_minimum_cut perform_minimum_cut n es).left_vertices
          ≡ not (contains v (calc_minimum_cut perform_minimum_cut n es).right_vertices))
      × ((calc_minimum_cut perform_minimum_cut n es).value
          ≡ crossing
              (calc_minimum_cut perform_minimum_cut n es).left_vertices
              (calc_minimum_cut perform_minimum_cut n es).right_vertices
              es)
unfolding calc_minimum_cut
calc_minimum_cut-crossing perform_minimum_cut n es h w =
    let in_cut = (perform_minimum_cut n es).node_in_cut in
    let sets = split_vertices in_cut n 0 ([], []) in
    let sides : AreSides sets.0 sets.1 in_cut n = λ v lt.
      (let (f, g) = split_vertices-sides in_cut v n 0 [] [] in
        (f ∙ met_all n v (in_cut v) lt, g ∙ met_all n v (not (in_cut v)) lt)) in
    (
      λ v lt. ground (arith, sides v lt),
      w ∙ sym (crossing-cut_weight sets.0 sets.1 in_cut n es sides h),
    )
