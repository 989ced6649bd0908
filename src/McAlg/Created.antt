-- ===== src/McAlg/Created.antt =====
-- src/mc_sketch_alg.cpp: which sketches create_sketch_graph allocates.
use graph_zeppelin.Base.{
  ℕ, zero, suc, ◌+◌, ◌*◌, ◌≤◌, ◌<◌, ◌≡◌, ◌≢◌, ◌⊎◌, inl, inr, refl, sym, ◌∙◌, ap, subst, arith, true,
  false, not, ◌||◌, List, [], ◌∷◌, Option, some, lookup, length, leb, ◌==◌, ==_iff, if◌then◌else◌,
  eq-cases, set, length-set, if_elim, ◌^◌,
}
use graph_zeppelin.McAlg.{McSketchAlg, sketch_at, place, allocate_loop, create_sketch_graph, ◌>>=◌}
use graph_zeppelin.McAlg.Places.{graph_fits, place_small, sketch_at-set_ne}
use graph_zeppelin.Pairing.{u32}
use graph_zeppelin.Sketch.{Sketch}

lookup-set_lt {ℓ} :
    {A : Type ℓ} (xs : List A) (i : ℕ) (x : A) → i < length xs → lookup (set xs i x) i ≡ some x
lookup-set_lt [] i x lt = absurd (omega arith)
lookup-set_lt (y ∷ xs) zero x lt = refl
lookup-set_lt (y ∷ xs) (suc i) x lt = lookup-set_lt xs i x (omega arith)

sketch_at-set_lt :
    (sketches : List (Option Sketch)) (i : ℕ) (skt : Sketch)
    → i < length sketches
    → sketch_at (set sketches i (some skt)) i ≡ some skt
unfolding sketch_at
sketch_at-set_lt sketches i skt lt = ap (λ o. o >>= λ s. s) (lookup-set_lt sketches i (some skt) lt)

u32_small : (i : ℕ) → i < 2 ^ 32 → u32 i ≡ i
u32_small i lt = omega (arith, lt)

-- What lies below or above the range of the loop stays.
allocate_loop-outside :
    (left i : ℕ) (blank : Sketch) (sketches : List (Option Sketch)) (j : ℕ)
    → i + left < 2 ^ 32
    → (j < i) ⊎ (i + left ≤ j)
    → sketch_at (allocate_loop left i blank sketches) j ≡ sketch_at sketches j
unfolding allocate_loop
allocate_loop-outside zero i blank sketches j small out = refl
allocate_loop-outside (suc left) i blank sketches j small out =
    allocate_loop-outside left (i + 1) blank (set sketches (u32 i) (some blank)) j
      (omega (arith, small)) (ground (arith, out))
    ∙ sketch_at-set_ne sketches (u32 i) j (some blank)
        (λ e. ground (arith, u32_small i (omega (arith, small)), e, out))

allocate_loop-inside :
    (left i : ℕ) (blank : Sketch) (sketches : List (Option Sketch)) (j : ℕ)
    → i + left < 2 ^ 32
    → i ≤ j
    → j < i + left
    → i + left ≤ length sketches
    → sketch_at (allocate_loop left i blank sketches) j ≡ some blank
unfolding allocate_loop
allocate_loop-inside zero i blank sketches j small lo hi room = absurd (omega arith)
allocate_loop-inside (suc left) i blank sketches j small lo hi room =
    let here = u32_small i (omega (arith, small)) in
    let next = set sketches (u32 i) (some blank) in
    elim (eq-cases i j) [
      | inl same ↦
          allocate_loop-outside left (i + 1) blank next j (omega (arith, small))
            (inl (omega (arith, same)))
          ∙ subst (λ k. sketch_at next k ≡ some blank) (here ∙ same)
              (sketch_at-set_lt sketches (u32 i) blank (omega (arith, here, room)))
      | inr ne ↦
          allocate_loop-inside left (i + 1) blank next j (omega (arith, small))
            (ground (arith, ne, lo)) (omega (arith, hi))
            (omega (arith, room, length-set sketches (u32 i) (some blank)))
    ]

graph_step : (n g g' : ℕ) → g < g' → g * n + n ≤ g' * n
graph_step n g g' lt = grind arith

either_side : (g g' : ℕ) → g' ≢ g → (g' < g) ⊎ (g < g')
either_side g g' ne = ground arith

-- A place outside of the range of the graph.
other_graph : (n g g' j : ℕ) → j < n → g' ≢ g → (g' * n + j < g * n) ⊎ (g * n + n ≤ g' * n + j)
other_graph n g g' j lt ne = elim (either_side g g' ne) [
  | inl below ↦ inl (omega (arith, graph_step n g' g below, lt))
  | inr above ↦ inr (omega (arith, graph_step n g g' above))
]

-- The two outcomes, for the algorithm `r` that is left.
abbrev pub Created : McSketchAlg → Sketch → ℕ → McSketchAlg → Type 0
Created a blank graph_id r =
    ((r ≡ a) × ((a.max_sketch_graphs ≤ graph_id) ⊎ (graph_id ≢ a.num_sketch_graphs)))
    ⊎ ((graph_id < a.max_sketch_graphs)
        × (graph_id ≡ a.num_sketch_graphs)
        × (r.num_sketch_graphs ≡ a.num_sketch_graphs + 1)
        × ((g j : ℕ)
            → g < a.max_sketch_graphs
            → j < a.num_vertices
            → sketch_at r.sketches (place a g j)
              ≡ (if g == graph_id then some blank else sketch_at a.sketches (place a g j))))

refused : (max g num : ℕ) → (leb max g || not (g == num)) ≡ true → (max ≤ g) ⊎ (g ≢ num)
refused max g num e = ground (arith, e)

accepted : (max g num : ℕ) → (leb max g || not (g == num)) ≡ false → (g < max) × (g ≡ num)
accepted max g num e = ground (arith, e)

allocated-sketch_at :
    (a : McSketchAlg) (blank : Sketch) (graph_id g j : ℕ)
    → length a.sketches ≡ a.num_vertices * a.max_sketch_graphs
    → a.num_vertices * a.max_sketch_graphs < 2 ^ 32
    → graph_id < a.max_sketch_graphs
    → g < a.max_sketch_graphs
    → j < a.num_vertices
    → sketch_at
        (allocate_loop a.num_vertices (graph_id * a.num_vertices) blank a.sketches)
        (place a g j)
      ≡ (if g == graph_id then some blank else sketch_at a.sketches (place a g j))
allocated-sketch_at a blank graph_id g j room small lt lg lj =
    let n = a.num_vertices in
    let fits = graph_fits n graph_id a.max_sketch_graphs lt in
    let here = place_small n a.max_sketch_graphs g j small lg lj in
    if_elim (λ o. sketch_at (allocate_loop n (graph_id * n) blank a.sketches) (place a g j) ≡ o)
      (g == graph_id) _ _
      (λ t.
        let same = ap (λ k. k * n) ((==_iff g graph_id).0 t) in
        allocate_loop-inside n (graph_id * n) blank a.sketches (place a g j)
          (omega (arith, fits, small)) (omega (arith, here, same)) (omega (arith, here, same, lj))
          (omega (arith, fits, room)))
      (λ f.
        allocate_loop-outside n (graph_id * n) blank a.sketches (place a g j)
          (omega (arith, fits, small))
          (subst (λ k. (k < graph_id * n) ⊎ (graph_id * n + n ≤ k)) (sym here)
            (other_graph n graph_id g j lj (λ e. ground (arith, f, e)))))

-- In an array for all the graphs that there may be, whose length is below 2 ^ 32,
-- create_sketch_graph either refuses the id and changes nothing, if it is not the next one or not
-- below the number of graphs that there may be; or it counts one graph more, every vertex of which
-- has the new sketch, and the sketches of every other graph that there may be are those that they
-- were.
pub create_sketch_graph-sketch_at :
    (a : McSketchAlg) (blank : Sketch) (graph_id : ℕ)
    → length a.sketches ≡ a.num_vertices * a.max_sketch_graphs
    → a.num_vertices * a.max_sketch_graphs < 2 ^ 32
    → Created a blank graph_id (create_sketch_graph a blank graph_id)
unfolding create_sketch_graph
create_sketch_graph-sketch_at a blank graph_id room small =
    if_elim (Created a blank graph_id)
      (leb a.max_sketch_graphs graph_id || not (graph_id == a.num_sketch_graphs)) _ _
      (λ t. inl (refl, refused a.max_sketch_graphs graph_id a.num_sketch_graphs t))
      (λ f.
        let (lt, next) = accepted a.max_sketch_graphs graph_id a.num_sketch_graphs f in
        inr (
          lt,
          next,
          refl,
          λ g j lg lj. allocated-sketch_at a blank graph_id g j room small lt lg lj,
        ))
