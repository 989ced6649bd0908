-- ===== src/CcAlg/Eager.antt =====
-- `pre_insert` keeps the partition of the eager set.
use graph_zeppelin.Base.{
  ℕ, ◌<◌, ◌≡◌, ◌⊎◌, inl, inr, sym, ◌∙◌, subst, arith, Bool, true, false, ◌&&◌, List, ◌==◌,
  if◌then◌else◌, Bool-cases, eq-cases, length-set,
}
use mathlib.Core.Path.{subst₂}
use graph_zeppelin.CcAlg.Forest.{
  IsEager, Linked, Linked-mono, flipped, in_forest-plant, along, back, walk,
}
use graph_zeppelin.CcAlg.{in_forest, plant}
use graph_zeppelin.Dsu.{Dsu, DsuMergeRet}
use graph_zeppelin.Dsu.FindRoot.{IsValid}
use graph_zeppelin.Dsu.Forest.{Root, Root_unique}
use graph_zeppelin.Dsu.Merge.{SameSet}
use graph_zeppelin.Dsu.Joined.{IsJoin}
use graph_zeppelin.Dsu.Rank.{root_of}

-- A vertex is in its own set.
pub SameSet-refl : (d : Dsu) (x : ℕ) → IsValid d → x < d.n → SameSet d x x
SameSet-refl d x v lt = let (r, t, _) = root_of d.n d.priority d.parent v.forest x lt in (r, t, t)

pub SameSet-cases :
    (d : Dsu) (x y : ℕ) → IsValid d → x < d.n → y < d.n → SameSet d x y ⊎ (¬ SameSet d x y)
SameSet-cases d x y v lx ly =
    let (r, t, _) = root_of d.n d.priority d.parent v.forest x lx in
    let (r', t', _) = root_of d.n d.priority d.parent v.forest y ly in
    elim (eq-cases r r') [
      | inl e ↦ inl (r, t, subst (Root d.parent y) (sym e) t')
      | inr ne ↦ inr (λ (q, p, p'). ne (Root_unique t p ∙ Root_unique p' t'))
    ]

-- One update of the edge from `s` to `t`, before which the invariant holds.
module _ (n : ℕ) (d : Dsu) (forest : List (List ℕ)) (graph : ℕ → ℕ → Bool) (s t : ℕ)
    (out : Dsu × DsuMergeRet) (i : IsEager n d forest graph) (ls : s < n) (lt : t < n)
    (j : IsJoin d s t out) where
  ls' : s < d.n
  ls' = subst (λ m. s < m) (sym i.size) ls

  lt' : t < d.n
  lt' = subst (λ m. t < m) (sym i.size) lt

  joined_ends : SameSet out.0 s t
  joined_ends =
      j.complete s t (inr (inl (SameSet-refl d s i.valid ls', SameSet-refl d t i.valid lt')))

  flipped-cases :
      (x y : ℕ) → flipped graph s t x y ≡ true → ((s ≡ x) × (t ≡ y)) ⊎ (graph x y ≡ true)
  flipped-cases x y e = ground arith

  covered : (x y : ℕ) → flipped graph s t x y ≡ true → (x < n) × (y < n) × SameSet out.0 x y
  covered x y e = elim (flipped-cases x y e) [
    | inl (p, q) ↦
        (subst (λ z. z < n) p ls, subst (λ z. z < n) q lt, subst₂ (SameSet out.0) p q joined_ends)
    | inr old ↦ let (lx, ly, c) = i.covers x y old in (lx, ly, j.complete x y (inl c))
  ]

  from_join :
      (forest' : List (List ℕ))
      → ((x y : ℕ) → in_forest forest x y ≡ true → in_forest forest' x y ≡ true)
      → Linked (in_forest forest') s t
      → (x y : ℕ) → x < n
      → y < n
      → SameSet out.0 x y
      → Linked (in_forest forest') x y
  from_join forest' more st x y lx ly same =
      let old = λ (x y : ℕ) (lx : x < n) (ly : y < n) (c : SameSet d x y).
        Linked-mono more (i.spans x y lx ly c) in
      let lx' = subst (λ m. x < m) (sym i.size) lx in
      let ly' = subst (λ m. y < m) (sym i.size) ly in
      elim (j.sound x y lx' ly' same) [
        | inl c ↦ old x y lx ly c
        | inr (inl (p, q)) ↦ walk (old x s lx ls p) (walk st (old t y lt ly q))
        | inr (inr (p, q)) ↦ walk (old x t lx lt p) (walk (back st) (old s y ls ly q))
      ]

  planted_edge :
      (x y : ℕ)
      → graph s t ≡ false
      → (if s == x && t == y then true else in_forest forest x y) ≡ true
      → flipped graph s t x y ≡ true
  planted_edge x y absent e =
      let same : s ≡ x → t ≡ y → graph x y ≡ false =
        λ p q. subst₂ (λ x y. graph x y ≡ false) p q absent in
      let old = i.planted x y in
      elim (eq-cases s x) [
        | inl p ↦ elim (eq-cases t y) [
          | inl q ↦ let now = same p q in ground arith
          | inr ne ↦ ground arith
        ]
        | inr ne ↦ ground arith
      ]

  grown :
      (forest' : List (List ℕ)) (x y : ℕ)
      → in_forest forest' x y ≡ (if s == x && t == y then true else in_forest forest x y)
      → in_forest forest x y ≡ true
      → in_forest forest' x y ≡ true
  grown forest' x y e old = ground arith

  ends_grown :
      (forest' : List (List ℕ))
      → in_forest forest' s t ≡ (if s == s && t == t then true else in_forest forest s t)
      → in_forest forest' s t ≡ true
  ends_grown forest' e = ground arith

  -- The edge joins two sets, and the forest takes it up.
  pub eager_joins : out.1.merged ≡ true → IsEager n out.0 (plant forest s t) (flipped graph s t)
  eager_joins fresh =
      let absent : graph s t ≡ false = elim (Bool-cases (graph s t)) [
        | inl e ↦ (let (_, _, c) = i.covers s t e in absurd (j.fresh.0 fresh c))
        | inr e ↦ e
      ] in
      let ls_row = subst (λ m. s < m) (sym i.rows) ls in
      record {
        valid = j.valid;
        size = j.size ∙ i.size;
        rows = length-set forest s _ ∙ i.rows;
        planted =
            λ x y e. planted_edge x y absent (sym (in_forest-plant forest s t x y ls_row) ∙ e);
        spans =
            from_join (plant forest s t)
              (λ x y e. grown (plant forest s t) x y (in_forest-plant forest s t x y ls_row) e)
              (along (ends_grown (plant forest s t) (in_forest-plant forest s t s t ls_row)));
        covers = covered;
      }

  kept_edge :
      (x y : ℕ)
      → in_forest forest s t ≡ false
      → in_forest forest x y ≡ true
      → flipped graph s t x y ≡ true
  kept_edge x y absent e =
      let same : s ≡ x → t ≡ y → in_forest forest x y ≡ false =
        λ p q. subst₂ (λ x y. in_forest forest x y ≡ false) p q absent in
      let old = i.planted x y e in
      elim (eq-cases s x) [
        | inl p ↦ elim (eq-cases t y) [
          | inl q ↦ (let clash = sym (same p q) ∙ e in ground arith)
          | inr ne ↦ ground arith
        ]
        | inr ne ↦ ground arith
      ]

  -- The edge joins no sets, and is not an edge of the forest.
  pub eager_keeps :
      out.1.merged ≡ false
      → in_forest forest s t ≡ false
      → IsEager n out.0 forest (flipped graph s t)
  eager_keeps old absent =
      let within : SameSet d s t = elim (SameSet-cases d s t i.valid ls' lt') [
        | inl c ↦ c
        | inr ne ↦ (let clash = sym (j.fresh.1 ne) ∙ old in ground arith)
      ] in
      record {
        valid = j.valid;
        size = j.size ∙ i.size;
        rows = i.rows;
        planted = λ x y e. kept_edge x y absent e;
        spans = from_join forest (λ x y e. e) (i.spans s t ls lt within);
        covers = covered;
      }

  -- The edge joins no sets: nothing changes but the shape of the trees.
  pub eager_same : out.1.merged ≡ false → IsEager n out.0 forest graph
  eager_same old =
      let within : SameSet d s t = elim (SameSet-cases d s t i.valid ls' lt') [
        | inl c ↦ c
        | inr ne ↦ (let clash = sym (j.fresh.1 ne) ∙ old in ground arith)
      ] in
      record {
        valid = j.valid;
        size = j.size ∙ i.size;
        rows = i.rows;
        planted = i.planted;
        spans = from_join forest (λ x y e. e) (i.spans s t ls lt within);
        covers = λ x y e. (let (lx, ly, c) = i.covers x y e in (lx, ly, j.complete x y (inl c)));
      }

  pub regrown :
      (x y : ℕ)
      → in_forest (plant forest s t) x y ≡ true
      → ((s ≡ x) × (t ≡ y)) ⊎ (in_forest forest x y ≡ true)
  regrown x y e =
      let now = in_forest-plant forest s t x y (subst (λ m. s < m) (sym i.rows) ls) in ground arith

  -- The same with the forest as the graph.
  pub eager_plants :
      out.1.merged ≡ true → IsEager n out.0 (plant forest s t) (in_forest (plant forest s t))
  eager_plants fresh =
      let whole = eager_joins fresh in
      record {
        valid = whole.valid;
        size = whole.size;
        rows = whole.rows;
        planted = λ x y e. e;
        spans = whole.spans;
        covers = λ x y e. elim (regrown x y e) [
          | inl (p, q) ↦ (
            subst (λ z. z < n) p ls,
            subst (λ z. z < n) q lt,
            subst₂ (SameSet out.0) p q joined_ends,
          )
          | inr old ↦
              let (lx, ly, c) = i.covers x y (i.planted x y old) in (lx, ly, j.complete x y (inl c))
        ];
      }
