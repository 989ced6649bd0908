-- ===== src/CcAlg/Forest.antt =====
-- The graph of a stream of updates, and the eager set's invariant: what the partition and the
-- spanning forest say of that graph while the set is valid.
use graph_zeppelin.Base.{
  ℕ, ◌<◌, ◌≡◌, inl, inr, ◌↔◌, sym, ◌∙◌, ap, subst, arith, Bool, true, false, not, ◌&&◌, ◌==◌,
  if◌then◌else◌, List, [], ◌∷◌, length, get_or, contains, contains-set_insert, get_or-set_self,
  get_or-set_ne, eq-cases, set_insert,
}
use graph_zeppelin.Pairing.{Edge, lower, upper}
use graph_zeppelin.Dsu.{Dsu}
use graph_zeppelin.Dsu.FindRoot.{IsValid}
use graph_zeppelin.Dsu.Merge.{SameSet}
use graph_zeppelin.Dsu.Joined.{SameSet-sym, SameSet-trans}
use graph_zeppelin.CcAlg.{in_forest, plant}

-- The graph after the edge from `s` to `t` is flipped.
abbrev pub flipped : (ℕ → ℕ → Bool) → ℕ → ℕ → ℕ → ℕ → Bool
flipped graph s t x y = if s == x && t == y then not (graph x y) else graph x y

-- The graph after a stream: the edge between x and y, x ≤ y, is in it exactly if an odd number
-- of the updates are of that edge, in either direction.
abbrev pub graph_after : (ℕ → ℕ → Bool) → List Edge → ℕ → ℕ → Bool
graph_after graph [] = graph
graph_after graph (e ∷ es) = graph_after (flipped graph (lower e.src e.dst) (upper e.src e.dst)) es

abbrev pub no_edges : ℕ → ℕ → Bool
no_edges x y = false

-- The walks of the graph of the edges that `edge` tells.
pub data Linked (edge : ℕ → ℕ → Bool) : ℕ → ℕ → Type 0 where
  here : {x y : ℕ} → x ≡ y → Linked edge x y
  along : {x y : ℕ} → edge x y ≡ true → Linked edge x y
  back : {x y : ℕ} → Linked edge x y → Linked edge y x
  walk : {x y z : ℕ} → Linked edge x y → Linked edge y z → Linked edge x z

pub Linked-mono :
    {f g : ℕ → ℕ → Bool}
    → ((x y : ℕ) → f x y ≡ true → g x y ≡ true)
    → {x y : ℕ} → Linked f x y
    → Linked g x y
Linked-mono h (here e) = here e
Linked-mono h (along {x} {y} e) = along (h x y e)
Linked-mono h (back w) = back (Linked-mono h w)
Linked-mono h (walk w w') = walk (Linked-mono h w) (Linked-mono h w')

-- While the set is valid: the forest is part of the graph, a walk in the forest joins the
-- vertices of one set, and the ends of each edge of the graph are vertices of one set.
pub record IsEager (n : ℕ) (d : Dsu) (forest : List (List ℕ)) (graph : ℕ → ℕ → Bool) : Type 0 where
  pub valid : IsValid d
  pub size : d.n ≡ n
  pub rows : length forest ≡ n
  pub planted : (x y : ℕ) → in_forest forest x y ≡ true → graph x y ≡ true
  pub spans : (x y : ℕ) → x < n → y < n → SameSet d x y → Linked (in_forest forest) x y
  pub covers : (x y : ℕ) → graph x y ≡ true → (x < n) × (y < n) × SameSet d x y

-- Walks of the graph stay within one set.
module _ (n : ℕ) (d : Dsu) (forest : List (List ℕ)) (graph : ℕ → ℕ → Bool)
    (i : IsEager n d forest graph) (self : (x : ℕ) → x < n → SameSet d x x) where
  abbrev Leads : ℕ → ℕ → Type 0
  Leads x y = x < n → (y < n) × SameSet d x y

  Leads-trans : {x y z : ℕ} → Leads x y → Leads y z → Leads x z
  Leads-trans {x} {y} {z} f g lx =
      let (ly, s) = f lx in let (lz, t) = g ly in (lz, SameSet-trans d x y z s t)

  Linked-Leads : {x y : ℕ} → Linked graph x y → Leads x y × Leads y x
  Linked-Leads (here {x} {y} e) = (
    λ lx. (subst (λ z. z < n) e lx, subst (SameSet d x) e (self x lx)),
    λ ly. (subst (λ z. z < n) (sym e) ly, subst (SameSet d y) (sym e) (self y ly)),
  )
  Linked-Leads (along {x} {y} e) =
      let (lx, ly, s) = i.covers x y e in (λ _. (ly, s), λ _. (lx, SameSet-sym d x y s))
  Linked-Leads (back w) = let both = Linked-Leads w in (both.1, both.0)
  Linked-Leads (walk w w') =
      let first = Linked-Leads w in
      let second = Linked-Leads w' in (Leads-trans first.0 second.0, Leads-trans second.1 first.1)

  -- Two vertices are in one set exactly if a walk of the graph joins them.
  pub SameSet-Linked : (x y : ℕ) → x < n → y < n → SameSet d x y ↔ Linked graph x y
  SameSet-Linked x y lx ly =
      (λ s. Linked-mono i.planted (i.spans x y lx ly s), λ w. ((Linked-Leads w).0 lx).1)

pub in_forest-plant :
    (forest : List (List ℕ)) (s t x y : ℕ)
    → s < length forest
    → in_forest (plant forest s t) x y ≡ (if s == x && t == y then true else in_forest forest x y)
in_forest-plant forest s t x y lt =
    let row = set_insert t (get_or forest s []) in
    elim (eq-cases s x) [
      | inl e ↦
          let written : in_forest (plant forest s t) x y
              ≡ (if y == t then true else in_forest forest x y) =
            subst
              (λ z.
                in_forest (plant forest s t) z y ≡ (if y == t then true else in_forest forest z y))
              e
              (ap (contains y) (get_or-set_self forest s row [] lt)
                ∙ contains-set_insert y t (get_or forest s [])) in
          ground arith
      | inr ne ↦
          let kept : in_forest (plant forest s t) x y ≡ in_forest forest x y =
            ap (contains y) (get_or-set_ne forest s x row [] ne) in
          ground arith
    ]
