-- ===== src/ReturnTypes/Connectivity.antt =====
-- The answer tells the partition.
use graph_zeppelin.Base.{
  ℕ, zero, suc, ◌+◌, ◌≤◌, ◌<◌, ◌≡◌, ◌↔◌, refl, sym, ◌∙◌, subst, arith, true, List, [], ◌∷◌, some,
  ◌==◌, ==_iff, if◌then◌else◌,
}
use graph_zeppelin.Dsu.{Dsu, at}
use graph_zeppelin.Dsu.FindRoot.{IsValid, find_root_lem}
use graph_zeppelin.Dsu.Forest.{Root, Root_unique, SameTrees}
use graph_zeppelin.Dsu.Merge.{SameSet, root_before}
use graph_zeppelin.Dsu.Reset.{zero_plus}
use graph_zeppelin.ReturnTypes.{
  ConnectedComponents, collect_roots, new_connected_components, is_connected,
}

-- The searches change the parents of a well-formed set, and neither its vertices nor its sets.
pub record KeepsSets (d d' : Dsu) : Type 0 where
  pub n : d'.n ≡ d.n
  pub priority : d'.priority ≡ d.priority
  pub valid : IsValid d'
  pub sets : (a b : ℕ) → a < d.n → b < d.n → SameSet d a b ↔ SameSet d' a b

record IsCollected (i left : ℕ) (d d' : Dsu) (arr : List ℕ) : Type 0 where
  n : d'.n ≡ d.n
  priority : d'.priority ≡ d.priority
  valid : IsValid d'
  trees : SameTrees d.parent d'.parent
  roots : (k : ℕ) → k < left → Root d.parent (i + k) (at arr k)

roots_cons :
    (ps : List ℕ) (i left r : ℕ) (rest : List ℕ)
    → Root ps i r
    → ((k : ℕ) → k < left → Root ps (i + 1 + k) (at rest k))
    → (k : ℕ) → k < suc left
    → Root ps (i + k) (at (r ∷ rest) k)
roots_cons ps i left r rest t more zero lt =
    let e : i ≡ i + 0 = omega arith in subst (λ u. Root ps u r) e t
roots_cons ps i left r rest t more (suc k) lt =
    let e : i + 1 + k ≡ i + suc k = omega arith in
    subst (λ u. Root ps u (at rest k)) e (more k (omega arith))

collect_roots-IsCollected :
    (left i : ℕ) (d : Dsu)
    → IsValid d
    → i + left ≤ d.n
    → (d' : Dsu) × (arr : List ℕ) × (cc : ℕ) × (collect_roots left i d ≡ some (d', arr, cc))
      × IsCollected i left d d' arr
unfolding collect_roots
collect_roots-IsCollected zero i d v h = (
  d,
  [],
  0,
  refl,
  record {
    n = refl;
    priority = refl;
    valid = v;
    trees = λ u r t. t;
    roots = λ k lt. absurd (omega arith);
  },
)
collect_roots-IsCollected (suc left) i d v h =
    let (qs, r, e, s) = find_root_lem d i v (omega arith) in
    let d1 = record d { parent = qs } in
    let v1 : IsValid d1 = record { forest = s.forest; drawn = v.drawn } in
    let (d2, rest, cc, p, c) = collect_roots-IsCollected left (i + 1) d1 v1 (omega arith) in
    (
      d2,
      r ∷ rest,
      (if r == i then cc + 1 else cc),
      rw (e, p),
      record {
        n = c.n;
        priority = c.priority;
        valid = c.valid;
        trees = λ u q t. c.trees u q (s.trees u q t);
        roots = roots_cons d.parent i left r rest s.root (λ k lt.
            root_before d.n d.priority d.parent qs v.forest s.trees (omega arith) (c.roots k lt));
      },
    )

kept_sets :
    (left : ℕ) (d d' : Dsu) (arr : List ℕ)
    → IsValid d
    → IsCollected 0 left d d' arr
    → KeepsSets d d'
kept_sets left d d' arr v c =
    let before : (a r : ℕ) → a < d.n → Root d'.parent a r → Root d.parent a r =
      λ a r la t. root_before d.n d.priority d.parent d'.parent v.forest c.trees la t in
    record {
      n = c.n;
      priority = c.priority;
      valid = c.valid;
      sets = λ a b la lb. (
        λ (r, t, t'). (r, c.trees a r t, c.trees b r t'),
        λ (r, t, t'). (r, before a r la t, before b r lb t'),
      );
    }

-- For a well-formed set of at least `num_vertices` vertices the constructor returns; its answer
-- for two of the vertices is that of the partition. The searches leave a well-formed set of the
-- same vertices with the same priorities, in which two vertices are in one set exactly if they
-- were before.
pub new_connected_components-SameSet :
    (num_vertices : ℕ) (d : Dsu)
    → IsValid d
    → num_vertices ≤ d.n
    → (d' : Dsu) × (c : ConnectedComponents) × (new_connected_components num_vertices d
        ≡ some (d', c))
      × ((a b : ℕ)
          → a < num_vertices
          → b < num_vertices
          → (is_connected c a b ≡ true) ↔ SameSet d a b)
      × KeepsSets d d'
unfolding new_connected_components is_connected
new_connected_components-SameSet num_vertices d v h =
    let (d', arr, cc, p, c) = collect_roots-IsCollected num_vertices 0 d v (omega arith) in
    let root = λ (k : ℕ) (lt : k < num_vertices).
      subst (λ u. Root d.parent u (at arr k)) (zero_plus k) (c.roots k lt) in
    (
      d',
      record { parent_arr = arr; num_vertices = num_vertices; num_cc = cc },
      rw p,
      λ a b la lb. (
        λ e. (
          at arr a,
          root a la,
          subst (Root d.parent b) (sym ((==_iff (at arr a) (at arr b)).0 e)) (root b lb),
        ),
        λ (r, t, t').
            (==_iff (at arr a) (at arr b)).1
              (Root_unique (root a la) t ∙ Root_unique t' (root b lb)),
      ),
      kept_sets num_vertices d d' arr v c,
    )
