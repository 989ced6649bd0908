-- ===== src/Dsu/FindRoot.antt =====
-- `find_root` ends, returns the root, and changes no tree.
use graph_zeppelin.Base.{
  ℕ, zero, suc, ◌<◌, ◌≡◌, ◌≢◌, refl, sym, ap, subst, arith, List, some, ltb, set, eq-cases, inl,
  inr, true, length,
}
use graph_zeppelin.Dsu.{Dsu, at, find_loop, find_root}
use graph_zeppelin.Dsu.Forest.{
  IsForest, Root, stop, climb, SameTrees, SameTrees-halve, IsForest-set, Above-trans, at-set_self,
  climb_to, Above-irrefl, Root_unique,
}
use graph_zeppelin.Dsu.Rank.{count_before, count_before-lt_size, count_before-lt, root_of}

-- What a search for the root of `u` leaves behind.
pub record IsSearch (n : ℕ) (prio ps : List ℕ) (u : ℕ) (qs : List ℕ) (r : ℕ) : Type 0 where
  pub forest : IsForest n prio qs
  pub trees : SameTrees ps qs
  pub root : Root ps u r

Root-parent : (ps : List ℕ) (u : ℕ) → at ps (at ps u) ≡ at ps u → Root ps u (at ps u)
Root-parent ps u e = elim (eq-cases (at ps u) u) [
  | inl top ↦ stop top (sym top)
  | inr up ↦ climb up (stop e refl)
]

module _ (n : ℕ) (prio : List ℕ) where
  -- One round of halving, before the search goes on from the grandparent.
  record IsHalved (ps : List ℕ) (u : ℕ) (qs : List ℕ) : Type 0 where
    forest : IsForest n prio qs
    trees : SameTrees ps qs
    inside : at qs u < n
    falls : count_before prio n (at qs u) < count_before prio n u
    same_root : (r : ℕ) → Root qs (at qs u) r → Root ps u r

  halve-IsHalved :
      (ps : List ℕ) (u : ℕ)
      → IsForest n prio ps
      → u < n
      → at ps (at ps u) ≢ at ps u
      → IsHalved ps u (set ps u (at ps (at ps u)))
  halve-IsHalved ps u f lt ne =
      let p = at ps u in
      let g = at ps p in
      let qs = set ps u g in
      let up : p ≢ u = λ e. ne (ap (at ps) e) in
      let ltp = f.bounded u lt in
      let ab = Above-trans prio g p u (f.above p ltp ne) (f.above u lt up) in
      let ltg = f.bounded p ltp in
      let trees = SameTrees-halve n prio ps f u lt ne in
      let written : at qs u ≡ g = at-set_self ps u g (omega (arith, f.size)) in
      let (r, t, _) = root_of n prio ps f u lt in
      record {
        forest = IsForest-set n prio ps f u g lt ltg ab;
        trees = trees;
        inside = rw written ltg;
        falls = rw written (count_before-lt prio n g u ab ltg);
        same_root = λ r' t'.
            let there : Root qs u r' = climb_to refl (rw written (Above-irrefl prio g u ab)) t' in
            subst (Root ps u) (Root_unique (trees u r t) there) t;
      }

  pub find_loop_lem :
      (fuel : ℕ) (ps : List ℕ) (u : ℕ)
      → IsForest n prio ps
      → u < n
      → count_before prio n u < fuel
      → (qs : List ℕ) × (r : ℕ) × (find_loop fuel ps u ≡ some (qs, r)) × IsSearch n prio ps u qs r
  unfolding find_loop
  find_loop_lem zero ps u f lt h = absurd (omega arith)
  find_loop_lem (suc fuel) ps u f lt h = elim (eq-cases (at ps (at ps u)) (at ps u)) [
    | inl e ↦ (
      ps,
      at ps u,
      ground arith,
      record { forest = f; trees = λ w r t. t; root = Root-parent ps u e },
    )
    | inr ne ↦
        let halved = set ps u (at ps (at ps u)) in
        let step = halve-IsHalved ps u f lt ne in
        let (qs, r, e, s) =
          find_loop_lem fuel halved (at halved u) step.forest step.inside
            (omega (arith, step.falls)) in
        (
          qs,
          r,
          ground arith,
          record {
            forest = s.forest;
            trees = λ w x t. s.trees w x (step.trees w x t);
            root = step.same_root r s.root;
          },
        )
  ]

pub record IsValid (d : Dsu) : Type 0 where
  pub forest : IsForest d.n d.priority d.parent
  pub drawn : length d.priority ≡ d.n

-- On a well-formed set and a vertex of it, `find_root` ends within its `n` rounds: it returns
-- the root of the vertex, and the parents that it leaves form a forest with the same trees.
pub find_root_lem :
    (d : Dsu) (u : ℕ)
    → IsValid d
    → u < d.n
    → (qs : List ℕ) × (r : ℕ) × (find_root d u ≡ some (record d { parent = qs }, r))
      × IsSearch d.n d.priority d.parent u qs r
unfolding find_root
find_root_lem d u v lt =
    let (qs, r, e, s) =
      find_loop_lem d.n d.priority d.n d.parent u v.forest lt
        (count_before-lt_size d.priority d.n u lt) in
    let inside : ltb u d.n ≡ true = ground arith in (qs, r, rw (inside, e), s)
