-- ===== src/Dsu/Reset.antt =====
-- The constructor and `reset`: every vertex is its own set.
use graph_zeppelin.Base.{
  ℕ, zero, suc, ◌+◌, ◌≤◌, ◌<◌, ◌≡◌, ◌∙◌, refl, ap, arith, List, length, set, length-set,
  get_or-set_self, get_or-set_ne, eq-cases, inl, inr,
}
use graph_zeppelin.Dsu.{Dsu, at, new_dsu, identity_from, draws_from, reset, reset_loop}
use graph_zeppelin.Dsu.FindRoot.{IsValid}
use graph_zeppelin.Dsu.Forest.{IsForest, stop, Root_unique}
use graph_zeppelin.Dsu.Merge.{SameSet}

-- An array in which each vertex is its own parent.
IsForest-of_self :
    (n : ℕ) (prio ps : List ℕ)
    → length ps ≡ n
    → ((u : ℕ) → u < n → at ps u ≡ u)
    → IsForest n prio ps
IsForest-of_self n prio ps e self = record {
  size = e;
  bounded = λ u lt. omega (arith, self u lt);
  above = λ u lt up. absurd (up (self u lt));
}

length-identity_from : (left i : ℕ) → length (identity_from left i) ≡ left
unfolding identity_from
length-identity_from zero i = refl
length-identity_from (suc left) i = ap suc (length-identity_from left (i + 1))

at-identity_from : (left i u : ℕ) → u < left → at (identity_from left i) u ≡ i + u
unfolding identity_from
at-identity_from zero i u lt = absurd (omega arith)
at-identity_from (suc left) i zero lt = omega arith
at-identity_from (suc left) i (suc u) lt = omega (arith, at-identity_from left (i + 1) u)

length-draws_from : (gen : ℕ → ℕ) (left i : ℕ) → length (draws_from gen left i) ≡ left
unfolding draws_from
length-draws_from gen zero i = refl
length-draws_from gen (suc left) i = ap suc (length-draws_from gen left (i + 1))

pub new_dsu-IsValid : (gen : ℕ → ℕ) (n : ℕ) → IsValid (new_dsu gen n)
unfolding new_dsu
new_dsu-IsValid gen n = record {
  forest =
      IsForest-of_self n _ _ (length-identity_from n 0)
        (λ u lt. omega (arith, at-identity_from n 0 u));
  drawn = length-draws_from gen n 0;
}

length-reset_loop : (left i : ℕ) (ps : List ℕ) → length (reset_loop left i ps) ≡ length ps
unfolding reset_loop
length-reset_loop zero i ps = refl
length-reset_loop (suc left) i ps = length-reset_loop left (i + 1) (set ps i i) ∙ length-set ps i i

-- What stands below the rounds to come stays.
at-reset_below : (left i u : ℕ) (ps : List ℕ) → u < i → at (reset_loop left i ps) u ≡ at ps u
unfolding reset_loop
at-reset_below zero i u ps lt = refl
at-reset_below (suc left) i u ps lt =
    at-reset_below left (i + 1) u (set ps i i) (omega arith)
    ∙ get_or-set_ne ps i u i 0 (omega arith)

at-reset_loop :
    (left i u : ℕ) (ps : List ℕ)
    → i ≤ u
    → u < i + left
    → u < length ps
    → at (reset_loop left i ps) u ≡ u
unfolding reset_loop
at-reset_loop zero i u ps p q lt = absurd (omega arith)
at-reset_loop (suc left) i u ps p q lt = elim (eq-cases i u) [
  | inl e ↦
      at-reset_below left (i + 1) u (set ps i i) (omega arith)
      ∙ ap (λ k. at (set ps k k) u) e
      ∙ get_or-set_self ps u u 0 lt
  | inr ne ↦
      at-reset_loop left (i + 1) u (set ps i i) (omega arith) (omega arith)
        (omega (arith, length-set ps i i))
]

at-reset : (d : Dsu) (u : ℕ) → IsValid d → u < d.n → at (reset d).parent u ≡ u
unfolding reset
at-reset d u v lt =
    at-reset_loop d.n 0 u d.parent (omega arith) (omega arith) (omega (arith, v.forest.size))

pub reset-n : (d : Dsu) → (reset d).n ≡ d.n
unfolding reset
reset-n d = refl

pub reset-IsValid : (d : Dsu) → IsValid d → IsValid (reset d)
unfolding reset
reset-IsValid d v = record {
  forest =
      IsForest-of_self d.n d.priority _ (length-reset_loop d.n 0 d.parent ∙ v.forest.size)
        (λ u lt. at-reset d u v lt);
  drawn = v.drawn;
}

-- After a reset no two vertices are in one set.
pub SameSet-reset :
    (d : Dsu) (x y : ℕ) → IsValid d → x < d.n → y < d.n → SameSet (reset d) x y → x ≡ y
SameSet-reset d x y v lx ly (r, t, t') =
    Root_unique (stop (at-reset d x v lx) refl) t ∙ Root_unique t' (stop (at-reset d y v ly) refl)

pub SameSet-reset_refl : (d : Dsu) (x : ℕ) → IsValid d → x < d.n → SameSet (reset d) x x
SameSet-reset_refl d x v lx = (x, stop (at-reset d x v lx) refl, stop (at-reset d x v lx) refl)

pub new_dsu-n : (gen : ℕ → ℕ) (n : ℕ) → (new_dsu gen n).n ≡ n
unfolding new_dsu
new_dsu-n gen n = refl

pub zero_plus : (u : ℕ) → 0 + u ≡ u
zero_plus u = omega arith

-- In a new set no two vertices are together.
pub SameSet-new_dsu :
    (gen : ℕ → ℕ) (n x y : ℕ) → x < n → y < n → SameSet (new_dsu gen n) x y → x ≡ y
unfolding new_dsu
SameSet-new_dsu gen n x y lx ly (r, t, t') =
    let own = λ (u : ℕ) (lt : u < n). at-identity_from n 0 u lt ∙ zero_plus u in
    Root_unique (stop (own x lx) refl) t ∙ Root_unique t' (stop (own y ly) refl)
