-- ===== src/Dsu/Rank.antt =====
-- The number of vertices that come before a vertex: it falls from each vertex to its parent, so
-- that every climb ends.
use graph_zeppelin.Base.{
  ℕ, zero, suc, ◌+◌, ◌≤◌, ◌<◌, ◌≢◌, arith, List, Bool, ltb, ◌==◌, ◌&&◌, ◌||◌, if◌then◌else◌,
  eq-cases, inl, inr, refl,
}
use graph_zeppelin.Dsu.{at}
use graph_zeppelin.Dsu.Forest.{Above, IsForest, Root, stop, climb}

abbrev comes_before : List ℕ → ℕ → ℕ → Bool
comes_before prio p u = ltb (at prio u) (at prio p) || (at prio u == at prio p && ltb p u)

-- How many vertices below `k` come before `u`.
pub count_before : List ℕ → ℕ → ℕ → ℕ
count_before prio zero u = 0
count_before prio (suc k) u = (if comes_before prio k u then 1 else 0) + count_before prio k u

count_before_mono :
    (prio : List ℕ) (k p u : ℕ) → Above prio p u → count_before prio k p ≤ count_before prio k u
unfolding count_before
count_before_mono prio zero p u h = omega arith
count_before_mono prio (suc k) p u h = ground (arith, count_before_mono prio k p u)

pub count_before-lt :
    (prio : List ℕ) (k p u : ℕ)
    → Above prio p u
    → p < k
    → count_before prio k p < count_before prio k u
unfolding count_before
count_before-lt prio zero p u h lt = absurd (omega arith)
count_before-lt prio (suc k) p u h lt = elim (eq-cases p k) [
  | inl e ↦ ground (arith, count_before_mono prio k p u)
  | inr ne ↦ ground (arith, count_before-lt prio k p u)
]

count_before-le : (prio : List ℕ) (k u : ℕ) → count_before prio k u ≤ k
unfolding count_before
count_before-le prio zero u = omega arith
count_before-le prio (suc k) u = ground (arith, count_before-le prio k u)

-- A vertex does not come before itself.
pub count_before-lt_size : (prio : List ℕ) (k u : ℕ) → u < k → count_before prio k u < k
unfolding count_before
count_before-lt_size prio zero u h = absurd (omega arith)
count_before-lt_size prio (suc k) u h = elim (eq-cases u k) [
  | inl e ↦ ground (arith, count_before-le prio k u)
  | inr ne ↦ ground (arith, count_before-lt_size prio k u)
]

module _ (n : ℕ) (prio ps : List ℕ) (f : IsForest n prio ps) where
  -- One step up the forest.
  pub parent_falls :
      (u : ℕ) → u < n → at ps u ≢ u → count_before prio n (at ps u) < count_before prio n u
  parent_falls u lt up = count_before-lt prio n (at ps u) u (f.above u lt up) (f.bounded u lt)

  root_within :
      (fuel u : ℕ) → u < n → count_before prio n u < fuel → (r : ℕ) × Root ps u r × (r < n)
  root_within zero u lt h = absurd (omega arith)
  root_within (suc fuel) u lt h = elim (eq-cases (at ps u) u) [
    | inl e ↦ (u, stop e refl, lt)
    | inr up ↦
        let (r, t, lr) =
          root_within fuel (at ps u) (f.bounded u lt) (omega (arith, parent_falls u lt up)) in
        (r, climb up t, lr)
  ]

  -- Every vertex has a root.
  pub root_of : (u : ℕ) → u < n → (r : ℕ) × Root ps u r × (r < n)
  root_of u lt = root_within n u lt (count_before-lt_size prio n u lt)
