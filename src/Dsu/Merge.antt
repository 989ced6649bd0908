-- ===== src/Dsu/Merge.antt =====
-- `merge` joins two sets and no others.
use graph_zeppelin.Base.{
  ℕ, ◌<◌, ◌≡◌, ◌≢◌, ◌⊎◌, inl, inr, refl, sym, subst, arith, true, false, List, some, length, ◌==◌,
  if◌then◌else◌, eq-cases, set,
}
use graph_zeppelin.Dsu.{Dsu, DsuMergeRet, at, order_edge, link, merge}
use graph_zeppelin.Dsu.FindRoot.{IsValid, find_root_lem}
use graph_zeppelin.Dsu.Forest.{
  IsForest, Root, SameTrees, IsForest-set, Above, Above-irrefl, Root_unique, Root-is_root,
  Root-link,
}
use graph_zeppelin.Dsu.Rank.{root_of}

-- Two vertices of one tree.
abbrev pub SameSet : Dsu → ℕ → ℕ → Type 0
SameSet d x y = (r : ℕ) × Root d.parent x r × Root d.parent y r

-- Of two vertices `order_edge` puts the one that comes before the other first.
pub order_edge_cases :
    (prio : List ℕ) (a b : ℕ)
    → a ≢ b
    → ((order_edge prio a b ≡ (a, b)) × Above prio a b)
      ⊎ ((order_edge prio a b ≡ (b, a)) × Above prio b a)
unfolding order_edge
order_edge_cases prio a b ne = ground arith

-- A root found after a search is the root before it.
pub root_before :
    (n : ℕ) (prio ps qs : List ℕ)
    → IsForest n prio ps
    → SameTrees ps qs
    → {w r : ℕ} → w < n
    → Root qs w r
    → Root ps w r
root_before n prio ps qs f trees {w} {r} lt t =
    let (r', t', _) = root_of n prio ps f w lt in
    subst (Root ps w) (Root_unique (trees w r' t') t) t'

pub root-lt : (d : Dsu) → IsValid d → (u r : ℕ) → u < d.n → Root d.parent u r → r < d.n
root-lt d w u r lt t =
    let (r', t', lr) = root_of d.n d.priority d.parent w.forest u lt in
    subst (λ x. x < d.n) (Root_unique t' t) lr

-- Where a root goes when `child` is linked below `root`.
abbrev pub moved : ℕ → ℕ → ℕ → ℕ
moved root child r = if r == child then root else r

-- The two outcomes of `merge d u v`, with the set and the report that it returns.
pub data IsMerge (d : Dsu) (u v : ℕ) : Dsu × DsuMergeRet → Type 0 where
  is_same :
      (qs : List ℕ) (r : ℕ)
      → IsValid (record d { parent = qs })
      → SameTrees d.parent qs
      → Root d.parent u r
      → Root d.parent v r
      → IsMerge d u v (record d { parent = qs }, record { merged = false; root = 0; child = 0 })
  is_joined :
      (qs : List ℕ) (a b root child : ℕ)
      → IsValid (record d { parent = qs })
      → Root d.parent u a
      → Root d.parent v b
      → a ≢ b
      → ((root ≡ a) × (child ≡ b)) ⊎ ((root ≡ b) × (child ≡ a))
      → ((w r : ℕ) → Root d.parent w r → Root qs w (moved root child r))
      → IsMerge d u v
          (record d { parent = qs }, record { merged = true; root = root; child = child })

-- Linking two roots of a forest.
link_under :
    (d : Dsu) (ps : List ℕ) (root child : ℕ)
    → IsForest d.n d.priority ps
    → length d.priority ≡ d.n
    → root < d.n
    → child < d.n
    → at ps root ≡ root
    → at ps child ≡ child
    → Above d.priority root child
    → IsValid (record d { parent = set ps child root })
      × ((w r : ℕ) → Root ps w r → Root (set ps child root) w (moved root child r))
link_under d ps root child f drawn lr lc rr rc ab = (
  record { forest = IsForest-set d.n d.priority ps f child root lc lr ab; drawn = drawn },
  λ w r t.
      Root-link d.n d.priority ps f root child lc rr rc (Above-irrefl d.priority root child ab) t,
)

pub link_same :
    (d : Dsu) (a b : ℕ) → a ≡ b → link d a b ≡ (d, record { merged = false; root = 0; child = 0 })
unfolding link
link_same d a b e = let test : (a == b) ≡ true = ground arith in rw test

pub link_joined :
    (d : Dsu) (a b x y : ℕ)
    → a ≢ b
    → order_edge d.priority a b ≡ (x, y)
    → link d a b
      ≡ (record d { parent = set d.parent y x }, record { merged = true; root = x; child = y })
unfolding link
link_joined d a b x y ne e = let test : (a == b) ≡ false = ground arith in rw (test, e)

module _ (d : Dsu) (u v : ℕ) (ps : List ℕ) (f : IsForest d.n d.priority ps)
    (drawn : length d.priority ≡ d.n) (trees : SameTrees d.parent ps) where
  -- The end of `merge`, once both roots are known.
  pub link-IsMerge :
      (a b : ℕ)
      → a < d.n
      → b < d.n
      → Root d.parent u a
      → Root d.parent v b
      → IsMerge d u v (link (record d { parent = ps }) a b)
  link-IsMerge a b la lb ta tb =
      let ra = Root-is_root (trees u a ta) in
      let rb = Root-is_root (trees v b tb) in
      let d2 = record d { parent = ps } in
      elim (eq-cases a b) [
        | inl e ↦ subst (IsMerge d u v) (sym (link_same d2 a b e)) (
            is_same ps a (record { forest = f; drawn = drawn }) trees ta
              (subst (Root d.parent v) (sym e) tb))
        | inr ne ↦ elim (order_edge_cases d.priority a b ne) [
          | inl (e, ab) ↦
              let (valid, moves) = link_under d ps a b f drawn la lb ra rb ab in
              subst (IsMerge d u v) (sym (link_joined d2 a b a b ne e)) (
                is_joined (set ps b a) a b a b valid ta tb ne (inl (refl, refl))
                  (λ w r t. moves w r (trees w r t)))
          | inr (e, ab) ↦
              let (valid, moves) = link_under d ps b a f drawn lb la rb ra ab in
              subst (IsMerge d u v) (sym (link_joined d2 a b b a ne e)) (
                is_joined (set ps a b) a b b a valid ta tb ne (inr (refl, refl))
                  (λ w r t. moves w r (trees w r t)))
        ]
      ]

-- For two vertices of a well-formed set `merge` returns, with one of the two outcomes.
pub merge-IsMerge :
    (d : Dsu) (u v : ℕ)
    → IsValid d
    → u < d.n
    → v < d.n
    → (out : Dsu × DsuMergeRet) × (merge d u v ≡ some out) × IsMerge d u v out
unfolding merge
merge-IsMerge d u v w lu lv =
    let (qs, a, e1, s1) = find_root_lem d u w lu in
    let d1 = record d { parent = qs } in
    let w1 : IsValid d1 = record { forest = s1.forest; drawn = w.drawn } in
    let (ps, b, e2, s2) = find_root_lem d1 v w1 lv in
    let tb = root_before d.n d.priority d.parent qs w.forest s1.trees lv s2.root in
    (
      link (record d { parent = ps }) a b,
      rw (e1, e2),
      link-IsMerge d u v ps s2.forest w.drawn (λ x r t. s2.trees x r (s1.trees x r t)) a b
          (root-lt d w u a lu s1.root) (root-lt d w v b lv tb) s1.root tb,
    )
