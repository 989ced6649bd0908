-- ===== src/Dsu/Forest.antt =====
-- The forest that the parent array describes, and the root of each of its vertices.
use graph_zeppelin.Base.{
  ℕ, ◌<◌, ◌≡◌, ◌≢◌, ◌⊎◌, inl, inr, refl, sym, ◌∙◌, ap, subst, arith, List, length, ◌==◌,
  if◌then◌else◌, set, eq-cases, length-set, get_or-set_self, get_or-set_ne, true, false,
}
use graph_zeppelin.Dsu.{at}

-- Vertex `p` comes before `u`: by priority, and by the smaller id among equals.
abbrev pub Above : List ℕ → ℕ → ℕ → Type 0
Above prio p u = (at prio u < at prio p) ⊎ ((at prio u ≡ at prio p) × (p < u))

pub Above-trans : (prio : List ℕ) (a b c : ℕ) → Above prio a b → Above prio b c → Above prio a c
Above-trans prio a b c p q = ground arith

pub Above-irrefl : (prio : List ℕ) (a b : ℕ) → Above prio a b → a ≢ b
Above-irrefl prio a b p e = ground arith

-- Each parent is a vertex, and comes before its child: so no cycle can be formed.
pub record IsForest (n : ℕ) (prio ps : List ℕ) : Type 0 where
  pub size : length ps ≡ n
  pub bounded : (u : ℕ) → u < n → at ps u < n
  pub above : (u : ℕ) → u < n → at ps u ≢ u → Above prio (at ps u) u

-- `r` is the root of the tree of `u`.
pub data Root (ps : List ℕ) : ℕ → ℕ → Type 0 where
  stop : {u r : ℕ} → at ps u ≡ u → u ≡ r → Root ps u r
  climb : {u r : ℕ} → at ps u ≢ u → Root ps (at ps u) r → Root ps u r

pub Root-step : {ps : List ℕ} {u r : ℕ} → at ps u ≢ u → Root ps u r → Root ps (at ps u) r
Root-step ne (stop e q) = absurd (ne e)
Root-step ne (climb _ t) = t

pub Root-is_root : {ps : List ℕ} {u r : ℕ} → Root ps u r → at ps r ≡ r
Root-is_root {ps} (stop e q) = subst (λ x. at ps x ≡ x) q e
Root-is_root (climb ne t) = Root-is_root t

pub Root_unique : {ps : List ℕ} {u r s : ℕ} → Root ps u r → Root ps u s → r ≡ s
Root_unique (stop e q) (stop e' q') = sym q ∙ q'
Root_unique (stop e q) (climb ne t) = absurd (ne e)
Root_unique (climb ne t) t' = Root_unique t (Root-step ne t')

pub climb_to : {ps : List ℕ} {u p r : ℕ} → at ps u ≡ p → p ≢ u → Root ps p r → Root ps u r
climb_to {ps} {u} {p} {r} e ne t =
    climb (subst (λ x. x ≢ u) (sym e) ne) (subst (λ x. Root ps x r) (sym e) t)

-- Two parent arrays with the same trees.
abbrev pub SameTrees : List ℕ → List ℕ → Type 0
SameTrees ps qs = (u r : ℕ) → Root ps u r → Root qs u r

-- One write to the parent array.
pub at-set_cases :
    (ps : List ℕ) (u w v : ℕ)
    → u < length ps
    → ((w ≡ u) × (at (set ps u v) w ≡ v)) ⊎ ((w ≢ u) × (at (set ps u v) w ≡ at ps w))
at-set_cases ps u w v lt = elim (eq-cases w u) [
  | inl e ↦ inl (e, ap (at (set ps u v)) e ∙ get_or-set_self ps u v 0 lt)
  | inr ne ↦ inr (ne, get_or-set_ne ps u w v 0 (λ e. ne (sym e)))
]

pub at-set_self : (ps : List ℕ) (u v : ℕ) → u < length ps → at (set ps u v) u ≡ v
at-set_self ps u v lt = get_or-set_self ps u v 0 lt

module _ (n : ℕ) (prio ps : List ℕ) (f : IsForest n prio ps) where
  -- Pointing a vertex at one that comes before it keeps the forest.
  pub IsForest-set : (u g : ℕ) → u < n → g < n → Above prio g u → IsForest n prio (set ps u g)
  IsForest-set u g lt ltg ab = record {
    size = length-set ps u g ∙ f.size;
    bounded = λ w lw. elim (at-set_cases ps u w g (omega (arith, f.size))) [
      | inl (e, written) ↦ rw written ltg
      | inr (ne, kept) ↦ rw kept (f.bounded w lw)
    ];
    above = λ w lw. elim (at-set_cases ps u w g (omega (arith, f.size))) [
      | inl (e, written) ↦ rw written (λ _. subst (Above prio g) (sym e) ab)
      | inr (ne, kept) ↦ rw kept (f.above w lw)
    ];
  }

  grandparent-ne : (u : ℕ) → u < n → at ps u ≢ u → at ps (at ps u) ≢ at ps u → at ps (at ps u) ≢ u
  grandparent-ne u lt up ne = Above-irrefl prio (at ps (at ps u)) u (
      Above-trans prio (at ps (at ps u)) (at ps u) u (f.above (at ps u) (f.bounded u lt) ne)
        (f.above u lt up))

  -- In the halved array the old parent still points at the grandparent.
  skip_one :
      (u : ℕ)
      → u < n
      → at ps u ≢ u
      → at ps (at ps u) ≢ at ps u
      → (r : ℕ) → Root (set ps u (at ps (at ps u))) (at ps u) r
      → Root (set ps u (at ps (at ps u))) (at ps (at ps u)) r
  skip_one u lt up ne r t =
      elim (at-set_cases ps u (at ps u) (at ps (at ps u)) (omega (arith, f.size))) [
        | inl (e, _) ↦ absurd (up e)
        | inr (_, kept) ↦
            subst (λ x. Root (set ps u (at ps (at ps u))) x r) kept
              (Root-step (subst (λ x. x ≢ at ps u) (sym kept) ne) t)
      ]

  -- Path halving keeps every tree.
  pub SameTrees-halve :
      (u : ℕ) → u < n → at ps (at ps u) ≢ at ps u → SameTrees ps (set ps u (at ps (at ps u)))
  SameTrees-halve u lt ne w r (stop e q) =
      elim (at-set_cases ps u w (at ps (at ps u)) (omega (arith, f.size))) [
        | inl (ew, _) ↦ absurd (ne (ap (at ps) (subst (λ x. at ps x ≡ x) ew e)))
        | inr (_, kept) ↦ stop (kept ∙ e) q
      ]
  SameTrees-halve u lt ne w r (climb up t) =
      let rest = SameTrees-halve u lt ne (at ps w) r t in
      elim (at-set_cases ps u w (at ps (at ps u)) (omega (arith, f.size))) [
        | inl (ew, written) ↦
            climb_to written (λ e. grandparent-ne u lt (subst (λ x. at ps x ≢ x) ew up) ne (e ∙ ew))
              (skip_one u lt (subst (λ x. at ps x ≢ x) ew up) ne r
                (subst (λ x. Root (set ps u (at ps (at ps u))) (at ps x) r) ew rest))
        | inr (_, kept) ↦ climb_to kept up rest
      ]

  new_root : (a b : ℕ) → b < n → at ps a ≡ a → a ≢ b → Root (set ps b a) a a
  new_root a b lt ra ne = elim (at-set_cases ps b a a (omega (arith, f.size))) [
    | inl (e, _) ↦ absurd (ne e)
    | inr (_, kept) ↦ stop (kept ∙ ra) refl
  ]

  -- Linking the root `b` below the root `a` moves the tree of `b` alone.
  pub Root-link :
      (a b : ℕ)
      → b < n
      → at ps a ≡ a
      → at ps b ≡ b
      → a ≢ b
      → {w r : ℕ} → Root ps w r
      → Root (set ps b a) w (if r == b then a else r)
  Root-link a b lt ra rb ne {w} {r} (stop e q) =
      elim (at-set_cases ps b w a (omega (arith, f.size))) [
        | inl (ew, written) ↦
            let own : (r == b) ≡ true = ground arith in
            rw own (climb_to written (λ e'. ne (e' ∙ ew)) (new_root a b lt ra ne))
        | inr (nw, kept) ↦
            let other : (r == b) ≡ false = ground arith in rw other (stop (kept ∙ e) q)
      ]
  Root-link a b lt ra rb ne {w} {r} (climb up t) =
      let rest = Root-link a b lt ra rb ne t in
      elim (at-set_cases ps b w a (omega (arith, f.size))) [
        | inl (ew, _) ↦ absurd (up (subst (λ x. at ps x ≡ x) (sym ew) rb))
        | inr (_, kept) ↦ climb_to kept up rest
      ]
