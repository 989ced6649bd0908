-- ===== src/Dsu/Components.antt =====
-- A run of merges computes the connected components of the graph of its edges.
use graph_zeppelin.Base.{
  ℕ, ◌<◌, ◌≡◌, ◌∙◌, refl, sym, subst, List, [], ◌∷◌, Option, some, inl, inr, ◌↔◌,
}
use mathlib.Core.List.{Memᴰ}
use mathlib.Core.List.Memᴰ
use graph_zeppelin.Pairing.{Edge}
use mathlib.Core.Path.{subst₂}
use graph_zeppelin.Dsu.Forest.{Root}
use graph_zeppelin.Dsu.Rank.{root_of}
use graph_zeppelin.Dsu.{Dsu, merge, reset, ◌>>=◌}
use graph_zeppelin.Dsu.FindRoot.{IsValid}
use graph_zeppelin.Dsu.Merge.{SameSet}
use graph_zeppelin.Dsu.Joined.{Joined, merge-IsJoin, SameSet-sym, SameSet-trans}
use graph_zeppelin.Dsu.Reset.{reset-n, SameSet-reset, reset-IsValid}

-- The merges of a list of edges, one after the other.
abbrev pub merge_all : Dsu → List Edge → Option Dsu
merge_all d [] = some d
merge_all d (e ∷ es) = merge d e.src e.dst >>= λ out. merge_all out.0 es

abbrev pub InRange : ℕ → List Edge → Type 0
InRange n [] = Unit {0}
InRange n (e ∷ es) = ((e.src < n) × (e.dst < n)) × InRange n es

-- The least equivalence on the vertices of `d` that holds its sets and the edges.
data Closure (d : Dsu) (es : List Edge) : ℕ → ℕ → Type 0 where
  base : {x y : ℕ} → x < d.n → y < d.n → SameSet d x y → Closure d es x y
  edge : (e : Edge) {x y : ℕ} → Memᴰ e es → x ≡ e.src → y ≡ e.dst → Closure d es x y
  flip : {x y : ℕ} → Closure d es x y → Closure d es y x
  join : {x y z : ℕ} → Closure d es x y → Closure d es y z → Closure d es x z

-- The walks of the graph with the edges `es`.
pub data Connected (es : List Edge) : ℕ → ℕ → Type 0 where
  here : {x y : ℕ} → x ≡ y → Connected es x y
  along : (e : Edge) {x y : ℕ} → Memᴰ e es → x ≡ e.src → y ≡ e.dst → Connected es x y
  back : {x y : ℕ} → Connected es x y → Connected es y x
  walk : {x y z : ℕ} → Connected es x y → Connected es y z → Connected es x z

-- What holds of the sets after one more merge holds of the closure with one edge more.
Closure-cons :
    (d d' : Dsu) (e : Edge) (es : List Edge)
    → d'.n ≡ d.n
    → e.src < d.n
    → e.dst < d.n
    → IsValid d
    → ((x y : ℕ) → x < d.n → y < d.n → SameSet d' x y → Joined d e.src e.dst x y)
    → {x y : ℕ} → Closure d' es x y
    → Closure d (e ∷ es) x y
Closure-cons d d' e es size ls ld v sound (base {x} {y} lx ly s) =
    let lx' = subst (λ n. x < n) size lx in
    let ly' = subst (λ n. y < n) size ly in
    let this : Closure d (e ∷ es) e.src e.dst = edge e (Memᴰ.head refl) refl refl in
    elim (sound x y lx' ly' s) [
      | inl same ↦ base lx' ly' same
      | inr (inl (p, q)) ↦ join (base lx' ls p) (join this (base ld ly' q))
      | inr (inr (p, q)) ↦ join (base lx' ld p) (join (flip this) (base ls ly' q))
    ]
Closure-cons d d' e es size ls ld v sound (edge f m p q) = edge f (Memᴰ.tail m) p q
Closure-cons d d' e es size ls ld v sound (flip c) =
    flip (Closure-cons d d' e es size ls ld v sound c)
Closure-cons d d' e es size ls ld v sound (join c c') =
    join (Closure-cons d d' e es size ls ld v sound c)
      (Closure-cons d d' e es size ls ld v sound c')

record IsClosure (d : Dsu) (es : List Edge) (d' : Dsu) : Type 0 where
  valid : IsValid d'
  size : d'.n ≡ d.n
  keeps : (x y : ℕ) → SameSet d x y → SameSet d' x y
  joins : (e : Edge) → Memᴰ e es → SameSet d' e.src e.dst
  sound : (x y : ℕ) → x < d.n → y < d.n → SameSet d' x y → Closure d es x y

merge_all-IsClosure :
    (d : Dsu) (es : List Edge)
    → IsValid d
    → InRange d.n es
    → (d' : Dsu) × (merge_all d es ≡ some d') × IsClosure d es d'
merge_all-IsClosure d [] v h = (
  d,
  refl,
  record {
    valid = v;
    size = refl;
    keeps = λ x y s. s;
    joins = λ e m. absurd (Memᴰ.not-nil m);
    sound = λ x y lx ly s. base lx ly s;
  },
)
merge_all-IsClosure d (e ∷ es) v ((ls, ld), h) =
    let (out, p, j) = merge-IsJoin d e.src e.dst v ls ld in
    let (d', q, c) =
      merge_all-IsClosure out.0 es j.valid (subst (λ n. InRange n es) (sym j.size) h) in
    let (r, t, lr) = root_of d.n d.priority d.parent v.forest e.src ls in
    let (r', t', lr') = root_of d.n d.priority d.parent v.forest e.dst ld in
    (
      d',
      rw p q,
      record {
        valid = c.valid;
        size = c.size ∙ j.size;
        keeps = λ x y s. c.keeps x y (j.complete x y (inl s));
        joins = λ f m. elim (Memᴰ.cases_cons m) [
          | inl here_now ↦
              subst (λ g. SameSet d' g.src g.dst) (sym here_now)
                (c.keeps e.src e.dst (j.complete e.src e.dst (inr (inl ((r, t, t), (r', t', t'))))))
          | inr later ↦ c.joins f later
        ];
        sound = λ x y lx ly s. Closure-cons d out.0 e es j.size ls ld v j.sound (
            c.sound x y (subst (λ n. x < n) (sym j.size) lx) (subst (λ n. y < n) (sym j.size) ly)
              s);
      },
    )

-- After a reset the closure is the connectivity of the edges.
Closure-Connected :
    (d : Dsu) (es : List Edge) → IsValid d → {x y : ℕ} → Closure (reset d) es x y → Connected es x y
Closure-Connected d es v (base {x} {y} lx ly s) = here (
    SameSet-reset d x y v (subst (λ n. x < n) (reset-n d) lx) (subst (λ n. y < n) (reset-n d) ly) s)
Closure-Connected d es v (edge e m p q) = along e m p q
Closure-Connected d es v (flip c) = back (Closure-Connected d es v c)
Closure-Connected d es v (join c c') =
    walk (Closure-Connected d es v c) (Closure-Connected d es v c')

in_range :
    (n : ℕ) (es : List Edge) (e : Edge) → InRange n es → Memᴰ e es → (e.src < n) × (e.dst < n)
in_range n [] e h m = absurd (Memᴰ.not-nil m)
in_range n (f ∷ es) e (h, hs) m = elim (Memᴰ.cases_cons m) [
  | inl same ↦ subst (λ (g : Edge). (g.src < n) × (g.dst < n)) (sym same) h
  | inr later ↦ in_range n es e hs later
]

-- A walk from a vertex stays among the vertices, and within one set.
abbrev Leads : Dsu → ℕ → ℕ → Type 0
Leads d x y = x < d.n → (y < d.n) × SameSet d x y

Connected-Leads :
    (d : Dsu) (es : List Edge)
    → IsValid d
    → ((e : Edge) → Memᴰ e es → (e.src < d.n) × (e.dst < d.n) × SameSet d e.src e.dst)
    → {x y : ℕ} → Connected es x y
    → Leads d x y × Leads d y x
Connected-Leads d es v h (here {x} {y} e) = (own x y e, own y x (sym e))
  where
    own : (x y : ℕ) → x ≡ y → Leads d x y
    own x y e lx =
        let (r, t, _) = root_of d.n d.priority d.parent v.forest x lx in
        (subst (λ z. z < d.n) e lx, (r, t, subst (λ z. Root d.parent z r) e t))
Connected-Leads d es v h (along e {x} {y} m p q) =
    let (ls, ld, s) = h e m in
    (
      λ _. (subst (λ z. z < d.n) (sym q) ld, subst₂ (SameSet d) (sym p) (sym q) s),
      λ _. (
        subst (λ z. z < d.n) (sym p) ls,
        subst₂ (SameSet d) (sym q) (sym p) (SameSet-sym d e.src e.dst s),
      ),
    )
Connected-Leads d es v h (back c) = let both = Connected-Leads d es v h c in (both.1, both.0)
Connected-Leads d es v h (walk {x} {y} {z} c c') =
    let first = Connected-Leads d es v h c in
    let second = Connected-Leads d es v h c' in
    (compose x y z first.0 second.0, compose z y x second.1 first.1)
  where
    compose : (x y z : ℕ) → Leads d x y → Leads d y z → Leads d x z
    compose x y z f g lx =
        let (ly, s) = f lx in let (lz, t) = g ly in (lz, SameSet-trans d x y z s t)

-- After a reset, merging the edges of a graph over the vertices of a well-formed set returns a
-- well-formed set in which two vertices are together exactly if a walk along the edges joins
-- them.
pub merge_all-Connected :
    (d : Dsu) (es : List Edge)
    → IsValid d
    → InRange d.n es
    → (d' : Dsu) × (merge_all (reset d) es ≡ some d')
      × IsValid d'
      × ((x y : ℕ) → x < d.n → y < d.n → SameSet d' x y ↔ Connected es x y)
merge_all-Connected d es v h =
    let n_eq = reset-n d in
    let h' = subst (λ n. InRange n es) (sym n_eq) h in
    let (d', p, c) = merge_all-IsClosure (reset d) es (reset-IsValid d v) h' in
    let size = c.size ∙ n_eq in
    (
      d',
      p,
      c.valid,
      λ x y lx ly. (
        λ s.
            Closure-Connected d es v
              (c.sound x y (subst (λ n. x < n) (sym n_eq) lx) (subst (λ n. y < n) (sym n_eq) ly) s),
        λ w.
            ((Connected-Leads d' es c.valid
                (λ e m.
                  let (ls, ld) = in_range d.n es e h m in
                  (
                    subst (λ n. e.src < n) (sym size) ls,
                    subst (λ n. e.dst < n) (sym size) ld,
                    c.joins e m,
                  ))
                w).0
              (subst (λ n. x < n) (sym size) lx)).1,
      ),
    )
