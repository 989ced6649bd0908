-- ===== src/CcAlg/Stream.antt =====
-- The eager set over a stream of updates.
use graph_zeppelin.Base.{
  ℕ, ◌<◌, ◌≡◌, ◌≢◌, ◌⊎◌, ◌↔◌, inl, inr, refl, sym, ◌∙◌, ap, subst, arith, Bool, true, false, List,
  [], ◌∷◌, Option, none, some, length, Option-cases, Bool-cases, some_eq, contains, if_elim,
  length-replicate, get_or-replicate,
}
use graph_zeppelin.Pairing.{Edge, lower, upper}
use graph_zeppelin.Dsu.{Dsu, DsuMergeRet, ◌>>=◌}
use graph_zeppelin.Dsu.Atomic.{merge_mt-IsJoin}
use graph_zeppelin.Dsu.Components.{InRange}
use graph_zeppelin.Dsu.Joined.{IsJoin}
use graph_zeppelin.Dsu.Merge.{SameSet}
use graph_zeppelin.Dsu.Reset.{new_dsu-IsValid, new_dsu-n, SameSet-new_dsu}
use graph_zeppelin.CcAlg.{
  CcSketchAlg, connectivity, new_cc_sketch_alg, pre_insert, eager, in_forest, has_cached_query,
  merge_mt,
}
use graph_zeppelin.CcAlg.Eager.{eager_joins, eager_keeps, SameSet-refl}
use graph_zeppelin.CcAlg.Forest.{
  IsEager, Linked, here, flipped, graph_after, no_edges, SameSet-Linked,
}
use graph_zeppelin.Sketch.{Sketch}

-- The calls of `pre_insert` for a stream. `failures k` is the number of failures of the exchange
-- in the call that has `k` updates after it.
abbrev pub pre_insert_all : (ℕ → ℕ) → CcSketchAlg → List Edge → Option CcSketchAlg
pre_insert_all failures a [] = some a
pre_insert_all failures a (e ∷ es) =
    pre_insert (failures (length es)) a e >>= λ a'. pre_insert_all failures a' es

-- The shared flag agrees with the flag, and while they are set the invariant holds.
pub record IsEagerAlg (n : ℕ) (graph : ℕ → ℕ → Bool) (a : CcSketchAlg) : Type 0 where
  pub agrees : a.shared_dsu_valid ≡ a.dsu_valid
  pub eager : a.dsu_valid ≡ true → IsEager n a.dsu a.spanning_forest graph

eager-IsEagerAlg :
    (n : ℕ) (graph : ℕ → ℕ → Bool) (a : CcSketchAlg) (s t : ℕ) (out : Dsu × DsuMergeRet)
    → IsEagerAlg n graph a
    → IsEager n a.dsu a.spanning_forest graph
    → s < n
    → t < n
    → IsJoin a.dsu s t out
    → IsEagerAlg n (flipped graph s t) (eager a s t out)
unfolding eager
eager-IsEagerAlg n graph a s t out k i ls lt j = elim (Bool-cases out.1.merged) [
  | inl m ↦ rw m (record {
    agrees = k.agrees;
    eager = λ _. eager_joins n a.dsu a.spanning_forest graph s t out i ls lt j m;
  })
  | inr m ↦ elim (Bool-cases (in_forest a.spanning_forest s t)) [
    | inl f ↦ rw (m, f) (record { agrees = refl; eager = λ v. (let clash = v in ground arith) })
    | inr f ↦
        rw (m, f)
          (record {
            agrees = k.agrees;
            eager = λ _. eager_keeps n a.dsu a.spanning_forest graph s t out i ls lt j m f;
          })
  ]
]

ends-lt : (n s t : ℕ) → s < n → t < n → (lower s t < n) × (upper s t < n)
ends-lt n s t ls lt = ground arith

pre_insert-IsEagerAlg :
    (failures n : ℕ) (graph : ℕ → ℕ → Bool) (a : CcSketchAlg) (e : Edge)
    → IsEagerAlg n graph a
    → e.src < n
    → e.dst < n
    → (a' : CcSketchAlg) × (pre_insert failures a e ≡ some a')
      × IsEagerAlg n (flipped graph (lower e.src e.dst) (upper e.src e.dst)) a'
unfolding pre_insert
pre_insert-IsEagerAlg failures n graph a e k ls ld = elim (Bool-cases a.dsu_valid) [
  | inl v ↦
      let i = k.eager v in
      let (l, u) = ends-lt n e.src e.dst ls ld in
      let (out, p, _, j) =
        merge_mt-IsJoin failures a.dsu (lower e.src e.dst) (upper e.src e.dst) i.valid
          (subst (λ m. lower e.src e.dst < m) (sym i.size) l)
          (subst (λ m. upper e.src e.dst < m) (sym i.size) u) in
      (
        eager a (lower e.src e.dst) (upper e.src e.dst) out,
        rw (v, p),
        eager-IsEagerAlg n graph a (lower e.src e.dst) (upper e.src e.dst) out k i l u j,
      )
  | inr v ↦ (
    a,
    rw v,
    record { agrees = k.agrees; eager = λ v'. (let clash = sym v ∙ v' in ground arith) },
  )
]

pub pre_insert_all-IsEagerAlg :
    (failures : ℕ → ℕ) (n : ℕ) (es : List Edge) (graph : ℕ → ℕ → Bool) (a : CcSketchAlg)
    → IsEagerAlg n graph a
    → InRange n es
    → (a' : CcSketchAlg) × (pre_insert_all failures a es ≡ some a')
      × IsEagerAlg n (graph_after graph es) a'
pre_insert_all-IsEagerAlg failures n [] graph a k h = (a, refl, k)
pre_insert_all-IsEagerAlg failures n (e ∷ es) graph a k ((ls, ld), h) =
    let (a1, p, k1) = pre_insert-IsEagerAlg (failures (length es)) n graph a e k ls ld in
    let graph1 = flipped graph (lower e.src e.dst) (upper e.src e.dst) in
    let (a2, q, k2) = pre_insert_all-IsEagerAlg failures n es graph1 a1 k1 h in (a2, rw p q, k2)

pub new_cc-IsEagerAlg :
    (prio_gen : ℕ → ℕ) (n : ℕ) (blank : Sketch)
    → IsEagerAlg n no_edges (new_cc_sketch_alg prio_gen n blank)
unfolding new_cc_sketch_alg
new_cc-IsEagerAlg prio_gen n blank =
    let bare = λ (x y : ℕ). ap (contains y) (get_or-replicate n x []) in
    record {
      agrees = refl;
      eager = λ _. record {
        valid = new_dsu-IsValid prio_gen n;
        size = new_dsu-n prio_gen n;
        rows = length-replicate n [];
        planted = λ x y e. sym (bare x y) ∙ e;
        spans = λ x y lx ly s. here (SameSet-new_dsu prio_gen n x y lx ly s);
        covers = λ x y e. (let clash = e in ground arith);
      };
    }

num_vertices-eager :
    (a : CcSketchAlg) (src dst : ℕ) (out : Dsu × DsuMergeRet)
    → (eager a src dst out).num_vertices ≡ a.num_vertices
unfolding eager
num_vertices-eager a src dst (d, m_ret) =
    if_elim (λ (b : CcSketchAlg). b.num_vertices ≡ a.num_vertices) m_ret.merged _ _ (λ e. refl)
      (λ e.
        if_elim (λ (b : CcSketchAlg). b.num_vertices ≡ a.num_vertices)
          (in_forest a.spanning_forest src dst) _ _ (λ f. refl) (λ f. refl))

none-some : (a : CcSketchAlg) → none ≢ some a
none-some a e = cc

num_vertices-pre_insert :
    (failures : ℕ) (a a' : CcSketchAlg) (e : Edge)
    → pre_insert failures a e ≡ some a'
    → a'.num_vertices ≡ a.num_vertices
unfolding pre_insert
num_vertices-pre_insert failures a a' e =
    let merged = merge_mt failures a.dsu (lower e.src e.dst) (upper e.src e.dst) in
    if_elim (λ o. o ≡ some a' → a'.num_vertices ≡ a.num_vertices) a.dsu_valid _ (some a)
      (λ v. elim (Option-cases merged) [
        | inl q ↦ λ p. absurd (
            none-some a' (
              sym (
                ap (λ o. o >>= λ out. some (eager a (lower e.src e.dst) (upper e.src e.dst) out)) q)
              ∙ p))
        | inr (out, q) ↦ λ p.
            ap (λ (b : CcSketchAlg). b.num_vertices)
              (sym (
                some_eq (
                  sym (
                    ap
                      (λ o. o >>= λ out. some (eager a (lower e.src e.dst) (upper e.src e.dst) out))
                      q)
                  ∙ p)))
            ∙ num_vertices-eager a (lower e.src e.dst) (upper e.src e.dst) out
      ])
      (λ v p. ap (λ (b : CcSketchAlg). b.num_vertices) (sym (some_eq p)))

pub num_vertices-pre_insert_all :
    (failures : ℕ → ℕ) (es : List Edge) (a a' : CcSketchAlg)
    → pre_insert_all failures a es ≡ some a'
    → a'.num_vertices ≡ a.num_vertices
num_vertices-pre_insert_all failures [] a a' p =
    ap (λ (b : CcSketchAlg). b.num_vertices) (sym (some_eq p))
num_vertices-pre_insert_all failures (e ∷ es) a a' p =
    elim (Option-cases (pre_insert (failures (length es)) a e)) [
      | inl q ↦
          absurd (none-some a' (sym (ap (λ o. o >>= λ b. pre_insert_all failures b es) q) ∙ p))
      | inr (a1, q) ↦
          num_vertices-pre_insert_all failures es a1 a'
            (sym (ap (λ o. o >>= λ b. pre_insert_all failures b es) q) ∙ p)
          ∙ num_vertices-pre_insert (failures (length es)) a a1 e q
    ]

-- From a new algorithm a stream of updates between its vertices is taken without an error.
-- Afterwards either no query for connectivity is cached, or two vertices are in one set of the
-- partition exactly if a walk joins them in the graph that the stream leaves.
pub pre_insert_all-Linked :
    (failures prio_gen : ℕ → ℕ) (n : ℕ) (blank : Sketch) (es : List Edge)
    → InRange n es
    → (a : CcSketchAlg) × (pre_insert_all failures (new_cc_sketch_alg prio_gen n blank) es ≡ some a)
      × ((has_cached_query a connectivity ≡ false)
          ⊎ ((x y : ℕ) → x < n → y < n → SameSet a.dsu x y ↔ Linked (graph_after no_edges es) x y))
unfolding has_cached_query
pre_insert_all-Linked failures prio_gen n blank es h =
    let (a, p, k) =
      pre_insert_all-IsEagerAlg failures n es no_edges (new_cc_sketch_alg prio_gen n blank)
        (new_cc-IsEagerAlg prio_gen n blank) h in
    (
      a,
      p,
      elim (Bool-cases a.shared_dsu_valid) [
        | inl v ↦
            let i = k.eager (sym k.agrees ∙ v) in
            inr (
              SameSet-Linked n a.dsu a.spanning_forest (graph_after no_edges es) i
                (λ x lx. SameSet-refl a.dsu x i.valid (subst (λ m. x < m) (sym i.size) lx)))
        | inr v ↦ inl v
      ],
    )
