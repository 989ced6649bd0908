-- ===== src/CcAlg/Query/Cached.antt =====
-- src/cc_sketch_alg.cpp: connected_components where the partition holds the answer.
use graph_zeppelin.Base.{
  ℕ, ◌<◌, ◌≡◌, ◌⊎◌, ◌↔◌, inl, inr, sym, ◌∙◌, ap, arith, Bool, true, false, List, some, Bool-cases,
  if_elim,
}
use graph_zeppelin.ReturnTypes.{new_connected_components, ConnectedComponents, is_connected}
use graph_zeppelin.CcAlg.Stream.{
  num_vertices-pre_insert_all, pre_insert_all, pre_insert_all-IsEagerAlg, new_cc-IsEagerAlg,
}
use graph_zeppelin.CcAlg.Query.{
  Query, replied, Machine, connected_components, read_components, ◌>>=◌, settle, boruvka_emulation,
}
use graph_zeppelin.CcAlg.Forest.{IsEager, SameSet-Linked, graph_after, Linked, no_edges}
use graph_zeppelin.Sketch.{Sketch}
use graph_zeppelin.Dsu.{Dsu}
use graph_zeppelin.ReturnTypes.Connectivity.{KeepsSets, new_connected_components-SameSet}
use graph_zeppelin.CcAlg.{CcSketchAlg, has_cached_query, connectivity, new_cc_sketch_alg}
use graph_zeppelin.Dsu.Components.{InRange}
use graph_zeppelin.CcAlg.Eager.{SameSet-refl}
use graph_zeppelin.Pairing.{Edge}

-- The answer where the partition is that of the graph.
abbrev pub Answers : Machine → ℕ → (ℕ → ℕ → Bool) → CcSketchAlg → Query ConnectedComponents → Type 0
Answers m n graph a q =
    (c : ConnectedComponents) × (d : Dsu) × (q ≡ replied c (record a { dsu = d }))
    × KeepsSets a.dsu d
    × ((x y : ℕ) → x < n → y < n → (is_connected c x y ≡ true) ↔ Linked graph x y)

pub connected_components_cached :
    (m : Machine) (n : ℕ) (graph : ℕ → ℕ → Bool) (a : CcSketchAlg)
    → IsEager n a.dsu a.spanning_forest graph
    → a.num_vertices ≡ n
    → a.shared_dsu_valid ≡ true
    → Answers m n graph a (connected_components m a)
unfolding connected_components read_components
connected_components_cached m n graph a i size v =
    let (d, c, p, told, kept) =
      new_connected_components-SameSet a.num_vertices a.dsu i.valid (omega (arith, i.size, size)) in
    (
      c,
      d,
      if_elim
          (λ q.
            (q >>= λ _ a'. read_components m a' (new_connected_components a'.num_vertices a'.dsu))
            ≡ replied c (record a { dsu = d }))
          a.shared_dsu_valid _ (settle m (boruvka_emulation m a)) (λ t. ap (read_components m a) p)
          (λ f. absurd (ground (arith, v, f))),
      kept,
      λ x y lx ly.
          let (f, g) =
            SameSet-Linked n a.dsu a.spanning_forest graph i
              (λ z lz. SameSet-refl a.dsu z i.valid (omega (arith, i.size, lz))) x y lx ly in
          let (f', g') = told x y (omega arith) (omega arith) in ((λ e. f (f' e)), (λ w. g' (g w))),
    )

-- From a new algorithm a stream of updates between its vertices is taken without an error. Then
-- either no query for connectivity is cached, or connected_components replies without a round, and
-- changes nothing but the parents of the partition, which keeps its vertices, its priorities and
-- its sets and stays well formed: two vertices are connected in its answer exactly if a walk joins
-- them in the graph that the stream leaves.
pub pre_insert_all-connected_components :
    (m : Machine) (failures prio_gen : ℕ → ℕ) (n : ℕ) (blank : Sketch) (es : List Edge)
    → InRange n es
    → (a : CcSketchAlg) × (pre_insert_all failures (new_cc_sketch_alg prio_gen n blank) es ≡ some a)
      × ((has_cached_query a connectivity ≡ false)
          ⊎ ((c : ConnectedComponents) × (d : Dsu) × (connected_components m a
                ≡ replied c (record a { dsu = d }))
              × KeepsSets a.dsu d
              × ((x y : ℕ)
                  → x < n
                  → y < n
                  → (is_connected c x y ≡ true) ↔ Linked (graph_after no_edges es) x y)))
unfolding has_cached_query new_cc_sketch_alg
pre_insert_all-connected_components m failures prio_gen n blank es h =
    let (a, p, k) =
      pre_insert_all-IsEagerAlg failures n es no_edges (new_cc_sketch_alg prio_gen n blank)
        (new_cc-IsEagerAlg prio_gen n blank) h in
    (
      a,
      p,
      elim (Bool-cases a.shared_dsu_valid) [
        | inl v ↦ inr (
            connected_components_cached m n (graph_after no_edges es) a (k.eager (sym k.agrees ∙ v))
              (num_vertices-pre_insert_all failures es (new_cc_sketch_alg prio_gen n blank) a p) v)
        | inr v ↦ inl v
      ],
    )
