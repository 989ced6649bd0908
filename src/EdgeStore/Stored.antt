-- ===== src/EdgeStore/Stored.antt =====
-- src/edge_store.cpp: insert_adj_edges as a whole, and what it leaves in each vertex's buffer.
use graph_zeppelin.Base.{
  ℕ, suc, ◌+◌, ◌-◌, ◌<◌, ◌≡◌, inl, inr, refl, sym, ◌∙◌, ap, subst, arith, true, not, ◌&&◌, List, [],
  ◌∷◌, ◌++◌, Option, none, some, length, ltb, ◌==◌, if◌then◌else◌, eq-cases, get_or, if_elim, slice,
  length-set, ◌^◌,
}
use graph_zeppelin.EdgeStore.{
  SubgraphTaggedUpdate, EdgeStore, TaggedUpdateBatch, vertex_contract, check_if_too_big,
}
use graph_zeppelin.EdgeStore.Insert.{
  skip_below, store_updates, settle_insert, contract_if_due, insert_sorted, insert_tagged,
  merge_updates, one_on,
}
use graph_zeppelin.EdgeStore.Weigh.{weigh, Exceeds, weigh-slice_all}
use graph_zeppelin.EdgeStore.Contract.{
  row, from, Vanishes, at, at_self, at_other, weigh-set, Keeps, vertex_contract-Keeps,
  vertex_advance_subgraph-Returns,
}
use graph_zeppelin.EdgeStore.Fill.{merge_updates-weigh}

-- The number of updates from the subgraph `cur` on.
abbrev pub staying : ℕ → List SubgraphTaggedUpdate → ℕ
staying cur xs = weigh (from cur (λ x. 1)) xs

-- The skip stops at an update, and passes over nothing that stays.
Skips : ℕ → List SubgraphTaggedUpdate → Option ℕ → Type 0
Skips cur xs o =
    (i : ℕ) × (o ≡ some i)
    × (i < length xs)
    × ((w : SubgraphTaggedUpdate → ℕ)
        → Vanishes cur w
        → weigh w (slice i (length xs - i) xs) ≡ weigh w xs)

skip_below-Skips :
    (cur : ℕ) (xs : List SubgraphTaggedUpdate)
    → 0 < staying cur xs
    → Skips cur xs (skip_below cur xs)
unfolding skip_below Skips
skip_below-Skips cur [] some_stay = absurd (omega arith)
skip_below-Skips cur (x ∷ xs) some_stay =
    if_elim (Skips cur (x ∷ xs)) (ltb x.subgraph cur) (one_on (skip_below cur xs)) (some 0)
      (λ e.
        let gone : from cur (λ y. 1) x ≡ 0 = ground arith in
        let (i, found, lt, keeps) = skip_below-Skips cur xs (omega arith) in
        (
          suc i,
          ap one_on found,
          omega arith,
          (λ w v.
              ap (λ n. weigh w (slice i n xs)) (omega arith)
              ∙ keeps w v
              ∙ omega (arith, v x (ground arith))),
        ))
      (λ e. (
        0,
        refl,
        omega arith,
        (λ w v.
            ap (λ n. weigh w (slice 0 n (x ∷ xs))) {y = length (x ∷ xs)} (omega arith)
            ∙ weigh-slice_all w (x ∷ xs)),
      ))

-- `src` takes the updates in, up to pairs of equal ones; the rest stays.
abbrev pub Stores : EdgeStore → ℕ → List SubgraphTaggedUpdate → EdgeStore → Type 0
Stores s src updates s' =
    (w : SubgraphTaggedUpdate → ℕ)
    → Vanishes s.cur_subgraph w
    → (u : ℕ) → Exceeds (weigh w (row s u) + at src u (weigh w updates) 0) (weigh w (row s' u))

store_updates-Stores :
    (s : EdgeStore) (src : ℕ) (updates : List SubgraphTaggedUpdate) (i : ℕ)
    → src < length s.adjlist
    → i < length updates
    → ((w : SubgraphTaggedUpdate → ℕ)
        → Vanishes s.cur_subgraph w
        → weigh w (slice i (length updates - i) updates) ≡ weigh w updates)
    → Stores s src updates (store_updates s src updates i)
unfolding store_updates
store_updates-Stores s src updates i lt lt' keeps w v u =
    let (k, e) = merge_updates-weigh w (row s src) updates i lt' in
    let new = weigh-set w s.adjlist src u (merge_updates (row s src) updates i) lt in
    elim (eq-cases src u) [
      | inl p ↦ (
        k,
        omega (
          arith,
          e,
          keeps w v,
          new,
          at_self src u (weigh w (merge_updates (row s src) updates i)) (weigh w (row s u)) p,
          at_self src u (weigh w updates) 0 p,
          ap (λ t. weigh w (row s t)) p,
        ),
      )
      | inr ne ↦ (
        0,
        omega (
          arith,
          new,
          at_other src u (weigh w (merge_updates (row s src) updates i)) (weigh w (row s u)) ne,
          at_other src u (weigh w updates) 0 ne,
        ),
      )
    ]

contract_if_due-Keeps :
    (s : EdgeStore) (src : ℕ) → src < length s.adjlist → Keeps s ((contract_if_due s src).1)
unfolding contract_if_due
contract_if_due-Keeps s src lt =
    if_elim (λ r. Keeps s (r.1))
      (ltb s.true_min_subgraph s.cur_subgraph && not (get_or s.vertex_contracted src true))
      (vertex_contract s src) ([], s) (λ e. vertex_contract-Keeps s src lt)
      (λ e. (refl, refl, refl, (λ w v u. refl)))

check_if_too_big-row : (s : EdgeStore) (u : ℕ) → row (check_if_too_big s) u ≡ row s u
unfolding check_if_too_big
check_if_too_big-row s u =
    if_elim (λ t. row t u ≡ row s u) (ltb s.num_edges s.max_edges) _ _ (λ e. refl)
      (λ e.
        if_elim (λ t. row t u ≡ row s u) (ltb s.true_min_subgraph s.cur_subgraph) _ _ (λ p. refl)
          (λ p. refl))

-- The operation has a result, which stores the updates.
abbrev pub StoresIn :
    EdgeStore → ℕ → List SubgraphTaggedUpdate → Option (TaggedUpdateBatch × EdgeStore) → Type 0
StoresIn s src updates o =
    (r : TaggedUpdateBatch × EdgeStore) × (o ≡ some r) × Stores s src updates (r.1)

settle_insert-StoresIn :
    (s s1 : EdgeStore) (src cur : ℕ) (updates ret : List SubgraphTaggedUpdate)
    → length s1.adjlist ≡ s1.num_vertices
    → s1.num_vertices < 2 ^ 32
    → s1.cur_subgraph ≡ s.cur_subgraph
    → Stores s src updates s1
    → StoresIn s src updates (settle_insert s1 src cur ret)
unfolding settle_insert
settle_insert-StoresIn s s1 src cur updates ret len small same stored =
    if_elim (StoresIn s src updates) ((length ret == 0) && ltb s1.true_min_subgraph cur) _ _
      (λ e.
        let (r, done, (n, c, l, keeps)) = vertex_advance_subgraph-Returns s1 cur len small in
        (
          r,
          done,
          (λ w v u.
              let (k, p) = stored w v u in
              (k, omega (arith, p, keeps w (λ x lt. v x (omega arith)) u))),
        ))
      (λ e. (
        _,
        refl,
        (λ w v u.
            let (k, p) = stored w v u in
            (k, omega (arith, p, ap (weigh w) (check_if_too_big-row s1 u)))),
      ))

insert_sorted-StoresIn :
    (s : EdgeStore) (src caller_first : ℕ) (updates : List SubgraphTaggedUpdate)
    → src < length s.adjlist
    → length s.adjlist ≡ s.num_vertices
    → s.num_vertices < 2 ^ 32
    → 0 < staying s.cur_subgraph updates
    → StoresIn s src updates (insert_sorted s src caller_first updates)
unfolding insert_sorted Skips
insert_sorted-StoresIn s src caller_first updates lt len small some_stay =
    let (i, found, lt', skips) = skip_below-Skips s.cur_subgraph updates some_stay in
    let (n, c, l, keeps) = contract_if_due-Keeps s src lt in
    let s1 = (contract_if_due s src).1 in
    let ret = (contract_if_due s src).0 in
    let s2 = store_updates s1 src updates i in
    subst
      (λ o. StoresIn s src updates (elim o [
        | none ↦ none
        | some j ↦
            settle_insert (store_updates s1 src updates j) src s.cur_subgraph
              (if ltb caller_first s.cur_subgraph then ret ++ updates else ret)
      ]))
      (sym found)
      (settle_insert-StoresIn s s2 src s.cur_subgraph updates _
        (length-set s1.adjlist src _ ∙ l ∙ len ∙ sym n) (subst (λ t. t < 2 ^ 32) (sym n) small) c
        (λ w v u.
          let (k, p) =
            store_updates-Stores s1 src updates i (omega arith) lt'
              (λ w' v'. skips w' (λ x h. v' x (omega arith))) w (λ x h. v x (omega arith)) u in
          (k, omega (arith, p, keeps w v u))))

-- Sorting moves the updates only.
abbrev pub IsPermuting : (List SubgraphTaggedUpdate → List SubgraphTaggedUpdate) → Type 0
IsPermuting sort =
    (w : SubgraphTaggedUpdate → ℕ) (xs : List SubgraphTaggedUpdate) → weigh w (sort xs) ≡ weigh w xs

-- Let `sort` move the updates only, let `src` be one of fewer than 2^32 vertices, each with its
-- buffer, and let at least one of the updates be of a subgraph that the store holds. Then their
-- insertion returns, whatever contraction is in progress. For the subgraphs that the store held
-- before, the buffer of each vertex then holds what it held, and that of `src` the updates too,
-- except for pairs of equal updates that are gone: the sum of a weight over the buffer and the
-- updates is that over the new buffer and an even number.
pub insert_tagged-StoresIn :
    (sort : List SubgraphTaggedUpdate → List SubgraphTaggedUpdate) (s : EdgeStore)
    (src caller_first : ℕ) (dst_data : List SubgraphTaggedUpdate)
    → IsPermuting sort
    → src < length s.adjlist
    → length s.adjlist ≡ s.num_vertices
    → s.num_vertices < 2 ^ 32
    → 0 < staying s.cur_subgraph dst_data
    → StoresIn s src dst_data (insert_tagged sort s src caller_first dst_data)
unfolding insert_tagged
insert_tagged-StoresIn sort s src caller_first [] perm lt len small some_stay = absurd (omega arith)
insert_tagged-StoresIn sort s src caller_first (x ∷ xs) perm lt len small some_stay =
    let (r, done, stored) =
      insert_sorted-StoresIn s src caller_first (sort (x ∷ xs)) lt len small
        (omega (arith, perm (from s.cur_subgraph (λ y. 1)) (x ∷ xs))) in
    if_elim (StoresIn s src (x ∷ xs)) (length (x ∷ xs) == 0) _ _ (λ e. absurd (ground arith))
      (λ e. (
        r,
        done,
        (λ w v u.
            let (k, p) = stored w v u in
            (
              k,
              subst (λ t. weigh w (row s u) + at src u t 0 ≡ weigh w (row (r.1) u) + (k + k))
                  (perm w (x ∷ xs)) p,
            )),
      ))
