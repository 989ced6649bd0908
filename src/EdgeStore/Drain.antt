-- ===== src/EdgeStore/Drain.antt =====
-- src/edge_store.cpp: a contraction as a whole, by calls of vertex_advance_subgraph until none is
-- in progress.
use graph_zeppelin.Base.{
  ℕ, zero, suc, ◌+◌, ◌≤◌, ◌<◌, ◌≡◌, inl, inr, refl, sym, ◌∙◌, ap, subst, arith, Bool, true, false,
  List, [], ◌∷◌, Option, none, some, map, length, ltb, if◌then◌else◌, get_or, if_elim, ◌^◌,
}
use graph_zeppelin.EdgeStore.{
  EdgeStore, vertex_advance_subgraph, check_if_too_big, contract_in_progress,
}
use graph_zeppelin.EdgeStore.Weigh.{weigh}
use graph_zeppelin.EdgeStore.Contract.{row}
use graph_zeppelin.EdgeStore.Sweep.{stale, IsSwept, Advances, vertex_advance_subgraph-AdvancesIn}

-- Calls of vertex_advance_subgraph for as long as a contraction is in progress, at most `calls`.
abbrev pub drain : ℕ → EdgeStore → Option EdgeStore
drain zero s = if contract_in_progress s then none else some s
drain (suc calls) s =
    if contract_in_progress s
    then elim (vertex_advance_subgraph s s.cur_subgraph) [
      | none ↦ none
      | some r ↦ drain calls (r.1)
    ]
    else some s

-- The contraction has come to its end, with nothing left that the store should hand over.
abbrev pub IsContracted : ℕ → EdgeStore → Type 0
IsContracted cur s =
    (s.cur_subgraph ≡ cur)
    × (contract_in_progress s ≡ false)
    × ((u : ℕ) → u < s.num_vertices → weigh (stale cur) (row s u) ≡ 0)

abbrev pub DrainsTo : ℕ → Option EdgeStore → Type 0
DrainsTo cur o = (s' : EdgeStore) × (o ≡ some s') × IsContracted cur s'

drain_done : (calls : ℕ) (s : EdgeStore) → contract_in_progress s ≡ false → drain calls s ≡ some s
drain_done zero s e =
    if_elim (λ o. o ≡ some s) (contract_in_progress s) none (some s)
      (λ t. absurd (ground (arith, t, e))) (λ f. refl)
drain_done (suc calls) s e =
    if_elim (λ o. o ≡ some s) (contract_in_progress s) _ (some s)
      (λ t. absurd (ground (arith, t, e))) (λ f. refl)

length-cleared : (fs : List Bool) → length (map (λ f. false) fs) ≡ length fs
length-cleared [] = refl
length-cleared (f ∷ fs) = ap suc (length-cleared fs)

get_or-cleared :
    (fs : List Bool) (u : ℕ) → u < length fs → get_or (map (λ f. false) fs) u true ≡ false
get_or-cleared [] u lt = absurd (omega arith)
get_or-cleared (f ∷ fs) zero lt = refl
get_or-cleared (f ∷ fs) (suc u) lt = get_or-cleared fs u (omega arith)

-- After the last vertex.
Advances-IsContracted :
    (s s' : EdgeStore)
    → Advances s s'
    → s.true_min_subgraph + 1 ≡ s.cur_subgraph
    → s.num_vertices < s'.needs_contraction
    → IsContracted s.cur_subgraph s'
unfolding contract_in_progress
Advances-IsContracted s s' (swept, n, c, inl (t, k, l)) one h = absurd (omega arith)
Advances-IsContracted s s' ((fl, al, tidy, drawn), n, c, inr (t, k)) one h = (
  c,
  ground arith,
  (λ u lt. subst (λ m. weigh (stale m) (row s' u) ≡ 0) c (tidy u lt (drawn u lt (omega arith)))),
)

-- The calls after the first.
drain_on :
    (calls : ℕ) (s s' : EdgeStore)
    → Advances s s'
    → s.num_vertices + 1 < 2 ^ 32
    → s.true_min_subgraph + 1 ≡ s.cur_subgraph
    → s.num_vertices < s.needs_contraction + suc calls
    → (IsSwept s'
        → s'.num_vertices + 1 < 2 ^ 32
        → s'.true_min_subgraph + 1 ≡ s'.cur_subgraph
        → s'.needs_contraction ≤ s'.num_vertices
        → s'.num_vertices < s'.needs_contraction + calls
        → DrainsTo s'.cur_subgraph (drain calls s'))
    → DrainsTo s.cur_subgraph (drain calls s')
drain_on calls s s' (swept, n, c, inl (t, k, l)) small one enough next =
    subst (λ m. DrainsTo m (drain calls s')) c
      (next swept (omega arith) (omega arith) (omega arith) (omega arith))
drain_on calls s s' (swept, n, c, inr (t, k)) small one enough next =
    let ended = Advances-IsContracted s s' (swept, n, c, inr (t, k)) one k in
    (s', drain_done calls s' (ended.1), ended)

drain-DrainsTo :
    (calls : ℕ) (s : EdgeStore)
    → IsSwept s
    → s.num_vertices + 1 < 2 ^ 32
    → s.true_min_subgraph + 1 ≡ s.cur_subgraph
    → s.needs_contraction ≤ s.num_vertices
    → s.num_vertices < s.needs_contraction + calls
    → DrainsTo s.cur_subgraph (drain calls s)
unfolding contract_in_progress
drain-DrainsTo zero s swept small one le enough = absurd (omega arith)
drain-DrainsTo (suc calls) s swept small one le enough =
    let (r, got, adv) = vertex_advance_subgraph-AdvancesIn s s.cur_subgraph swept small le in
    if_elim (DrainsTo s.cur_subgraph) (contract_in_progress s) _ _
      (λ e.
        subst (λ o. DrainsTo s.cur_subgraph (elim o [ none ↦ none | some r' ↦ drain calls (r'.1) ]))
          (sym got) (drain_on calls s (r.1) adv small one enough (drain-DrainsTo calls (r.1))))
      (λ e. absurd (ground arith))

-- Let a store of fewer than 2^32 - 1 vertices, each with its buffer and its flag, reach its limit
-- outside a contraction. It begins one, and calls of vertex_advance_subgraph bring it to its end:
-- after at most one call for each vertex, and one more, no contraction is in progress, the first
-- subgraph is one above the old, and no vertex holds an update below it.
pub contraction_ends :
    (s : EdgeStore)
    → length s.vertex_contracted ≡ s.num_vertices
    → length s.adjlist ≡ s.num_vertices
    → s.num_vertices + 1 < 2 ^ 32
    → s.true_min_subgraph ≡ s.cur_subgraph
    → s.max_edges ≤ s.num_edges
    → DrainsTo (s.cur_subgraph + 1) (drain (s.num_vertices + 1) (check_if_too_big s))
unfolding check_if_too_big
contraction_ends s fl al small same big =
    if_elim (λ t. DrainsTo (s.cur_subgraph + 1) (drain (s.num_vertices + 1) t))
      (ltb s.num_edges s.max_edges) s _ (λ e. absurd (ground arith))
      (λ e.
        if_elim (λ t. DrainsTo (s.cur_subgraph + 1) (drain (s.num_vertices + 1) t))
          (ltb s.true_min_subgraph s.cur_subgraph) s _ (λ p. absurd (ground arith))
          (λ p.
            drain-DrainsTo (s.num_vertices + 1)
              (record s {
                vertex_contracted = map (λ f. false) s.vertex_contracted;
                needs_contraction = 0;
                cur_subgraph = s.cur_subgraph + 1;
              })
              (
                length-cleared s.vertex_contracted ∙ fl,
                al,
                (λ u lt t. absurd (cleared_flag u (omega arith) t)),
                (λ u lt h. absurd (omega arith)),
              )
              small (omega arith) (omega arith) (omega arith)))
  where
    cleared_flag :
        (u : ℕ)
        → u < length s.vertex_contracted
        → get_or (map (λ f. false) s.vertex_contracted) u true ≡ true
        → ⊥
    cleared_flag u lt t = ground (arith, t, get_or-cleared s.vertex_contracted u lt)
