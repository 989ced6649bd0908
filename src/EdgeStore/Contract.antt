-- ===== src/EdgeStore/Contract.antt =====
-- src/edge_store.cpp: vertex_contract and vertex_advance_subgraph, what they keep of each vertex's
-- buffer.
use graph_zeppelin.Base.{
  ℕ, zero, suc, ◌+◌, ◌≤◌, ◌<◌, ◌≡◌, ◌≢◌, inl, inr, refl, sym, ◌∙◌, ap, arith, Bool, true, false,
  not, ◌&&◌, List, [], ◌∷◌, Option, some, length, leb, ◌==◌, if◌then◌else◌, eq-cases, get_or, set,
  ◌^◌, if_elim, slice, length-set, get_or-set_self, get_or-set_ne,
}
use graph_zeppelin.Pairing.{u32}
use graph_zeppelin.EdgeStore.{
  SubgraphTaggedUpdate, EdgeStore, TaggedUpdateBatch, zeroed, resized, contract_loop,
  contract_buffer, vertex_contract, advance_at, advance_loop, vertex_advance_subgraph,
}
use graph_zeppelin.EdgeStore.Weigh.{
  weigh, weigh-resized, weigh-slice_none, weigh-slice_front, weigh-slice_push, slice-set_before,
  weigh-slice_all,
}

abbrev pub row : EdgeStore → ℕ → List SubgraphTaggedUpdate
row s u = get_or s.adjlist u []

-- The weight of an update that is not below `cur`.
abbrev pub from : ℕ → (SubgraphTaggedUpdate → ℕ) → SubgraphTaggedUpdate → ℕ
from cur w x = if leb cur x.subgraph then w x else 0

abbrev pub Vanishes : ℕ → (SubgraphTaggedUpdate → ℕ) → Type 0
Vanishes cur w = (x : SubgraphTaggedUpdate) → x.subgraph < cur → w x ≡ 0

pub weigh-from :
    (cur : ℕ) (w : SubgraphTaggedUpdate → ℕ)
    → Vanishes cur w
    → (xs : List SubgraphTaggedUpdate) → weigh (from cur w) xs ≡ weigh w xs
weigh-from cur w v [] = refl
weigh-from cur w v (x ∷ xs) =
    let e : from cur w x ≡ w x = ground (arith, v x) in omega (arith, e, weigh-from cur w v xs)

-- What `left` turns of the loop keep, from the index `i` on.
abbrev Kept :
    (SubgraphTaggedUpdate → ℕ)
    → ℕ
    → ℕ
    → ℕ
    → ℕ
    → List SubgraphTaggedUpdate
    → List SubgraphTaggedUpdate × ℕ
    → Type 0
Kept w left i cur keep_idx buffer (buffer', keep_idx') =
    (keep_idx' ≤ length buffer')
    × (weigh w (slice 0 keep_idx' buffer')
        ≡ weigh w (slice 0 keep_idx buffer) + weigh (from cur w) (slice i left buffer))

contract_turn-Kept :
    (w : SubgraphTaggedUpdate → ℕ) (left i cur keep_idx : ℕ) (buffer : List SubgraphTaggedUpdate)
    (kept : Bool)
    → leb cur (get_or buffer i zeroed).subgraph ≡ kept
    → keep_idx ≤ i
    → i + suc left ≡ length buffer
    → ((k : ℕ) (xs : List SubgraphTaggedUpdate)
        → k ≤ i + 1
        → i + 1 + left ≡ length xs
        → Kept w left (i + 1) cur k xs (contract_loop left (i + 1) cur k xs))
    → Kept w (suc left) i cur keep_idx buffer (
        contract_loop left
          (i + 1)
          cur
          (if kept then keep_idx + 1 else keep_idx)
          (if kept then set buffer keep_idx (get_or buffer i zeroed) else buffer))
contract_turn-Kept w left i cur keep_idx buffer true e le all next =
    let x = get_or buffer i zeroed in
    let front = weigh-slice_front (from cur w) i (i + 1) left buffer (omega arith) (omega arith) in
    let push = weigh-slice_push w keep_idx (keep_idx + 1) buffer x (omega arith) (omega arith) in
    let same =
      ap (weigh (from cur w)) (slice-set_before (i + 1) left keep_idx buffer x (omega arith)) in
    let now : from cur w x ≡ w x = ap (λ b. if b then w x else 0) e in
    let (fits, rest) =
      next (keep_idx + 1) (set buffer keep_idx x) (omega arith)
        (omega (arith, length-set buffer keep_idx x)) in
    (fits, omega (arith, rest, push, same, now, front))
contract_turn-Kept w left i cur keep_idx buffer false e le all next =
    let x = get_or buffer i zeroed in
    let front = weigh-slice_front (from cur w) i (i + 1) left buffer (omega arith) (omega arith) in
    let now : from cur w x ≡ 0 = ap (λ b. if b then w x else 0) e in
    let (fits, rest) = next keep_idx buffer (omega arith) (omega arith) in
    (fits, omega (arith, rest, now, front))

contract_loop-Kept :
    (w : SubgraphTaggedUpdate → ℕ) (left i cur keep_idx : ℕ) (buffer : List SubgraphTaggedUpdate)
    → keep_idx ≤ i
    → i + left ≡ length buffer
    → Kept w left i cur keep_idx buffer (contract_loop left i cur keep_idx buffer)
unfolding contract_loop
contract_loop-Kept w zero i cur keep_idx buffer le all =
    (omega arith, omega (arith, weigh-slice_none (from cur w) i buffer))
contract_loop-Kept w (suc left) i cur keep_idx buffer le all =
    contract_turn-Kept w left i cur keep_idx buffer _ refl le all
      (λ k xs. contract_loop-Kept w left (i + 1) cur k xs)

-- The buffer that vertex_contract makes keeps the updates from `cur` on.
pub contracted-weigh :
    (w : SubgraphTaggedUpdate → ℕ) (cur : ℕ) (buffer : List SubgraphTaggedUpdate)
    → let (buffer', keep_idx) = contract_loop (length buffer) 0 cur 0 buffer in
      weigh w (resized keep_idx buffer') ≡ weigh (from cur w) buffer
contracted-weigh w cur buffer =
    let (fits, e) =
      contract_loop-Kept w (length buffer) 0 cur 0 buffer (omega arith) (omega arith) in
    let (buffer', keep_idx) = contract_loop (length buffer) 0 cur 0 buffer in
    omega (
      arith,
      weigh-resized w keep_idx buffer' fits,
      e,
      weigh-slice_none w 0 buffer,
      weigh-slice_all (from cur w) buffer,
    )

-- A number for the vertex `src`, and another for the rest.
abbrev pub at : ℕ → ℕ → ℕ → ℕ → ℕ
at src u a b = if src == u then a else b

pub at_self : (src u a b : ℕ) → src ≡ u → at src u a b ≡ a
at_self src u a b e = ground arith

pub at_other : (src u a b : ℕ) → src ≢ u → at src u a b ≡ b
at_other src u a b ne = ground arith

-- The weight of each row after the row of `src` is set.
pub weigh-set :
    (w : SubgraphTaggedUpdate → ℕ) (rows : List (List SubgraphTaggedUpdate)) (src u : ℕ)
    (new : List SubgraphTaggedUpdate)
    → src < length rows
    → weigh w (get_or (set rows src new) u []) ≡ at src u (weigh w new) (weigh w (get_or rows u []))
weigh-set w rows src u new lt = elim (eq-cases src u) [
  | inl e ↦
      ap (λ v. weigh w (get_or (set rows src new) v [])) (sym e)
      ∙ ap (weigh w) (get_or-set_self rows src new [] lt)
      ∙ sym (at_self src u (weigh w new) (weigh w (get_or rows u [])) e)
  | inr ne ↦
      ap (weigh w) (get_or-set_ne rows src u new [] ne)
      ∙ sym (at_other src u (weigh w new) (weigh w (get_or rows u [])) ne)
]

-- What a contraction of `src` makes of the buffer of each vertex.
pub contract_buffer-row :
    (w : SubgraphTaggedUpdate → ℕ) (s : EdgeStore) (src u : ℕ) (buffer : List SubgraphTaggedUpdate)
    → row s src ≡ buffer
    → src < length s.adjlist
    → let (ret, s') = contract_buffer s src buffer in
      (length s'.adjlist ≡ length s.adjlist)
      × (weigh w (row s' u) ≡ at src u (weigh (from s.cur_subgraph w) buffer) (weigh w (row s u)))
unfolding contract_buffer
contract_buffer-row w s src u [] e lt = (
  refl,
  elim (eq-cases src u) [
    | inl p ↦
        ap (λ v. weigh w (row s v)) (sym p)
        ∙ ap (weigh w) e
        ∙ sym (at_self src u 0 (weigh w (row s u)) p)
    | inr ne ↦ sym (at_other src u 0 (weigh w (row s u)) ne)
  ],
)
contract_buffer-row w s src u (x ∷ xs) e lt = (
  length-set s.adjlist src _,
  weigh-set w s.adjlist src u _ lt
      ∙ ap (λ n. at src u n (weigh w (row s u))) (contracted-weigh w s.cur_subgraph (x ∷ xs)),
)

-- What an operation keeps: the number of vertices, the subgraph from which on updates stay, and
-- of each buffer the updates of that subgraph on.
abbrev pub Keeps : EdgeStore → EdgeStore → Type 0
Keeps s s' =
    (s'.num_vertices ≡ s.num_vertices)
    × (s'.cur_subgraph ≡ s.cur_subgraph)
    × (length s'.adjlist ≡ length s.adjlist)
    × ((w : SubgraphTaggedUpdate → ℕ)
        → Vanishes s.cur_subgraph w
        → (u : ℕ) → weigh w (row s' u) ≡ weigh w (row s u))

pub Keeps-trans : (s s1 s2 : EdgeStore) → Keeps s s1 → Keeps s1 s2 → Keeps s s2
Keeps-trans s s1 s2 (n, c, l, k) (n', c', l', k') =
    (n' ∙ n, c' ∙ c, l' ∙ l, (λ w v u. k' w (λ x lt. v x (omega arith)) u ∙ k w v u))

contract_buffer-Keeps :
    (s : EdgeStore) (src : ℕ) (buffer : List SubgraphTaggedUpdate)
    → row s src ≡ buffer
    → src < length s.adjlist
    → Keeps s ((contract_buffer s src buffer).1)
unfolding contract_buffer
contract_buffer-Keeps s src [] e lt = (refl, refl, refl, (λ w v u. refl))
contract_buffer-Keeps s src (x ∷ xs) e lt = (
  refl,
  refl,
  length-set s.adjlist src _,
  (λ w v u. (contract_buffer-row w s src u (x ∷ xs) e lt).1 ∙ elim (eq-cases src u) [
    | inl p ↦
        at_self src u _ (weigh w (row s u)) p
        ∙ weigh-from s.cur_subgraph w v (x ∷ xs)
        ∙ ap (weigh w) (sym e)
        ∙ ap (λ t. weigh w (row s t)) p
    | inr ne ↦ at_other src u _ (weigh w (row s u)) ne
  ]),
)

pub vertex_contract-Keeps :
    (s : EdgeStore) (src : ℕ) → src < length s.adjlist → Keeps s ((vertex_contract s src).1)
unfolding vertex_contract
vertex_contract-Keeps s src lt =
    if_elim (λ r. Keeps s (r.1)) (get_or s.vertex_contracted src true) ([], s)
      (contract_buffer (record s { vertex_contracted = set s.vertex_contracted src true }) src
        (row s src))
      (λ e. (refl, refl, refl, (λ w v u. refl)))
      (λ e.
        contract_buffer-Keeps (record s { vertex_contracted = set s.vertex_contracted src true })
          src (row s src) refl lt)

-- The operation has a result, and keeps what stays.
abbrev pub Returns : EdgeStore → Option (TaggedUpdateBatch × EdgeStore) → Type 0
Returns s o = (r : TaggedUpdateBatch × EdgeStore) × (o ≡ some r) × Keeps s (r.1)

advance_loop-Returns :
    (fuel : ℕ) (s : EdgeStore) (cur : ℕ)
    → length s.adjlist ≡ s.num_vertices
    → s.num_vertices < 2 ^ 32
    → s.num_vertices < s.needs_contraction + fuel
    → 0 < fuel
    → Returns s (advance_loop fuel s cur)
unfolding advance_loop advance_at
advance_loop-Returns zero s cur len small enough some_fuel = absurd (omega arith)
advance_loop-Returns (suc fuel) s cur len small enough some_fuel =
    let src = s.needs_contraction in
    let drawn = record s { needs_contraction = u32 (src + 1) } in
    if_elim (Returns s) (leb s.num_vertices src) _ _
      (λ e. (
        _,
        refl,
        if_elim (Keeps s) (src == s.num_vertices) _ _ (λ p. (refl, refl, refl, (λ w v u. refl)))
            (λ p. (refl, refl, refl, (λ w v u. refl))),
      ))
      (λ e.
        if_elim (Returns s)
          (not (length (row s src) == 0) && not (get_or s.vertex_contracted src true)) _ _
          (λ p. (_, refl, vertex_contract-Keeps drawn src (ground arith)))
          (λ p.
            advance_loop-Returns fuel
              (record drawn { vertex_contracted = set s.vertex_contracted src true }) cur len small
              (ground arith) (ground arith)))

-- For fewer than 2^32 vertices, each with its buffer, vertex_advance_subgraph ends, whichever
-- vertex comes next, and of the subgraphs that the store holds it keeps every update of every
-- vertex.
pub vertex_advance_subgraph-Returns :
    (s : EdgeStore) (cur : ℕ)
    → length s.adjlist ≡ s.num_vertices
    → s.num_vertices < 2 ^ 32
    → Returns s (vertex_advance_subgraph s cur)
unfolding vertex_advance_subgraph
vertex_advance_subgraph-Returns s cur len small =
    advance_loop-Returns (s.num_vertices + 1) s cur len small (omega arith) (omega arith)
