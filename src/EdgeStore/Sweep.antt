-- ===== src/EdgeStore/Sweep.antt =====
-- src/edge_store.cpp: a contraction, from the store that has become too big to the last vertex.
use graph_zeppelin.Base.{
  ℕ, zero, suc, ◌+◌, ◌≤◌, ◌<◌, ◌≡◌, ◌⊎◌, inl, inr, refl, sym, ◌∙◌, ap, subst, arith, Bool, true,
  false, not, ◌&&◌, List, [], ◌∷◌, Option, some, length, ltb, leb, ◌==◌, if◌then◌else◌, eq-cases,
  get_or, set, length-set, get_or-set_self, get_or-set_ne, ◌^◌, if_elim,
}
use graph_zeppelin.EdgeStore.{
  SubgraphTaggedUpdate, EdgeStore, TaggedUpdateBatch, contract_buffer, advance_loop,
  vertex_advance_subgraph, advance_at, vertex_contract,
}
use graph_zeppelin.EdgeStore.Weigh.{weigh}
use graph_zeppelin.EdgeStore.Contract.{row, from, at_self, at_other, contract_buffer-row}
use graph_zeppelin.Pairing.{u32}

abbrev pub flag : EdgeStore → ℕ → Bool
flag s u = get_or s.vertex_contracted u true

-- 1 for an update that the store should hand over, 0 for one that it keeps.
abbrev pub stale : ℕ → SubgraphTaggedUpdate → ℕ
stale cur x = if ltb x.subgraph cur then 1 else 0

weigh-from_stale : (cur : ℕ) (xs : List SubgraphTaggedUpdate) → weigh (from cur (stale cur)) xs ≡ 0
weigh-from_stale cur [] = refl
weigh-from_stale cur (x ∷ xs) =
    let e : from cur (stale cur) x ≡ 0 = ground arith in omega (arith, e, weigh-from_stale cur xs)

-- A flagged vertex holds nothing to hand over, and the vertices drawn so far are flagged.
abbrev pub IsSwept : EdgeStore → Type 0
IsSwept s =
    (length s.vertex_contracted ≡ s.num_vertices)
    × (length s.adjlist ≡ s.num_vertices)
    × ((u : ℕ) → u < s.num_vertices → flag s u ≡ true → weigh (stale s.cur_subgraph) (row s u) ≡ 0)
    × ((u : ℕ) → u < s.num_vertices → u < s.needs_contraction → flag s u ≡ true)

abbrev flagged : EdgeStore → ℕ → EdgeStore
flagged s src = record s {
  needs_contraction = src + 1;
  vertex_contracted = set s.vertex_contracted src true;
}

flag-flagged :
    (s : EdgeStore) (src u : ℕ)
    → IsSwept s
    → s.needs_contraction ≡ src
    → src < s.num_vertices
    → u < s.num_vertices
    → u < src + 1
    → flag (flagged s src) u ≡ true
flag-flagged s src u (fl, al, tidy, drawn) e lt h k = elim (eq-cases src u) [
  | inl q ↦
      subst (λ v. get_or (set s.vertex_contracted src true) v true ≡ true) q
        (get_or-set_self s.vertex_contracted src true true (omega arith))
  | inr ne ↦ get_or-set_ne s.vertex_contracted src u true true ne ∙ drawn u h (omega arith)
]

-- The turn that passes over the vertex.
flagged-IsSwept :
    (s : EdgeStore) (src : ℕ)
    → IsSwept s
    → s.needs_contraction ≡ src
    → src < s.num_vertices
    → weigh (stale s.cur_subgraph) (row s src) ≡ 0
    → IsSwept (flagged s src)
flagged-IsSwept s src swept e lt clean =
    let (fl, al, tidy, drawn) = swept in
    (
      length-set s.vertex_contracted src true ∙ fl,
      al,
      (λ u h p. elim (eq-cases src u) [
        | inl q ↦ subst (λ v. weigh (stale s.cur_subgraph) (row s v) ≡ 0) q clean
        | inr ne ↦ tidy u h (sym (get_or-set_ne s.vertex_contracted src u true true ne) ∙ p)
      ]),
      (λ u h k. flag-flagged s src u swept e lt h k),
    )

-- What a contraction leaves alone.
abbrev Same : EdgeStore → EdgeStore → Type 0
Same s s' =
    (s'.num_vertices ≡ s.num_vertices)
    × (s'.cur_subgraph ≡ s.cur_subgraph)
    × (s'.true_min_subgraph ≡ s.true_min_subgraph)
    × (s'.needs_contraction ≡ s.needs_contraction)
    × (s'.vertex_contracted ≡ s.vertex_contracted)

contract_buffer-Same :
    (s : EdgeStore) (src : ℕ) (buffer : List SubgraphTaggedUpdate)
    → Same s ((contract_buffer s src buffer).1)
unfolding contract_buffer
contract_buffer-Same s src [] = (refl, refl, refl, refl, refl)
contract_buffer-Same s src (x ∷ xs) = (refl, refl, refl, refl, refl)

-- The turn that contracts the vertex, whose flag is set first.
contracted-IsSwept :
    (s : EdgeStore) (src : ℕ)
    → IsSwept s
    → s.needs_contraction ≡ src
    → src < s.num_vertices
    → IsSwept ((contract_buffer (flagged s src) src (row s src)).1)
contracted-IsSwept s src swept e lt =
    let (fl, al, tidy, drawn) = swept in
    let s' = (contract_buffer (flagged s src) src (row s src)).1 in
    let (n, c, t, k, f) = contract_buffer-Same (flagged s src) src (row s src) in
    let rows = λ (u : ℕ).
      contract_buffer-row (stale s.cur_subgraph) (flagged s src) src u (row s src) refl
        (omega arith) in
    (
      ap length f ∙ length-set s.vertex_contracted src true ∙ fl ∙ sym n,
      (rows src).0 ∙ al ∙ sym n,
      (λ u h p. ap (λ m. weigh (stale m) (row s' u)) c ∙ (rows u).1 ∙ elim (eq-cases src u) [
        | inl q ↦ at_self src u _ _ q ∙ weigh-from_stale s.cur_subgraph (row s src)
        | inr ne ↦
            at_other src u _ _ ne
            ∙ tidy u (omega arith) (
                sym (get_or-set_ne s.vertex_contracted src u true true ne)
                ∙ sym (ap (λ l. get_or l u true) f)
                ∙ p)
      ]),
      (λ u h p.
          ap (λ l. get_or l u true) f
          ∙ flag-flagged s src u swept e lt (omega arith) (omega arith)),
    )

-- What a call of vertex_advance_subgraph leads to: one more vertex is done, or the last one was.
abbrev pub Advances : EdgeStore → EdgeStore → Type 0
Advances s s' =
    IsSwept s'
    × (s'.num_vertices ≡ s.num_vertices)
    × (s'.cur_subgraph ≡ s.cur_subgraph)
    × (((s'.true_min_subgraph ≡ s.true_min_subgraph)
          × (s.needs_contraction < s'.needs_contraction)
          × (s'.needs_contraction ≤ s.num_vertices))
        ⊎ ((s'.true_min_subgraph ≡ s.true_min_subgraph + 1)
            × (s.num_vertices < s'.needs_contraction)))

abbrev pub AdvancesIn : EdgeStore → Option (TaggedUpdateBatch × EdgeStore) → Type 0
AdvancesIn s o = (r : TaggedUpdateBatch × EdgeStore) × (o ≡ some r) × Advances s (r.1)

Advances-flagged :
    (s s' : EdgeStore) (src : ℕ)
    → s.needs_contraction ≡ src
    → Advances (flagged s src) s'
    → Advances s s'
Advances-flagged s s' src e (swept, n, c, inl (t, k, l)) = (swept, n, c, inl (t, omega arith, l))
Advances-flagged s s' src e (swept, n, c, inr (t, k)) = (swept, n, c, inr (t, k))

-- The draw of a vertex below 2^32 does not wrap.
drawn_eq : (src n : ℕ) → src ≤ n → n + 1 < 2 ^ 32 → u32 (src + 1) ≡ src + 1
drawn_eq src n le lt = omega arith

weigh-empty :
    (w : SubgraphTaggedUpdate → ℕ) (xs : List SubgraphTaggedUpdate) → length xs ≡ 0 → weigh w xs ≡ 0
weigh-empty w [] e = refl
weigh-empty w (x ∷ xs) e = absurd (omega arith)

passed_over :
    (s : EdgeStore) (src : ℕ)
    → IsSwept s
    → src < s.num_vertices
    → (not (length (row s src) == 0) && not (flag s src)) ≡ false
    → weigh (stale s.cur_subgraph) (row s src) ≡ 0
passed_over s src (fl, al, tidy, drawn) lt p = elim (eq-cases (length (row s src)) 0) [
  | inl e ↦ weigh-empty (stale s.cur_subgraph) (row s src) e
  | inr ne ↦ tidy src lt (ground (arith, p, ne))
]

advance_loop-AdvancesIn :
    (fuel : ℕ) (s : EdgeStore) (cur : ℕ)
    → IsSwept s
    → s.num_vertices + 1 < 2 ^ 32
    → s.needs_contraction ≤ s.num_vertices
    → s.num_vertices < s.needs_contraction + fuel
    → AdvancesIn s (advance_loop fuel s cur)
unfolding advance_loop advance_at vertex_contract
advance_loop-AdvancesIn zero s cur swept small le enough = absurd (omega arith)
advance_loop-AdvancesIn (suc fuel) s cur swept small le enough =
    let src = s.needs_contraction in
    let drawn = record s { needs_contraction = u32 (src + 1) } in
    let next = drawn_eq src s.num_vertices le small in
    let (fl, al, tidy, done) = swept in
    if_elim (AdvancesIn s) (leb s.num_vertices src) _ _
      (λ e. (
        _,
        refl,
        if_elim (Advances s) (src == s.num_vertices)
            (record drawn { true_min_subgraph = s.true_min_subgraph + 1 }) drawn
            (λ p. (
              (fl, al, tidy, (λ u h k. done u h (ground arith))),
              refl,
              refl,
              inr (refl, ground arith),
            ))
            (λ p. absurd (ground arith)),
      ))
      (λ e.
        let lt : src < s.num_vertices = ground arith in
        if_elim (AdvancesIn s) (not (length (row s src) == 0) && not (flag s src)) _ _
          (λ p. (
            _,
            refl,
            if_elim (λ (r : List SubgraphTaggedUpdate × EdgeStore). Advances s (r.1)) (flag s src)
                ([], drawn)
                (contract_buffer
                  (record drawn { vertex_contracted = set s.vertex_contracted src true }) src
                  (row s src))
                (λ f. absurd (ground (arith, p, f)))
                (λ f.
                  subst
                    (λ k. Advances s (
                      (contract_buffer
                        (record s {
                          needs_contraction = k;
                          vertex_contracted = set s.vertex_contracted src true;
                        })
                        src (row s src)).1))
                    (sym next)
                    (let (n, c, t, k, _) = contract_buffer-Same (flagged s src) src (row s src) in
                      (
                        contracted-IsSwept s src swept refl lt,
                        n,
                        c,
                        inl (t, omega arith, omega arith),
                      ))),
          ))
          (λ p.
            subst
              (λ k. AdvancesIn s (
                advance_loop fuel
                  (record s {
                    needs_contraction = k;
                    vertex_contracted = set s.vertex_contracted src true;
                  })
                  cur))
              (sym next)
              (let (r, got, adv) =
                  advance_loop-AdvancesIn fuel (flagged s src) cur
                    (flagged-IsSwept s src swept refl lt (passed_over s src swept lt p)) small
                    (omega arith) (omega arith) in
                (r, got, Advances-flagged s (r.1) src refl adv))))

pub vertex_advance_subgraph-AdvancesIn :
    (s : EdgeStore) (cur : ℕ)
    → IsSwept s
    → s.num_vertices + 1 < 2 ^ 32
    → s.needs_contraction ≤ s.num_vertices
    → AdvancesIn s (vertex_advance_subgraph s cur)
unfolding vertex_advance_subgraph
vertex_advance_subgraph-AdvancesIn s cur swept small le =
    advance_loop-AdvancesIn (s.num_vertices + 1) s cur swept small le (omega arith)
