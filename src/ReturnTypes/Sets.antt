-- ===== src/ReturnTypes/Sets.antt =====
-- src/return_types.cpp: the sets that get_component_sets returns.
use graph_zeppelin.Base.{
  ℕ, zero, suc, ◌+◌, ◌<◌, ◌≡◌, ◌↔◌, inl, inr, refl, sym, ◌∙◌, ap, subst, arith, Bool, true, false,
  ◌&&◌, ◌||◌, List, [], ◌∷◌, map, ltb, leb, ◌==◌, Bool-cases, eq-cases, contains, if_elim,
}
use graph_zeppelin.ReturnTypes.{
  ordered_insert, file_vertex, file_vertices, at, get_component_sets, is_connected,
  ConnectedComponents,
}

-- Whether a vertex is in a set that is filed under the key.
abbrev pub filed : ℕ → ℕ → List (ℕ × List ℕ) → Bool
filed r v [] = false
filed r v ((k, vs) ∷ temp) = (r == k && contains v vs) || filed r v temp

pub contains-ordered_insert :
    (a b : ℕ) (xs : List ℕ) → contains a (ordered_insert b xs) ≡ ((a == b) || contains a xs)
unfolding ordered_insert
contains-ordered_insert a b [] = ground arith
contains-ordered_insert a b (x ∷ xs) = ground (arith, contains-ordered_insert a b xs)

filed-file_vertex :
    (r v root i : ℕ) (temp : List (ℕ × List ℕ))
    → filed r v (file_vertex root i temp) ≡ (((r == root) && (v == i)) || filed r v temp)
unfolding file_vertex
filed-file_vertex r v root i [] = ground arith
filed-file_vertex r v root i ((k, vs) ∷ temp) =
    ground (arith, filed-file_vertex r v root i temp, contains-ordered_insert v i vs)

filed-file_vertices :
    (r v left i : ℕ) (parent_arr : List ℕ) (temp : List (ℕ × List ℕ))
    → filed r v (file_vertices left i parent_arr temp)
      ≡ ((leb i v && ltb v (i + left) && (r == at parent_arr v)) || filed r v temp)
unfolding file_vertices
filed-file_vertices r v zero i parent_arr temp = ground arith
filed-file_vertices r v (suc left) i parent_arr temp =
    filed-file_vertices r v left (i + 1) parent_arr (file_vertex (at parent_arr i) i temp)
    ∙ elim (eq-cases v i) [
      | inl e ↦
          ground (arith, e, filed-file_vertex r v (at parent_arr i) i temp, ap (at parent_arr) e)
      | inr ne ↦ ground (arith, filed-file_vertex r v (at parent_arr i) i temp, ne)
    ]

-- All keys lie above the number.
abbrev Above : ℕ → List (ℕ × List ℕ) → Type 0
Above k [] = Unit
Above k ((r, vs) ∷ temp) = (k < r) × Above k temp

abbrev IsOrdered : List (ℕ × List ℕ) → Type 0
IsOrdered [] = Unit
IsOrdered ((r, vs) ∷ temp) = Above r temp × IsOrdered temp

Above-trans : (j k : ℕ) (temp : List (ℕ × List ℕ)) → j < k → Above k temp → Above j temp
Above-trans j k [] lt h = tt
Above-trans j k ((r, vs) ∷ temp) lt (h, hs) = (omega arith, Above-trans j k temp lt hs)

file_vertex-Above :
    (k root i : ℕ) (temp : List (ℕ × List ℕ))
    → k < root
    → Above k temp
    → Above k (file_vertex root i temp)
unfolding file_vertex
file_vertex-Above k root i [] lt h = (lt, tt)
file_vertex-Above k root i ((r, vs) ∷ temp) lt (h, hs) =
    if_elim (Above k) (root == r) _ _ (λ e. (h, hs))
      (λ e.
        if_elim (Above k) (ltb root r) _ _ (λ l. (lt, (h, hs)))
          (λ l. (h, file_vertex-Above k root i temp lt hs)))

file_vertex-IsOrdered :
    (root i : ℕ) (temp : List (ℕ × List ℕ)) → IsOrdered temp → IsOrdered (file_vertex root i temp)
unfolding file_vertex
file_vertex-IsOrdered root i [] h = (tt, tt)
file_vertex-IsOrdered root i ((r, vs) ∷ temp) (h, hs) =
    if_elim IsOrdered (root == r) _ _ (λ e. (h, hs))
      (λ e.
        if_elim IsOrdered (ltb root r) _ _
          (λ l. ((ground arith, Above-trans root r temp (ground arith) h), (h, hs)))
          (λ l. (
            file_vertex-Above r root i temp (ground arith) h,
            file_vertex-IsOrdered root i temp hs,
          )))

file_vertices-IsOrdered :
    (left i : ℕ) (parent_arr : List ℕ) (temp : List (ℕ × List ℕ))
    → IsOrdered temp
    → IsOrdered (file_vertices left i parent_arr temp)
unfolding file_vertices
file_vertices-IsOrdered zero i parent_arr temp h = h
file_vertices-IsOrdered (suc left) i parent_arr temp h =
    file_vertices-IsOrdered left (i + 1) parent_arr _
      (file_vertex-IsOrdered (at parent_arr i) i temp h)

filed-Above : (r v : ℕ) (temp : List (ℕ × List ℕ)) → Above r temp → filed r v temp ≡ false
filed-Above r v [] h = refl
filed-Above r v ((k, vs) ∷ temp) (h, hs) = ground (arith, h, filed-Above r v temp hs)

-- Whether one of the sets holds both.
abbrev pub together : ℕ → ℕ → List (List ℕ) → Bool
together a b [] = false
together a b (vs ∷ sets) = (contains a vs && contains b vs) || together a b sets

together-filed :
    (r a b : ℕ) (temp : List (ℕ × List ℕ))
    → IsOrdered temp
    → filed r a temp ≡ true
    → filed r b temp ≡ true
    → together a b (map (λ e. e.1) temp) ≡ true
together-filed r a b [] h p q = (let clash = p in ground arith)
together-filed r a b ((k, vs) ∷ temp) (h, hs) p q = elim (eq-cases r k) [
  | inl e ↦ ground (
    arith,
    e,
    p,
    q,
    filed-Above k a temp h,
    filed-Above k b temp h,
    subst (λ j. filed j a temp ≡ false) (sym e) (filed-Above k a temp h),
    subst (λ j. filed j b temp ≡ false) (sym e) (filed-Above k b temp h),
  )
  | inr ne ↦
      ground
        (arith, ne, together-filed r a b temp hs (ground (arith, p, ne)) (ground (arith, q, ne)))
]

filed-together :
    (a b : ℕ) (temp : List (ℕ × List ℕ))
    → together a b (map (λ e. e.1) temp) ≡ true
    → (r : ℕ) × (filed r a temp ≡ true) × (filed r b temp ≡ true)
filed-together a b [] p = (let clash = p in ground arith)
filed-together a b ((k, vs) ∷ temp) p = elim (Bool-cases (contains a vs && contains b vs)) [
  | inl e ↦ (k, ground (arith, e), ground (arith, e))
  | inr e ↦
      let (r, f, g) = filed-together a b temp (ground (arith, p, e)) in
      (r, ground (arith, f), ground (arith, g))
]

-- Two of the vertices are in one of the sets that get_component_sets returns exactly if they are
-- connected in the answer.
pub get_component_sets-is_connected :
    (c : ConnectedComponents) (a b : ℕ)
    → a < c.num_vertices
    → b < c.num_vertices
    → (together a b (get_component_sets c) ≡ true) ↔ (is_connected c a b ≡ true)
unfolding get_component_sets is_connected
get_component_sets-is_connected c a b la lb =
    let temp = file_vertices c.num_vertices 0 c.parent_arr [] in
    let in_set = λ (r v : ℕ). filed-file_vertices r v c.num_vertices 0 c.parent_arr [] in
    (
      λ p.
          let (r, f, g) = filed-together a b temp p in ground (arith, f, g, in_set r a, in_set r b),
      λ p.
          let r = at c.parent_arr a in
          together-filed r a b temp (file_vertices-IsOrdered c.num_vertices 0 c.parent_arr [] tt)
            (ground (arith, in_set r a, la)) (ground (arith, in_set r b, lb, p)),
    )
