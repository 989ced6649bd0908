-- ===== src/Dsu/Atomic.antt =====
-- include/dsu.h: DisjointSetUnion_MT as one thread at a time runs it. Its `find_root` is that of
-- the plain set; `merge` links by compare_exchange_weak, which compares equal on a root that no
-- other thread has linked, and may still fail: `failures` counts these spurious failures. The
-- plain search and ordering serve for both classes, whose texts agree.
use graph_zeppelin.Base.{
  ℕ, zero, suc, ◌<◌, ◌≡◌, ◌≢◌, inl, inr, refl, sym, ◌∙◌, ap, arith, true, false, List, Option, some,
  ltb, ◌==◌, if◌then◌else◌, eq-cases,
}
use graph_zeppelin.Dsu.{Dsu, DsuMergeRet, at, order_edge, find_loop, find_root, link, merge, ◌>>=◌}
use graph_zeppelin.Dsu.FindRoot.{IsValid, find_root_lem}
use graph_zeppelin.Dsu.Forest.{IsForest, Root, SameTrees, Root-is_root, Above}
use graph_zeppelin.Dsu.Joined.{IsJoin, merge-IsJoin}
use graph_zeppelin.Dsu.Merge.{link_same, root_before, root-lt, order_edge_cases, link_joined}

-- The loop of `merge`. After a failure the expected value `b` holds what the exchange read, the
-- root `b` itself.
unfoldable pub merge_mt : ℕ → Dsu → ℕ → ℕ → Option (Dsu × DsuMergeRet)
merge_mt zero d u v = do (d1, a) ← find_root d u; (d2, b) ← find_root d1 v; some (link d2 a b)
merge_mt (suc failures) d u v = do
  (d1, a) ← find_root d u
  (d2, b) ← find_root d1 v
  let again = merge_mt failures d2 (order_edge d2.priority a b).0 (order_edge d2.priority a b).1
  if a == b then some (d2, record { merged = false; root = 0; child = 0 }) else again

-- What two searches leave.
record AreRoots (d : Dsu) (u v : ℕ) (ps : List ℕ) (a b : ℕ) : Type 0 where
  forest : IsForest d.n d.priority ps
  trees : SameTrees d.parent ps
  root_u : Root d.parent u a
  root_v : Root d.parent v b
  a_lt : a < d.n
  b_lt : b < d.n

two_searches :
    (d : Dsu) (u v : ℕ)
    → IsValid d
    → u < d.n
    → v < d.n
    → (qs : List ℕ) × (ps : List ℕ) × (a : ℕ) × (b : ℕ) × (find_root d u
        ≡ some (record d { parent = qs }, a))
      × (find_root (record d { parent = qs }) v ≡ some (record d { parent = ps }, b))
      × AreRoots d u v ps a b
two_searches d u v w lu lv =
    let (qs, a, e1, s1) = find_root_lem d u w lu in
    let d1 = record d { parent = qs } in
    let w1 : IsValid d1 = record { forest = s1.forest; drawn = w.drawn } in
    let (ps, b, e2, s2) = find_root_lem d1 v w1 lv in
    let tb = root_before d.n d.priority d.parent qs w.forest s1.trees lv s2.root in
    (
      qs,
      ps,
      a,
      b,
      e1,
      e2,
      record {
        forest = s2.forest;
        trees = λ x r t. s2.trees x r (s1.trees x r t);
        root_u = s1.root;
        root_v = tb;
        a_lt = root-lt d w u a lu s1.root;
        b_lt = root-lt d w v b lv tb;
      },
    )

-- A search from a root ends at once.
find_loop_top :
    (fuel : ℕ) (parent : List ℕ) (u : ℕ)
    → 0 < fuel
    → at parent u ≡ u
    → find_loop fuel parent u ≡ some (parent, u)
unfolding find_loop
find_loop_top zero parent u lt e = absurd (omega arith)
find_loop_top (suc fuel) parent u lt e =
    let again : at parent (at parent u) ≡ at parent u = ap (at parent) e in
    let test : (at parent (at parent u) == at parent u) ≡ true = ground (arith, again) in
    rw (test, e) refl

find_root_top : (d : Dsu) (u : ℕ) → u < d.n → at d.parent u ≡ u → find_root d u ≡ some (d, u)
unfolding find_root
find_root_top d u lt e =
    let test : ltb u d.n ≡ true = ground (arith, lt) in
    rw (test, find_loop_top d.n d.parent u (omega arith) e) refl

-- The two roots in the order in which they are linked.
record AreTops (d : Dsu) (x y : ℕ) : Type 0 where
  x_lt : x < d.n
  y_lt : y < d.n
  x_top : at d.parent x ≡ x
  y_top : at d.parent y ≡ y
  ne : x ≢ y
  ordered : order_edge d.priority x y ≡ (x, y)

merge_mt_tops :
    (failures : ℕ) (d : Dsu) (x y : ℕ) → AreTops d x y → merge_mt failures d x y ≡ some (link d x y)
unfolding merge_mt
merge_mt_tops zero d x y t =
    rw (find_root_top d x t.x_lt t.x_top, find_root_top d y t.y_lt t.y_top) refl
merge_mt_tops (suc failures) d x y t =
    let test : (x == y) ≡ false = ground (arith, t.ne) in
    rw (find_root_top d x t.x_lt t.x_top, find_root_top d y t.y_lt t.y_top, test, t.ordered)
      (merge_mt_tops failures d x y t)

order_first : (prio : List ℕ) (a b : ℕ) → Above prio a b → order_edge prio a b ≡ (a, b)
unfolding order_edge
order_first prio a b above = ground arith

-- The failed round has put the roots in order: the next one links them as this one would have.
linked_later :
    (failures : ℕ) (d : Dsu) (a b : ℕ)
    → a < d.n
    → b < d.n
    → at d.parent a ≡ a
    → at d.parent b ≡ b
    → a ≢ b
    → merge_mt failures d (order_edge d.priority a b).0 (order_edge d.priority a b).1
      ≡ some (link d a b)
linked_later failures d a b la lb ta tb ne = elim (order_edge_cases d.priority a b ne) [
  | inl (e, above) ↦ rw e (
      merge_mt_tops failures d a b
        (record { x_lt = la; y_lt = lb; x_top = ta; y_top = tb; ne = ne; ordered = e }))
  | inr (e, above) ↦
      let first = order_first d.priority b a above in
      let back : b ≢ a = λ p. ne (sym p) in
      rw e (
        merge_mt_tops failures d b a
          (record { x_lt = lb; y_lt = la; x_top = tb; y_top = ta; ne = back; ordered = first })
        ∙ ap some (link_joined d b a b a back first ∙ sym (link_joined d a b b a ne e)))
]

merge-searched :
    (d d1 d2 : Dsu) (u v a b : ℕ)
    → find_root d u ≡ some (d1, a)
    → find_root d1 v ≡ some (d2, b)
    → merge d u v ≡ some (link d2 a b)
unfolding merge
merge-searched d d1 d2 u v a b e1 e2 = rw (e1, e2) refl

merge_mt-merge :
    (failures : ℕ) (d : Dsu) (u v : ℕ)
    → IsValid d
    → u < d.n
    → v < d.n
    → merge_mt failures d u v ≡ merge d u v
unfolding merge_mt
merge_mt-merge zero d u v w lu lv =
    let (qs, ps, a, b, e1, e2, s) = two_searches d u v w lu lv in
    rw (e1, e2) (sym (merge-searched d _ _ u v a b e1 e2))
merge_mt-merge (suc failures) d u v w lu lv =
    let (qs, ps, a, b, e1, e2, s) = two_searches d u v w lu lv in
    let d2 = record d { parent = ps } in
    let ta = Root-is_root (s.trees u a s.root_u) in
    let tb = Root-is_root (s.trees v b s.root_v) in
    let plain = merge-searched d _ _ u v a b e1 e2 in
    elim (eq-cases a b) [
      | inl e ↦
          let test : (a == b) ≡ true = ground (arith, e) in
          rw (e1, e2, test) (ap some (sym (link_same d2 a b e)) ∙ sym plain)
      | inr ne ↦
          let test : (a == b) ≡ false = ground (arith, ne) in
          rw (e1, e2, test) (linked_later failures d2 a b s.a_lt s.b_lt ta tb ne ∙ sym plain)
    ]

-- However often the compare-and-exchange of the atomic set fails spuriously, its `merge` of two
-- vertices of a well-formed set returns, and returns what `merge` of the plain set does: the same
-- parents, and the same merged flag, root and child. It reports a merge exactly if the two were in
-- different sets, and joins these two sets and no others.
pub merge_mt-IsJoin :
    (failures : ℕ) (d : Dsu) (u v : ℕ)
    → IsValid d
    → u < d.n
    → v < d.n
    → (out : Dsu × DsuMergeRet) × (merge_mt failures d u v ≡ some out)
      × (merge d u v ≡ some out)
      × IsJoin d u v out
merge_mt-IsJoin failures d u v w lu lv =
    let (out, e, j) = merge-IsJoin d u v w lu lv in
    (out, merge_mt-merge failures d u v w lu lv ∙ e, e, j)
