-- ===== src/Dsu.antt =====
-- include/dsu.h: the disjoint set union of one thread. `priority` holds the draws of the
-- generator, which the constructor takes as an argument. `none` stands for a failed assertion:
-- no read is out of range where the assertions hold. The assertions of `merge` on the roots that
-- it found repeat what holds of a well-formed set, and are left out. `Dsu.Atomic` models the
-- atomic variant.
pub mod Forest
pub mod Rank
pub mod FindRoot
pub mod Merge
pub mod Joined
pub mod Reset
pub mod Components
pub mod Atomic
pub mod Examples
use graph_zeppelin.Base.{
  ℕ, zero, suc, ◌+◌, Bool, true, false, List, [], ◌∷◌, Option, none, some, ltb, ◌==◌, ◌&&◌,
  if◌then◌else◌, get_or, set,
}

pub record DsuMergeRet : Type 0 where
  pub merged : Bool
  pub root : ℕ
  pub child : ℕ

pub record Dsu : Type 0 where
  pub n : ℕ
  pub parent : List ℕ
  pub priority : List ℕ

-- a[u] of an array of node ids.
abbrev pub at : List ℕ → ℕ → ℕ
at a u = get_or a u 0

identity_from : ℕ → ℕ → List ℕ
identity_from zero i = []
identity_from (suc left) i = i ∷ identity_from left (i + 1)

draws_from : (ℕ → ℕ) → ℕ → ℕ → List ℕ
draws_from prio_gen zero i = []
draws_from prio_gen (suc left) i = prio_gen i ∷ draws_from prio_gen left (i + 1)

-- `prio_gen i` is draw `i` of the Mersenne twister, cut to the width of T.
unfoldable pub new_dsu : (ℕ → ℕ) → ℕ → Dsu
unfolding identity_from draws_from
new_dsu prio_gen n = record {
  n = n;
  parent = identity_from n 0;
  priority = draws_from prio_gen n 0;
}

-- The pair (a, b) after both swaps: `a` is to be the root.
unfoldable pub order_edge : List ℕ → ℕ → ℕ → ℕ × ℕ
order_edge priority a b =
    let tie = at priority a == at priority b && ltb b a in
    let a' = if tie then b else a in
    let b' = if tie then a else b in
    let less = ltb (at priority a') (at priority b') in
    (if less then b' else a', if less then a' else b')

-- The loop of `find_root`, with path halving.
unfoldable pub find_loop : ℕ → List ℕ → ℕ → Option (List ℕ × ℕ)
find_loop zero parent u = none
find_loop (suc fuel) parent u =
    let halved = set parent u (at parent (at parent u)) in
    let rest = find_loop fuel halved (at halved u) in
    if at parent (at parent u) == at parent u then some (parent, at parent u) else rest

infixl 5 ◌>>=◌
abbrev pub ◌>>=◌ : {A B : Type 0} → Option A → (A → Option B) → Option B
none >>= f = none
some a >>= f = f a

-- A vertex climbs at most `n` times.
unfoldable pub find_root : Dsu → ℕ → Option (Dsu × ℕ)
find_root d u =
    let searched = find_loop d.n d.parent u in
    if ltb u d.n then (do (ps, r) ← searched; some (record d { parent = ps }, r)) else none

-- `merge` with both roots found.
unfoldable pub link : Dsu → ℕ → ℕ → Dsu × DsuMergeRet
link d a b =
    let (root, child) = order_edge d.priority a b in
    if a == b then (d, record { merged = false; root = 0; child = 0 }) else (
      record d { parent = set d.parent child root },
      record { merged = true; root = root; child = child },
    )

unfoldable pub merge : Dsu → ℕ → ℕ → Option (Dsu × DsuMergeRet)
unfolding link
merge d u v = do (d1, a) ← find_root d u; (d2, b) ← find_root d1 v; some (link d2 a b)

reset_loop : ℕ → ℕ → List ℕ → List ℕ
reset_loop zero i parent = parent
reset_loop (suc left) i parent = reset_loop left (i + 1) (set parent i i)

unfoldable pub reset : Dsu → Dsu
unfolding reset_loop
reset d = record d { parent = reset_loop d.n 0 d.parent }
