-- ===== src/McAlg/Places.antt =====
-- src/mc_sketch_alg.cpp: the places of the sketches in the array. Distinct vertices and graphs have
-- distinct places.
use graph_zeppelin.Base.{
  ℕ, ◌+◌, ◌*◌, ◌≤◌, ◌<◌, ◌≡◌, ◌≢◌, inl, inr, sym, ◌∙◌, ap, arith, List, Option, none, some, lookup,
  Option-cases, set, lookup-set_ne, lookup-set_self, ◌^◌,
}
use graph_zeppelin.McAlg.{sketch_at, ◌>>=◌}
use graph_zeppelin.Pairing.{u32}
use graph_zeppelin.Sketch.{Sketch}

pub place_graph : (n g g' j j' : ℕ) → j < n → j' < n → g * n + j ≡ g' * n + j' → g ≡ g'
place_graph n g g' j j' lt lt' e = grind arith

pub place_injective :
    (n g g' j j' : ℕ) → j < n → j' < n → g * n + j ≡ g' * n + j' → (g ≡ g') × (j ≡ j')
place_injective n g g' j j' lt lt' e =
    let s = place_graph n g g' j j' lt lt' e in (s, omega (arith, e, ap (λ k. k * n) s))

pub graph_fits : (n g max : ℕ) → g < max → g * n + n ≤ n * max
graph_fits n g max lt = grind arith

-- The index of a vertex does not wrap around where the whole array is below 2 ^ 32.
pub place_small : (n max g j : ℕ) → n * max < 2 ^ 32 → g < max → j < n → u32 (g * n + j) ≡ g * n + j
place_small n max g j small lg lj = omega (arith, graph_fits n g max lg, small, lj)

none-some : {x : Sketch} → none ≡ some x → ⊥
none-some e = cc

pub sketch_at-set_self :
    (sketches : List (Option Sketch)) (i : ℕ) (skt skt' : Sketch)
    → sketch_at sketches i ≡ some skt
    → sketch_at (set sketches i (some skt')) i ≡ some skt'
unfolding sketch_at
sketch_at-set_self sketches i skt skt' e = elim (Option-cases (lookup sketches i)) [
  | inl none_at ↦ absurd (none-some (sym (ap (λ r. r >>= λ s. s) none_at) ∙ e))
  | inr (o, some_at) ↦ ap (λ r. r >>= λ s. s) (lookup-set_self sketches i o (some skt') some_at)
]

pub sketch_at-set_ne :
    (sketches : List (Option Sketch)) (i j : ℕ) (o : Option Sketch)
    → i ≢ j
    → sketch_at (set sketches i o) j ≡ sketch_at sketches j
unfolding sketch_at
sketch_at-set_ne sketches i j o ne = ap (λ r. r >>= λ s. s) (lookup-set_ne sketches i j o ne)
