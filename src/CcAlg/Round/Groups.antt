-- ===== src/CcAlg/Round/Groups.antt =====
-- A round as it is meant: the instructions fall into supernodes, and each supernode is sampled
-- once, by the sum of the sketches of its vertices.
use graph_zeppelin.Base.{ℕ, List, [], ◌∷◌, Option, some, lookup, ◌==◌, if◌then◌else◌}
use graph_zeppelin.Bucket.{Hashes}
use graph_zeppelin.CcAlg.Round.{MergeInstr, RoundState, try_sample}
use graph_zeppelin.Dsu.{◌>>=◌}
use graph_zeppelin.Sketch.{Sketch, range_merge}

-- The children of the instructions at the front whose root is `root`, and the supernodes of the
-- instructions after them.
abbrev pub split_groups : ℕ → List MergeInstr → List ℕ × List (ℕ × List ℕ)
split_groups root [] = ([], [])
split_groups root (i ∷ instrs) =
    let rest = split_groups i.root instrs in
    if i.root == root then (i.child ∷ rest.0, rest.1) else ([], (i.root, i.child ∷ rest.0) ∷ rest.1)

-- The supernodes of a list of instructions: its runs of equal roots.
abbrev pub groups : List MergeInstr → List (ℕ × List ℕ)
groups [] = []
groups (i ∷ instrs) = let rest = split_groups i.root instrs in (i.root, i.child ∷ rest.0) ∷ rest.1

-- The sum, for sample `cur_round`, of `local` and the sketches of some vertices.
abbrev pub gather : List Sketch → ℕ → Sketch → List ℕ → Option Sketch
gather sketches cur_round local [] = some local
gather sketches cur_round local (child ∷ children) = lookup sketches child >>= λ skt.
    gather sketches cur_round (range_merge local skt cur_round 1) children

module _ (h : Hashes) (failures : ℕ → ℕ) (cur_round : ℕ) (blank : Sketch) where
  -- Samples one supernode.
  abbrev pub sample_group : ℕ → Sketch → List ℕ → RoundState → Option RoundState
  sample_group root local children st = gather st.alg.sketches cur_round local children >>= λ skt.
      try_sample h (failures root) st skt >>= λ out. some out.0

  abbrev pub sample_groups : List (ℕ × List ℕ) → RoundState → Option RoundState
  sample_groups [] st = some st
  sample_groups ((root, children) ∷ gs) st =
      sample_group root blank children st >>= λ st'. sample_groups gs st'
