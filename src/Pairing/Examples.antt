-- ===== src/Pairing/Examples.antt =====
-- Tests of the pairing functions at small inputs.
use graph_zeppelin.Base.{ℕ, ◌+◌, ◌-◌, ◌*◌, ◌≡◌, ◌≢◌, ◌⊎◌, ◌↔◌, refl, arith, ◌/◌, ◌^◌}
use graph_zeppelin.Pairing.{
  concat_pairing_fn, inv_concat_pairing_fn, nondirectional_non_self_edge_pairing_fn,
  inv_nondir_non_self_edge_pairing_fn,
}
use graph_zeppelin.Pairing.Concat.{inv_concat-concat, concat-inv_concat, concat_injective}
use graph_zeppelin.Pairing.Triangular.{nondirectional_wraps, inv_nondir-nondirectional}

concat_runs : concat_pairing_fn 7 5 ≡ 5 * 2 ^ 32 + 7
unfolding concat_pairing_fn
concat_runs = refl

inv_concat_runs : inv_concat_pairing_fn (5 * 2 ^ 32 + 7) ≡ record { src = 5; dst = 7 }
unfolding inv_concat_pairing_fn
inv_concat_runs = refl

inv_concat-concat_example :
    inv_concat_pairing_fn (concat_pairing_fn 7 5) ≡ record { src = 5; dst = 7 }
inv_concat-concat_example = inv_concat-concat 7 5 (omega arith) (omega arith)

concat-inv_concat_example :
    concat_pairing_fn
      (inv_concat_pairing_fn (5 * 2 ^ 32 + 7)).src
      (inv_concat_pairing_fn (5 * 2 ^ 32 + 7)).dst
    ≡ 5 * 2 ^ 32 + 7
unfolding inv_concat_pairing_fn
concat-inv_concat_example = concat-inv_concat (5 * 2 ^ 32 + 7) (omega arith) (omega arith)

concat_injective_example :
    (concat_pairing_fn 7 5 ≡ concat_pairing_fn 5 7)
    ↔ ((◌≡◌ {A = ℕ} 7 5 × ◌≡◌ {A = ℕ} 5 7) ⊎ (◌≡◌ {A = ℕ} 7 7 × ◌≡◌ {A = ℕ} 5 5))
concat_injective_example =
    concat_injective 7 5 5 7 (omega arith) (omega arith) (omega arith) (omega arith)

-- The root at the one argument that the example needs.
abbrev root_of : ℕ → ℕ
root_of x = 8

inv_nondir-nondirectional_example :
    inv_nondir_non_self_edge_pairing_fn root_of (nondirectional_non_self_edge_pairing_fn 4 1)
    ≡ record { src = 1; dst = 4 }
inv_nondir-nondirectional_example =
    inv_nondir-nondirectional root_of 4 1 (omega arith) (omega arith) (omega arith) (omega arith)
      (omega arith)

nondirectional_wraps_example :
    nondirectional_non_self_edge_pairing_fn 0 100000 ≢ 0 + 100000 * (100000 - 1) / 2
nondirectional_wraps_example =
    nondirectional_wraps 0 100000 (omega arith) (omega arith) (omega arith)
