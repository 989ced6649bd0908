-- ===== src/Bucket.antt =====
-- include/bucket.h: one bucket of a sketch, and the two hashes of an index. The hash functions
-- are the xxHash library's (include/types.h): a `Hashes` value stands for them.
pub mod Depth
pub mod Group
use graph_zeppelin.Base.{
  ℕ, zero, suc, ◌+◌, ◌/◌, ◌%◌, ◌^◌, Bool, bit_or, bit_xor, ◌==◌, if◌then◌else◌,
}

-- `vec_hash` gives the 64-bit hash of an index under a seed, already cut to `vec_hash_t`, whose
-- width a header outside the repository fixes; `col_hash` the 64-bit one.
pub record Hashes : Type 0 where
  pub vec_hash : ℕ → ℕ → ℕ
  pub col_hash : ℕ → ℕ → ℕ

pub record Bucket : Type 0 where
  pub alpha : ℕ
  pub gamma : ℕ

-- __builtin_ctzll, by the digits from the lowest up. Of 0 the builtin says nothing.
trailing_zeros : ℕ → ℕ → ℕ
trailing_zeros zero x = 0
trailing_zeros (suc digits) x =
    let rest = trailing_zeros digits (x / 2) in if x % 2 == 1 then 0 else suc rest

pub ctzll : ℕ → ℕ
unfolding trailing_zeros
ctzll x = trailing_zeros 64 x

unfoldable pub get_index_depth : Hashes → ℕ → ℕ → ℕ → ℕ
unfolding ctzll
get_index_depth h update_idx seed_and_col max_depth =
    ctzll (bit_or (h.col_hash update_idx seed_and_col) (2 ^ max_depth))

unfoldable pub get_index_hash : Hashes → ℕ → ℕ → ℕ
get_index_hash h update_idx sketch_seed = h.vec_hash update_idx sketch_seed

unfoldable pub is_good : Hashes → Bucket → ℕ → Bool
is_good h bucket sketch_seed = bucket.gamma == get_index_hash h bucket.alpha sketch_seed

unfoldable pub update : Bucket → ℕ → ℕ → Bucket
update bucket update_idx update_hash = record {
  alpha = bit_xor bucket.alpha update_idx;
  gamma = bit_xor bucket.gamma update_hash;
}

-- A zeroed bucket, as the constructors and `zero_contents` leave each.
abbrev pub empty : Bucket
empty = record { alpha = 0; gamma = 0 }
