-- ===== src/Pairing.antt =====
-- src/util.cpp and include/util.h: the functions that pack an edge into one vector index. `u32`
-- and `u64` are the conversions to `node_id_t` and to `edge_id_t` or `ull`.
pub mod Concat
pub mod Triangular
pub mod Examples
use graph_zeppelin.Base.{ℕ, ◌+◌, ◌-◌, ◌*◌, ◌/◌, ◌%◌, ◌^◌, bit_and, bit_or, ltb, ◌==◌, if◌then◌else◌}

abbrev pub u32 : ℕ → ℕ
u32 n = n % 2 ^ 32

abbrev pub u64 : ℕ → ℕ
u64 n = n % 2 ^ 64

-- The two ends of an edge, as the stream format gives them.
pub record Edge : Type 0 where
  pub src : ℕ
  pub dst : ℕ

-- std::swap under the test i > j.
abbrev pub lower : ℕ → ℕ → ℕ
lower i j = if ltb j i then j else i

abbrev pub upper : ℕ → ℕ → ℕ
upper i j = if ltb j i then i else j

unfoldable pub concat_pairing_fn : ℕ → ℕ → ℕ
concat_pairing_fn i j = bit_or (u64 (lower i j * 2 ^ 32)) (upper i j)

unfoldable pub inv_concat_pairing_fn : ℕ → Edge
inv_concat_pairing_fn idx = record { src = u32 (idx / 2 ^ 32); dst = u32 (bit_and idx 0xFFFF_FFFF) }

-- The code after the swap. `j` stays a `node_id_t` through `j *= jm`, while `jm` is 64 bits wide.
pair_ordered : ℕ → ℕ → ℕ
pair_ordered i j =
    let jm = u64 (j + 2 ^ 64 - 1) in
    let even = bit_and j 1 == 0 in
    let j' = if even then j / 2 else j in
    let jm' = if even then jm else jm / 2 in u32 (i + u32 (u64 (j' * jm')))

pub nondirectional_non_self_edge_pairing_fn : ℕ → ℕ → ℕ
nondirectional_non_self_edge_pairing_fn i j = pair_ordered (lower i j) (upper i j)

-- The end of the inverse, with `j` found: the first end is what is left of the index.
ends_from : ℕ → ℕ → Edge
ends_from idx j =
    let jm = u64 (j + 2 ^ 64 - 1) in
    let i =
      if bit_and j 1 == 0
      then u64 (idx + 2 ^ 64 - u64 (j / 2 * jm))
      else u64 (idx + 2 ^ 64 - u64 (j * (jm / 2))) in
    record { src = u32 i; dst = u32 j }

-- `next_root` is the double `sqrt(eidx)+1ull`, of the C library, converted to `ull`.
pub inv_nondir_non_self_edge_pairing_fn : (ℕ → ℕ) → ℕ → Edge
unfolding ends_from
inv_nondir_non_self_edge_pairing_fn next_root idx =
    ends_from idx (next_root (u64 (u64 (8 * idx) + 1)) / 2)
