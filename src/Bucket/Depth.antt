-- ===== src/Bucket/Depth.antt =====
-- The depth of an index: the trailing zeros of its hash, cut at the maximal depth.
use graph_zeppelin.Base.{
  ℕ, zero, suc, ◌+◌, ◌*◌, ◌/◌, ◌%◌, ◌^◌, ◌≤◌, ◌<◌, ◌≡◌, ◌↔◌, ◌∙◌, ap, arith, bit_or,
}
use native.Mathlib.Nat.{
  pow-suc, one-le-pow, div-add-mod', mod-lt, mul-add-mod_self_right, mod-eq_of_lt,
}
use graph_zeppelin.Base.Bits.Digits.{bit_or_step}
use graph_zeppelin.Bucket.{Hashes, trailing_zeros, get_index_depth}

-- One digit more.
or_power_step : (x m : ℕ) → bit_or x (2 ^ suc m) ≡ bit_or (x / 2) (2 ^ m) * 2 + x % 2
or_power_step x m =
    let half : 2 ^ suc m / 2 ≡ 2 ^ m = omega (arith, pow-suc 2 m) in
    omega (arith, pow-suc 2 m, bit_or_step x (2 ^ suc m), ap (bit_or (x / 2)) half)

or_one-odd : (x : ℕ) → bit_or x (2 ^ 0) % 2 ≡ 1
or_one-odd x = omega (arith, bit_or_step x (2 ^ 0))

-- The marker bit bounds the count, whatever the hash.
trailing_zeros-le : (d x m : ℕ) → trailing_zeros d (bit_or x (2 ^ m)) ≤ m
unfolding trailing_zeros
trailing_zeros-le zero x m = omega arith
trailing_zeros-le (suc d) x zero = ground (arith, or_one-odd x)
trailing_zeros-le (suc d) x (suc m) =
    let half : bit_or x (2 ^ suc m) / 2 ≡ bit_or (x / 2) (2 ^ m) =
      omega (arith, or_power_step x m) in
    rw half (ground (arith, trailing_zeros-le d (x / 2) m))

-- The depth never exceeds the maximal depth that the caller gives.
pub get_index_depth-le :
    (h : Hashes) (x seed max_depth : ℕ) → get_index_depth h x seed max_depth ≤ max_depth
unfolding get_index_depth
get_index_depth-le h x seed max_depth = trailing_zeros-le 64 (h.col_hash x seed) max_depth

-- The low digits of a number: those of its half, then the lowest.
mod_pow_suc : (x k : ℕ) → x % 2 ^ suc k ≡ x / 2 % 2 ^ k * 2 + x % 2
mod_pow_suc x k =
    let q = x / 2 / 2 ^ k in
    let r = x / 2 % 2 ^ k * 2 + x % 2 in
    let whole : x ≡ q * 2 ^ suc k + r =
      omega (arith, div-add-mod' (x / 2) (2 ^ k), ap (λ (t : ℕ). q * t) (pow-suc 2 k)) in
    let small : r < 2 ^ suc k =
      omega (arith, pow-suc 2 k, mod-lt (x / 2) (one-le-pow k 2 (omega arith))) in
    ap (λ t. t % 2 ^ suc k) whole ∙ mul-add-mod_self_right q (2 ^ suc k) r ∙ mod-eq_of_lt small

-- The count reaches k exactly if k digits of the hash are zero, for k up to the marker.
trailing_zeros-ge_iff :
    (d x m k : ℕ) → k ≤ m → m < d → (k ≤ trailing_zeros d (bit_or x (2 ^ m))) ↔ (x % 2 ^ k ≡ 0)
unfolding trailing_zeros
trailing_zeros-ge_iff zero x m k p q = absurd (omega arith)
trailing_zeros-ge_iff (suc d) x m zero p q = (λ _. omega arith, λ _. omega arith)
trailing_zeros-ge_iff (suc d) x zero (suc k) p q = absurd (omega arith)
trailing_zeros-ge_iff (suc d) x (suc m) (suc k) p q =
    let half : bit_or x (2 ^ suc m) / 2 ≡ bit_or (x / 2) (2 ^ m) =
      omega (arith, or_power_step x m) in
    rw half (
      ground (
        arith,
        or_power_step x m,
        mod_pow_suc x k,
        trailing_zeros-ge_iff d (x / 2) m k (omega arith) (omega arith),
      ))

-- The depth reaches k exactly if the k low digits of the column's hash are zero: an index lands
-- at depth k or deeper with the share 2^-k of the hashes.
pub get_index_depth-ge_iff :
    (h : Hashes) (x seed max_depth k : ℕ)
    → k ≤ max_depth
    → max_depth < 64
    → (k ≤ get_index_depth h x seed max_depth) ↔ (h.col_hash x seed % 2 ^ k ≡ 0)
unfolding get_index_depth
get_index_depth-ge_iff h x seed max_depth k p q =
    trailing_zeros-ge_iff 64 (h.col_hash x seed) max_depth k p q
