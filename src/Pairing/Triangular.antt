-- ===== src/Pairing/Triangular.antt =====
-- The triangular numbering of edges, `i + j*(j-1)/2`.
use graph_zeppelin.Base.{
  ◌∙◌, ℕ, ◌+◌, ◌-◌, ◌*◌, ◌/◌, ◌%◌, ◌^◌, ◌≤◌, ◌<◌, ◌≡◌, ap, arith, Bool-cases, false, eq-cases, zero,
  suc, bit_and, ◌≢◌, inl, inr, ◌==◌,
}
use graph_zeppelin.Base.Bits.Fields.{and_low_mask}
use native.Mathlib.Nat.{mod-eq_of_lt}
use native.Mathlib.Decide.{dec_le, dec_lt}
use graph_zeppelin.Pairing.{
  ends_from, lower, upper, u64, pair_ordered, nondirectional_non_self_edge_pairing_fn,
  inv_nondir_non_self_edge_pairing_fn,
}

-- `next_root` is one more than the integer square root, at x.
abbrev pub IsRootAt : (ℕ → ℕ) → ℕ → Type 0
IsRootAt next_root x =
    (0 < next_root x)
    × ((next_root x - 1) * (next_root x - 1) ≤ x)
    × (x < next_root x * next_root x)

-- Halving the even factor before the product is halving the product.
half_first : (a b : ℕ) → a % 2 ≡ 0 → 2 * (a / 2 * b) ≡ a * b
half_first a b e =
    let whole : a ≡ 2 * (a / 2) = omega arith in omega (arith, ap (λ (t : ℕ). t * b) whole)

half_second : (a b : ℕ) → b % 2 ≡ 0 → 2 * (a * (b / 2)) ≡ a * b
half_second a b e =
    let whole : b ≡ 2 * (b / 2) = omega arith in omega (arith, ap (λ (t : ℕ). a * t) whole)

mask_one : (j : ℕ) → bit_and j 1 ≡ j % 2
mask_one j = and_low_mask 1 j

parity_pred : (j : ℕ) → 0 < j → (bit_and j 1 == 0) ≡ false → (j - 1) % 2 ≡ 0
parity_pred j p e = ground (arith, mask_one j)

-- `j - 1ull` does not wrap for a positive node id.
minus_one : (j : ℕ) → 0 < j → j < 2 ^ 32 → u64 (j + 2 ^ 64 - 1) ≡ j - 1
minus_one j p q = omega arith

-- The result is the number `i + j*(j-1)/2` of the header, cut to 32 bits.
pair_ordered_lem :
    (i j : ℕ) → i < j → j < 2 ^ 32 → pair_ordered i j ≡ (i + j * (j - 1) / 2) % 2 ^ 32
unfolding pair_ordered
pair_ordered_lem i j p q = elim (Bool-cases (bit_and j 1 == 0)) [
  | inl even ↦
      rw (even, minus_one j (omega arith) q)
        (omega (arith, half_first j (j - 1) (ground (arith, mask_one j))))
  | inr odd ↦
      rw (odd, minus_one j (omega arith) q)
        (omega (arith, half_second j (j - 1) (parity_pred j (omega arith) odd)))
]

pub nondirectional_lem :
    (i j : ℕ)
    → i ≢ j
    → i < 2 ^ 32
    → j < 2 ^ 32
    → nondirectional_non_self_edge_pairing_fn i j
      ≡ (lower i j + upper i j * (upper i j - 1) / 2) % 2 ^ 32
unfolding nondirectional_non_self_edge_pairing_fn
nondirectional_lem i j ne p q =
    pair_ordered_lem (lower i j) (upper i j) (ground arith) (ground arith)

square_mono : (a b : ℕ) → a ≤ b → a * a ≤ b * b
square_mono a b h = grind arith

even_product : (k : ℕ) → (suc k * k) / 2 * 2 ≡ suc k * k
even_product k = elim (eq-cases (suc k % 2) 0) [
  | inl e ↦ omega (arith, half_first (suc k) k e)
  | inr e ↦ omega (arith, half_second (suc k) k (omega arith))
]

-- A number from (2k + 1)^2 up to (2k + 3)^2, without its end, has the root 2k + 1 or 2k + 2.
root_between :
    (r k x : ℕ)
    → r * r ≤ x
    → x < (r + 1) * (r + 1)
    → (2 * k + 1) * (2 * k + 1) ≤ x
    → x < (2 * k + 3) * (2 * k + 3)
    → (2 * k + 1 ≤ r) × (r < 2 * k + 3)
root_between r k x p q lo hi = (
  elim (dec_le (2 * k + 1) r) [
    | yes h ↦ h
    | no h ↦ absurd (omega (arith, square_mono (r + 1) (2 * k + 1) (omega arith)))
  ],
  elim (dec_lt r (2 * k + 3)) [
    | yes h ↦ h
    | no h ↦ absurd (omega (arith, square_mono (2 * k + 3) r (omega arith)))
  ],
)

-- The second end is found from the root.
root_index :
    (next_root : ℕ → ℕ) (i k : ℕ)
    → i < suc k
    → IsRootAt next_root (8 * (i + suc k * k / 2) + 1)
    → next_root (8 * (i + suc k * k / 2) + 1) / 2 ≡ suc k
root_index next_root i k p h =
    let x = 8 * (i + suc k * k / 2) + 1 in
    let r = next_root x - 1 in
    let e : next_root x ≡ r + 1 = omega (arith, h.0) in
    let between =
      root_between r k x h.1 (rw e at h.2) (omega (arith, even_product k))
        (omega (arith, even_product k)) in
    omega (arith, e, between.0, between.1)

ends_from_lem :
    (i k : ℕ)
    → i < suc k
    → suc k < 2 ^ 32
    → ends_from (i + suc k * k / 2) (suc k) ≡ record { src = i; dst = suc k }
unfolding ends_from
ends_from_lem i k p q = elim (Bool-cases (bit_and (suc k) 1 == 0)) [
  | inl even ↦
      rw (even, minus_one (suc k) (omega arith) q)
        (ground (arith, half_first (suc k) k (ground (arith, mask_one (suc k)))))
  | inr odd ↦
      rw (odd, minus_one (suc k) (omega arith) q)
        (ground (arith, half_second (suc k) k (ground (arith, mask_one (suc k)))))
]

product_mono : (a b c d : ℕ) → a ≤ b → c ≤ d → a * c ≤ b * d
product_mono a b c d p q = grind arith

-- With ends below 2^31 the argument of the root does not wrap.
radicand-lt : (i k : ℕ) → i < suc k → suc k < 2 ^ 31 → 8 * (i + suc k * k / 2) + 1 < 2 ^ 64
radicand-lt i k p q =
    omega (arith, product_mono (suc k) (2 ^ 31 - 1) k (2 ^ 31 - 2) (omega arith) (omega arith))

second_end :
    (next_root : ℕ → ℕ) (i k : ℕ)
    → i < suc k
    → suc k < 2 ^ 31
    → IsRootAt next_root (8 * (i + suc k * k / 2) + 1)
    → next_root (u64 (u64 (8 * (i + suc k * k / 2)) + 1)) / 2 ≡ suc k
second_end next_root i k p q h =
    let idx = i + suc k * k / 2 in
    let whole : u64 (u64 (8 * idx) + 1) ≡ 8 * idx + 1 = omega (arith, radicand-lt i k p q) in
    rw whole (omega (arith, root_index next_root i k p h))

-- For an edge whose index `i + j*(j-1)/2` keeps the arithmetic within 64 bits, and a square root
-- that is exact there, the inverse of the index is the edge.
pub inv_nondir_triangle :
    (next_root : ℕ → ℕ) (i j : ℕ)
    → i < j
    → j < 2 ^ 31
    → IsRootAt next_root (8 * (i + j * (j - 1) / 2) + 1)
    → inv_nondir_non_self_edge_pairing_fn next_root (i + j * (j - 1) / 2)
      ≡ record { src = i; dst = j }
unfolding inv_nondir_non_self_edge_pairing_fn
inv_nondir_triangle next_root i zero p q h = absurd (omega arith)
inv_nondir_triangle next_root i (suc k) p q h =
    let e : suc k - 1 ≡ k = omega arith in
    rw e (
      ap (ends_from (i + suc k * k / 2)) (second_end next_root i k p q (rw e at h))
      ∙ ends_from_lem i k p (omega arith))

-- The 32-bit code and its 64-bit inverse meet wherever the index fits 32 bits: then the inverse
-- gives back the ends, the smaller one first.
pub inv_nondir-nondirectional :
    (next_root : ℕ → ℕ) (i j : ℕ)
    → i ≢ j
    → i < 2 ^ 31
    → j < 2 ^ 31
    → lower i j + upper i j * (upper i j - 1) / 2 < 2 ^ 32
    → IsRootAt next_root (8 * (lower i j + upper i j * (upper i j - 1) / 2) + 1)
    → inv_nondir_non_self_edge_pairing_fn next_root (nondirectional_non_self_edge_pairing_fn i j)
      ≡ record { src = lower i j; dst = upper i j }
inv_nondir-nondirectional next_root i j ne p q fits h =
    ap (inv_nondir_non_self_edge_pairing_fn next_root)
      (nondirectional_lem i j ne (omega arith) (omega arith) ∙ mod-eq_of_lt fits)
    ∙ inv_nondir_triangle next_root (lower i j) (upper i j) (ground arith) (ground arith) h

-- Where it does not fit, the code does not compute the number that its header promises.
pub nondirectional_wraps :
    (i j : ℕ)
    → i < j
    → j < 2 ^ 32
    → 2 ^ 32 ≤ i + j * (j - 1) / 2
    → nondirectional_non_self_edge_pairing_fn i j ≢ i + j * (j - 1) / 2
nondirectional_wraps i j p q big e = ground (arith, nondirectional_lem i j)
