-- ===== src/Pairing/Concat.antt =====
-- `concat_pairing_fn` packs the two ends of an edge, and loses neither.
use graph_zeppelin.Base.{
  ℕ, ◌+◌, ◌*◌, ◌≤◌, ◌<◌, ◌≡◌, ◌⊎◌, ◌↔◌, inl, inr, ◌∙◌, ap, arith, ◌/◌, ◌%◌, ◌^◌, bit_or,
}
use mathlib.Core.Path.{ap₂}
use graph_zeppelin.Base.Bits.Fields.{or_shifted, and_low_mask}
use graph_zeppelin.Pairing.{lower, upper, u64, concat_pairing_fn, inv_concat_pairing_fn}

pub lower-le : (i j : ℕ) → lower i j ≤ upper i j
lower-le i j = ground arith

pub concat_as_sum :
    (i j : ℕ) → i < 2 ^ 32 → j < 2 ^ 32 → concat_pairing_fn i j ≡ lower i j * 2 ^ 32 + upper i j
unfolding concat_pairing_fn
concat_as_sum i j p q =
    let hi : lower i j < 2 ^ 32 = ground arith in
    let lo : upper i j < 2 ^ 32 = ground arith in
    let whole : u64 (lower i j * 2 ^ 32) ≡ lower i j * 2 ^ 32 = omega arith in
    ap (λ t. bit_or t (upper i j)) whole ∙ or_shifted 32 (lower i j) (upper i j) lo

inv_as_fields :
    (idx : ℕ)
    → inv_concat_pairing_fn idx ≡ record { src = idx / 2 ^ 32 % 2 ^ 32; dst = idx % 2 ^ 32 }
unfolding inv_concat_pairing_fn
inv_as_fields idx = ground (arith, and_low_mask 32 idx)

-- For two node ids the inverse gives them back, the smaller one as the source.
pub inv_concat-concat :
    (i j : ℕ)
    → i < 2 ^ 32
    → j < 2 ^ 32
    → inv_concat_pairing_fn (concat_pairing_fn i j) ≡ record { src = lower i j; dst = upper i j }
inv_concat-concat i j p q =
    ground (arith, inv_as_fields (concat_pairing_fn i j), concat_as_sum i j p q)

-- A 64-bit index whose upper half does not exceed its lower half is the index of an edge:
-- packing the ends that the inverse reads gives it back.
pub concat-inv_concat :
    (idx : ℕ)
    → idx < 2 ^ 64
    → (inv_concat_pairing_fn idx).src ≤ (inv_concat_pairing_fn idx).dst
    → concat_pairing_fn (inv_concat_pairing_fn idx).src (inv_concat_pairing_fn idx).dst ≡ idx
concat-inv_concat idx p q = ground (
  arith,
  inv_as_fields idx,
  concat_as_sum (inv_concat_pairing_fn idx).src (inv_concat_pairing_fn idx).dst,
)

pub concat_comm :
    (i j : ℕ) → i < 2 ^ 32 → j < 2 ^ 32 → concat_pairing_fn i j ≡ concat_pairing_fn j i
concat_comm i j p q = ground (arith, concat_as_sum i j p q, concat_as_sum j i q p)

-- Two edges over node ids have one index exactly if they have the same ends, in either order.
pub concat_injective :
    (i j k l : ℕ)
    → i < 2 ^ 32
    → j < 2 ^ 32
    → k < 2 ^ 32
    → l < 2 ^ 32
    → (concat_pairing_fn i j ≡ concat_pairing_fn k l) ↔ (((i ≡ k) × (j ≡ l)) ⊎ ((i ≡ l) × (j ≡ k)))
concat_injective i j k l p q r s = (
  λ e. ground (arith, concat_as_sum i j p q, concat_as_sum k l r s),
  λ ends. elim ends [
    | inl (e, e') ↦ ap₂ concat_pairing_fn e e'
    | inr (e, e') ↦ ap₂ concat_pairing_fn e e' ∙ concat_comm l k s r
  ],
)

pub concat-lt : (i j : ℕ) → i < 2 ^ 32 → j < 2 ^ 32 → concat_pairing_fn i j < 2 ^ 64
concat-lt i j p q = ground (arith, concat_as_sum i j p q)
