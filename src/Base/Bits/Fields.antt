-- ===== src/Base/Bits/Fields.antt =====
-- `|` of fields that do not overlap, `&` with a mask of low ones, and the count of trailing zeros.
use Prim.Native.Nat.{ℕ, zero, suc, ◌+◌, ◌-◌, ◌*◌, ◌/◌, ◌%◌, ◌^◌, ◌<◌, bit_and, bit_or}
use mathlib.Core.Path.{◌≡◌, refl, ap, ap₂, sym, ◌∙◌}
use native.Mathlib.Omega.{arith}
use native.Mathlib.Nat.{pow-suc, one-le-pow, div-add-mod', mod-lt}
use graph_zeppelin.Base.Bits.Digits.{bit_or_step, bit_and_step, halves_induction}

pub or-zero : (a : ℕ) → bit_or a 0 ≡ a
or-zero =
    halves_induction (λ a. bit_or a 0 ≡ a) refl λ a ih. omega (arith, bit_or_step (suc a) 0, ih)

and-zero : (a : ℕ) → bit_and a 0 ≡ 0
and-zero =
    halves_induction (λ a. bit_and a 0 ≡ 0) refl λ a ih. omega (arith, bit_and_step (suc a) 0, ih)

-- A field above k bits, joined with one of k bits, is their sum.
pub or_shifted : (k hi lo : ℕ) → lo < 2 ^ k → bit_or (hi * 2 ^ k) lo ≡ hi * 2 ^ k + lo
or_shifted zero hi lo h = ground (arith, or-zero hi)
or_shifted (suc k) hi lo h =
    let double : hi * 2 ^ suc k ≡ 2 * (hi * 2 ^ k) =
      omega (arith, ap (λ (t : ℕ). hi * t) (pow-suc 2 k)) in
    let half : hi * 2 ^ suc k / 2 ≡ hi * 2 ^ k = omega arith in
    omega (
      arith,
      bit_or_step (hi * 2 ^ suc k) lo,
      ap (λ t. bit_or t (lo / 2)) half,
      or_shifted k hi (lo / 2) (omega (arith, pow-suc 2 k)),
    )

-- A mask of k ones takes the field of k bits off its word.
and_mask_fields : (k hi lo : ℕ) → lo < 2 ^ k → bit_and (hi * 2 ^ k + lo) (2 ^ k - 1) ≡ lo
and_mask_fields zero hi lo h = omega (arith, and-zero (hi * 2 ^ zero + lo))
and_mask_fields (suc k) hi lo h =
    let double : hi * 2 ^ suc k ≡ 2 * (hi * 2 ^ k) =
      omega (arith, ap (λ (t : ℕ). hi * t) (pow-suc 2 k)) in
    let word : (hi * 2 ^ suc k + lo) / 2 ≡ hi * 2 ^ k + lo / 2 = omega arith in
    let mask : (2 ^ suc k - 1) / 2 ≡ 2 ^ k - 1 = omega (arith, pow-suc 2 k, one-le-pow k 2) in
    omega (
      arith,
      pow-suc 2 k,
      one-le-pow k 2 (omega arith),
      bit_and_step (hi * 2 ^ suc k + lo) (2 ^ suc k - 1),
      ap₂ bit_and word mask,
      and_mask_fields k hi (lo / 2) (omega (arith, pow-suc 2 k)),
    )

-- So it keeps the k low bits.
pub and_low_mask : (k a : ℕ) → bit_and a (2 ^ k - 1) ≡ a % 2 ^ k
and_low_mask k a =
    ap (λ t. bit_and t (2 ^ k - 1)) (sym (div-add-mod' a (2 ^ k)))
    ∙ and_mask_fields k (a / 2 ^ k) (a % 2 ^ k) (mod-lt a (one-le-pow k 2 (omega arith)))
