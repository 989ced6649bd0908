-- ===== src/Base/Bits/Digits.antt =====
-- One equation for the lowest binary digit of each bit operation, and induction on halves.
use Prim.Native.Nat.{
  ℕ, zero, suc, ◌+◌, ◌*◌, ◌/◌, ◌%◌, ◌≤◌, ◌<◌, min, max, bit_and, bit_or, bit_xor, digits, differ,
  bit_and-bitwise, bit_or-bitwise, bit_xor-bitwise,
}
use mathlib.Core.Path.{◌≡◌, refl, ap}
use native.Mathlib.Omega.{arith}

-- Surplus fuel does not change the digits.
digits_surplus :
    (z : ℕ → ℕ) (f : ℕ → ℕ → ℕ) (k a b : ℕ) → a ≤ k → digits z f k a b ≡ digits z f a a b
digits_surplus z f k a b h = go k a a b h (omega arith)
  where
    go : (k m a b : ℕ) → a ≤ k → a ≤ m → digits z f k a b ≡ digits z f m a b
    go zero zero a b p q = refl
    go (suc k) zero zero b p q = refl
    go (suc k) zero (suc a) b p q = absurd (omega arith)
    go zero (suc m) zero b p q = refl
    go zero (suc m) (suc a) b p q = absurd (omega arith)
    go (suc k) (suc m) zero b p q = refl
    go (suc k) (suc m) (suc a) b p q =
        ap (λ t. t * 2 + f (suc a % 2) (b % 2))
          (go k m (suc a / 2) (b / 2) (omega arith) (omega arith))

-- The digits of a positive number: those of its half, then the lowest.
digits-suc :
    (z : ℕ → ℕ) (f : ℕ → ℕ → ℕ) (a b : ℕ)
    → digits z f (suc a) (suc a) b
      ≡ digits z f (suc a / 2) (suc a / 2) (b / 2) * 2 + f (suc a % 2) (b % 2)
digits-suc z f a b =
    ap (λ t. t * 2 + f (suc a % 2) (b % 2)) (digits_surplus z f a (suc a / 2) (b / 2) (omega arith))

differ-bits : (x y : ℕ) → x < 2 → y < 2 → differ x y ≡ (x + y) % 2
differ-bits zero y p q = omega arith
differ-bits (suc zero) zero p q = refl
differ-bits (suc zero) (suc zero) p q = refl
differ-bits (suc zero) (suc (suc y)) p q = absurd (omega arith)
differ-bits (suc (suc x)) y p q = absurd (omega arith)

pub bit_xor_step : (a b : ℕ) → bit_xor a b ≡ bit_xor (a / 2) (b / 2) * 2 + (a + b) % 2
bit_xor_step zero b = omega (arith, bit_xor-bitwise 0 b, bit_xor-bitwise (0 / 2) (b / 2))
bit_xor_step (suc a) b = omega (
  arith,
  bit_xor-bitwise (suc a) b,
  bit_xor-bitwise (suc a / 2) (b / 2),
  digits-suc (λ y. y) differ a b,
  differ-bits (suc a % 2) (b % 2) (omega arith) (omega arith),
)

pub bit_or_step : (a b : ℕ) → bit_or a b ≡ bit_or (a / 2) (b / 2) * 2 + max (a % 2) (b % 2)
bit_or_step zero b = omega (arith, bit_or-bitwise 0 b, bit_or-bitwise (0 / 2) (b / 2))
bit_or_step (suc a) b = omega (
  arith,
  bit_or-bitwise (suc a) b,
  bit_or-bitwise (suc a / 2) (b / 2),
  digits-suc (λ y. y) max a b,
)

pub bit_and_step : (a b : ℕ) → bit_and a b ≡ bit_and (a / 2) (b / 2) * 2 + min (a % 2) (b % 2)
bit_and_step zero b = omega (arith, bit_and-bitwise 0 b, bit_and-bitwise (0 / 2) (b / 2))
bit_and_step (suc a) b = omega (
  arith,
  bit_and-bitwise (suc a) b,
  bit_and-bitwise (suc a / 2) (b / 2),
  digits-suc (λ y. 0) min a b,
)

-- A property of numbers that passes from the half of each positive number to the number holds
-- of all numbers.
pub halves_induction {ℓ} :
    (P : ℕ → Type ℓ) → P 0 → ((a : ℕ) → P (suc a / 2) → P (suc a)) → (a : ℕ) → P a
halves_induction P base half a = go a a (omega arith)
  where
    go : (k a : ℕ) → a ≤ k → P a
    go zero zero h = base
    go zero (suc a) h = absurd (omega arith)
    go (suc k) zero h = base
    go (suc k) (suc a) h = half a (go k (suc a / 2) (omega arith))
