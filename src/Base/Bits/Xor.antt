-- ===== src/Base/Bits/Xor.antt =====
-- Exclusive or is an abelian group of exponent two, on the words of each width.
use Prim.Native.Nat.{ℕ, zero, suc, ◌+◌, ◌/◌, ◌%◌, ◌^◌, ◌<◌, bit_xor}
use mathlib.Core.Path.{◌≡◌, refl, ◌∙◌, ap, sym}
use native.Mathlib.Omega.{arith}
use native.Mathlib.Nat.{pow-suc}
use graph_zeppelin.Base.Bits.Digits.{bit_xor_step, halves_induction}

xor_half : (a b : ℕ) → bit_xor a b / 2 ≡ bit_xor (a / 2) (b / 2)
xor_half a b = omega (arith, bit_xor_step a b)

xor_parity : (a b : ℕ) → bit_xor a b % 2 ≡ (a + b) % 2
xor_parity a b = omega (arith, bit_xor_step a b)

pub zero-xor : (b : ℕ) → bit_xor 0 b ≡ b
zero-xor =
    halves_induction (λ b. bit_xor 0 b ≡ b) refl λ b ih. omega (arith, bit_xor_step 0 (suc b), ih)

pub xor_self : (a : ℕ) → bit_xor a a ≡ 0
xor_self =
    halves_induction (λ a. bit_xor a a ≡ 0) refl
      λ a ih. omega (arith, bit_xor_step (suc a) (suc a), ih)

pub xor-zero : (a : ℕ) → bit_xor a 0 ≡ a
xor-zero =
    halves_induction (λ a. bit_xor a 0 ≡ a) refl λ a ih. omega (arith, bit_xor_step (suc a) 0, ih)

pub xor_comm : (a b : ℕ) → bit_xor a b ≡ bit_xor b a
xor_comm =
    halves_induction (λ a. (b : ℕ) → bit_xor a b ≡ bit_xor b a) (λ b. zero-xor b ∙ sym (xor-zero b))
      λ a ih b. omega (arith, bit_xor_step (suc a) b, bit_xor_step b (suc a), ih (b / 2))

pub xor_assoc : (a b c : ℕ) → bit_xor (bit_xor a b) c ≡ bit_xor a (bit_xor b c)
xor_assoc =
    halves_induction (λ a. (b c : ℕ) → bit_xor (bit_xor a b) c ≡ bit_xor a (bit_xor b c))
      (λ b c. ap (λ t. bit_xor t c) (zero-xor b) ∙ sym (zero-xor (bit_xor b c)))
      λ a ih b c. omega (
        arith,
        bit_xor_step (bit_xor (suc a) b) c,
        bit_xor_step (suc a) (bit_xor b c),
        ap (λ t. bit_xor t (c / 2)) (xor_half (suc a) b),
        ap (bit_xor (suc a / 2)) (xor_half b c),
        xor_parity (suc a) b,
        xor_parity b c,
        ih (b / 2) (c / 2),
      )

pub xor_left_comm : (a b c : ℕ) → bit_xor a (bit_xor b c) ≡ bit_xor b (bit_xor a c)
xor_left_comm a b c = sym (xor_assoc a b c) ∙ ap (λ t. bit_xor t c) (xor_comm a b) ∙ xor_assoc b a c

pub xor_cancel : (a b : ℕ) → bit_xor (bit_xor a b) b ≡ a
xor_cancel a b = xor_assoc a b b ∙ ap (bit_xor a) (xor_self b) ∙ xor-zero a

-- The exclusive or of two words of k bits is a word of k bits.
pub xor-lt : (k a b : ℕ) → a < 2 ^ k → b < 2 ^ k → bit_xor a b < 2 ^ k
xor-lt zero zero zero p q = omega arith
xor-lt zero zero (suc b) p q = absurd (omega arith)
xor-lt zero (suc a) b p q = absurd (omega arith)
xor-lt (suc k) a b p q = omega (
  arith,
  pow-suc 2 k,
  bit_xor_step a b,
  xor-lt k (a / 2) (b / 2) (omega (arith, pow-suc 2 k)) (omega (arith, pow-suc 2 k)),
)
