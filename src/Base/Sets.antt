-- ===== src/Base/Sets.antt =====
-- Sets of numbers as lists, and arrays that are read or altered at one place.
use Prim.Native.Nat.{ℕ, zero, suc, ◌<◌}
use mathlib.Core.Path.{◌≡◌, refl, ap, sym}
use mathlib.Core.Bool.{Bool, true, false}
use mathlib.Core.Logic.{◌≢◌}
use mathlib.Core.Option.{Option, none, some}
use mathlib.Core.List.{List, [], ◌∷◌}
use native.Mathlib.Omega.{arith}
use graph_zeppelin.Base.Lists.{replicate, length, set}
use graph_zeppelin.Base.Tests.{some_eq, ◌==◌, if◌then◌else◌}

-- std::unordered_set::insert.
abbrev pub set_insert : ℕ → List ℕ → List ℕ
set_insert a [] = a ∷ []
set_insert a (x ∷ xs) = if a == x then x ∷ xs else x ∷ set_insert a xs

-- Whether std::unordered_set::find finds the number.
abbrev pub contains : ℕ → List ℕ → Bool
contains a [] = false
contains a (x ∷ xs) = if a == x then true else contains a xs

pub contains-set_insert :
    (a b : ℕ) (xs : List ℕ)
    → contains a (set_insert b xs) ≡ (if a == b then true else contains a xs)
contains-set_insert a b [] = refl
contains-set_insert a b (x ∷ xs) = ground (arith, contains-set_insert a b xs)

module _ {ℓ} {A : Type ℓ} where
  abbrev pub lookup : List A → ℕ → Option A
  lookup [] i = none
  lookup (x ∷ xs) zero = some x
  lookup (x ∷ xs) (suc i) = lookup xs i

  pub lookup-some : (xs : List A) (i : ℕ) → i < length xs → (x : A) × (lookup xs i ≡ some x)
  lookup-some [] i lt = absurd (omega arith)
  lookup-some (x ∷ xs) zero lt = (x, refl)
  lookup-some (x ∷ xs) (suc i) lt = lookup-some xs i (omega arith)

  abbrev pub alter : List A → ℕ → (A → A) → List A
  alter [] i f = []
  alter (x ∷ xs) zero f = f x ∷ xs
  alter (x ∷ xs) (suc i) f = x ∷ alter xs i f

  pub length-alter : (xs : List A) (i : ℕ) (f : A → A) → length (alter xs i f) ≡ length xs
  length-alter [] i f = refl
  length-alter (x ∷ xs) zero f = refl
  length-alter (x ∷ xs) (suc i) f = ap suc (length-alter xs i f)

  none_ne : {x : A} → none ≡ some x → ⊥
  none_ne e = cc

  -- Writing the altered element back is altering it.
  pub set-lookup :
      (xs : List A) (i : ℕ) (x : A) (f : A → A)
      → lookup xs i ≡ some x
      → set xs i (f x) ≡ alter xs i f
  set-lookup [] i x f e = refl
  set-lookup (y ∷ xs) zero x f e = ap (λ t. f t ∷ xs) (sym (some_eq e))
  set-lookup (y ∷ xs) (suc i) x f e = ap (◌∷◌ y) (set-lookup xs i x f e)

  pub lookup-replicate : (n i : ℕ) (x y : A) → lookup (replicate n x) i ≡ some y → y ≡ x
  lookup-replicate zero i x y e = absurd (none_ne e)
  lookup-replicate (suc n) zero x y e = sym (some_eq e)
  lookup-replicate (suc n) (suc i) x y e = lookup-replicate n i x y e

  pub lookup-set_self :
      (xs : List A) (i : ℕ) (x y : A) → lookup xs i ≡ some x → lookup (set xs i y) i ≡ some y
  lookup-set_self [] i x y e = absurd (none_ne e)
  lookup-set_self (z ∷ xs) zero x y e = refl
  lookup-set_self (z ∷ xs) (suc i) x y e = lookup-set_self xs i x y e

  pub lookup-set_ne : (xs : List A) (i j : ℕ) (y : A) → i ≢ j → lookup (set xs i y) j ≡ lookup xs j
  lookup-set_ne [] i j y ne = refl
  lookup-set_ne (z ∷ xs) zero zero y ne = absurd (ne refl)
  lookup-set_ne (z ∷ xs) zero (suc j) y ne = refl
  lookup-set_ne (z ∷ xs) (suc i) zero y ne = refl
  lookup-set_ne (z ∷ xs) (suc i) (suc j) y ne = lookup-set_ne xs i j y (λ e. ne (ap suc e))
