-- ===== src/Sketch/Vector.antt =====
-- The vector over GF(2) that a list of point updates builds, and sums of buckets over a list:
-- the specification of a sketch.
use graph_zeppelin.Base.{
  ℕ, zero, suc, ◌≤◌, ◌≡◌, refl, ap, ◌∙◌, sym, arith, List, [], ◌∷◌, ◌++◌, Bool, true, false, not,
  ◌==◌, if◌then◌else◌, length,
}
use graph_zeppelin.Bucket.{Bucket, empty}
use graph_zeppelin.Bucket.Group.{◌⊕◌, ⊕_assoc, ⊕-empty, empty-⊕, ⊕_cancel, ⊕_left_comm}

-- Coordinate `a` after the updates `xs` of a zero vector: each update of `a` flips it.
abbrev pub bit_of : ℕ → List ℕ → Bool
bit_of a [] = false
bit_of a (x ∷ xs) = if a == x then not (bit_of a xs) else bit_of a xs

-- The sum of what each update adds.
abbrev pub total : (ℕ → Bucket) → List ℕ → Bucket
total f [] = empty
total f (x ∷ xs) = f x ⊕ total f xs

pub total-append : (f : ℕ → Bucket) (xs ys : List ℕ) → total f (xs ++ ys) ≡ total f xs ⊕ total f ys
total-append f [] ys = sym (empty-⊕ (total f ys))
total-append f (x ∷ xs) ys =
    ap (◌⊕◌ (f x)) (total-append f xs ys) ∙ sym (⊕_assoc (f x) (total f xs) (total f ys))

pub bit_of-append :
    (a : ℕ) (xs ys : List ℕ)
    → bit_of a (xs ++ ys) ≡ (if bit_of a xs then not (bit_of a ys) else bit_of a ys)
bit_of-append a [] ys = refl
bit_of-append a (x ∷ xs) ys = ground (arith, bit_of-append a xs ys)

-- The list without the first `x`.
abbrev erase_one : ℕ → List ℕ → List ℕ
erase_one x [] = []
erase_one x (y ∷ ys) = if x == y then ys else y ∷ erase_one x ys

module _ (f : ℕ → Bucket) (x : ℕ) where
  length-erase_one : (ys : List ℕ) → length (erase_one x ys) ≤ length ys
  length-erase_one [] = omega arith
  length-erase_one (y ∷ ys) = ground (arith, length-erase_one ys)

  total-erase_one : (ys : List ℕ) → bit_of x ys ≡ true → total f ys ≡ f x ⊕ total f (erase_one x ys)
  total-erase_one [] e = ground arith
  total-erase_one (y ∷ ys) e =
      ground (arith, total-erase_one ys, ⊕_left_comm (f y) (f x) (total f (erase_one x ys)))

  bit_of-erase_one :
      (a : ℕ) (ys : List ℕ)
      → bit_of x ys ≡ true
      → bit_of a ys
        ≡ (if a == x then not (bit_of a (erase_one x ys)) else bit_of a (erase_one x ys))
  bit_of-erase_one a [] e = ground arith
  bit_of-erase_one a (y ∷ ys) e = ground (arith, bit_of-erase_one a ys)

-- Where every coordinate is zero the updates have cancelled, and so has the sum.
total_of_zero :
    (f : ℕ → Bucket) (n : ℕ) (xs : List ℕ)
    → length xs ≤ n
    → ((a : ℕ) → bit_of a xs ≡ false)
    → total f xs ≡ empty
total_of_zero f n [] h z = refl
total_of_zero f zero (x ∷ xs) h z = absurd (omega arith)
total_of_zero f (suc n) (x ∷ xs) h z =
    let odd : bit_of x xs ≡ true = ground (arith, z x) in
    let rest =
      total_of_zero f n (erase_one x xs) (omega (arith, length-erase_one f x xs))
        (λ a. ground (arith, z a, z x, bit_of-erase_one f x a xs)) in
    ap (◌⊕◌ (f x)) (total-erase_one f x xs odd) ∙ ⊕_cancel (f x) (total f (erase_one x xs)) ∙ rest

-- Two lists of updates that build the same vector have the same sum.
pub total_of_vector :
    (f : ℕ → Bucket) (xs ys : List ℕ)
    → ((a : ℕ) → bit_of a xs ≡ bit_of a ys)
    → total f xs ≡ total f ys
total_of_vector f xs ys same =
    let both : total f xs ⊕ total f ys ≡ empty =
      sym (total-append f xs ys)
      ∙ total_of_zero f (length (xs ++ ys)) (xs ++ ys) (omega arith)
          (λ a. ground (arith, bit_of-append a xs ys, same a)) in
    sym (⊕-empty (total f xs))
    ∙ ap (◌⊕◌ (total f xs)) (sym both)
    ∙ ⊕_cancel (total f xs) (total f ys)
