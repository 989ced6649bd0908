-- ===== src/EdgeStore/Weigh.antt =====
-- Sums over parts of the buffers of the edge store, for src/edge_store.cpp's in-place loops.
use graph_zeppelin.Base.{
  ℕ, zero, suc, ◌+◌, ◌-◌, ◌≤◌, ◌<◌, ◌≡◌, refl, sym, ap, subst, arith, false, List, [], ◌∷◌, ◌++◌,
  length, get_or, set, slice, slice_all,
}
use mathlib.Core.Path.{ap₂}
use graph_zeppelin.EdgeStore.{SubgraphTaggedUpdate, before, after, zeroed, resized}

abbrev pub weigh : (SubgraphTaggedUpdate → ℕ) → List SubgraphTaggedUpdate → ℕ
weigh w [] = 0
weigh w (x ∷ xs) = w x + weigh w xs

-- The first number is the second and an even number more.
abbrev pub Exceeds : ℕ → ℕ → Type 0
Exceeds a b = (k : ℕ) × (a ≡ b + (k + k))

pub Exceeds-trans : (a b c : ℕ) → Exceeds a b → Exceeds b c → Exceeds a c
Exceeds-trans a b c (k, p) (l, q) = (k + l, omega arith)

-- Two updates that stand neither before nor after each other are equal.
pub same_tags : (x y : SubgraphTaggedUpdate) → after x y ≡ false → before x y ≡ false → x ≡ y
unfolding after before
same_tags x y p q =
    let e : x.subgraph ≡ y.subgraph = ground arith in
    let f : x.dst ≡ y.dst = ground arith in ap₂ (λ s d. record { subgraph = s; dst = d }) e f

module _ (w : SubgraphTaggedUpdate → ℕ) where
  pub weigh-append :
      (xs ys : List SubgraphTaggedUpdate) → weigh w (xs ++ ys) ≡ weigh w xs + weigh w ys
  weigh-append [] ys = omega arith
  weigh-append (x ∷ xs) ys = omega (arith, weigh-append xs ys)

  pub weigh-slice_none : (i : ℕ) (xs : List SubgraphTaggedUpdate) → weigh w (slice i 0 xs) ≡ 0
  weigh-slice_none i [] = refl
  weigh-slice_none zero (x ∷ xs) = refl
  weigh-slice_none (suc i) (x ∷ xs) = weigh-slice_none i xs

  -- The first of a part, and the rest of it.
  pub weigh-slice_front :
      (i j n : ℕ) (xs : List SubgraphTaggedUpdate)
      → i < length xs
      → j ≡ suc i
      → weigh w (slice i (suc n) xs) ≡ w (get_or xs i zeroed) + weigh w (slice j n xs)
  weigh-slice_front i j n [] lt e = absurd (omega arith)
  weigh-slice_front i zero n (x ∷ xs) lt e = absurd (omega arith)
  weigh-slice_front zero (suc zero) n (x ∷ xs) lt e = refl
  weigh-slice_front zero (suc (suc j)) n (x ∷ xs) lt e = absurd (omega arith)
  weigh-slice_front (suc i) (suc j) n (x ∷ xs) lt e =
      weigh-slice_front i j n xs (omega arith) (omega arith)

  -- A write at the end of a part that begins the array.
  pub weigh-slice_push :
      (n m : ℕ) (xs : List SubgraphTaggedUpdate) (v : SubgraphTaggedUpdate)
      → n < length xs
      → m ≡ suc n
      → weigh w (slice 0 m (set xs n v)) ≡ weigh w (slice 0 n xs) + w v
  weigh-slice_push n m [] v lt e = absurd (omega arith)
  weigh-slice_push n zero (x ∷ xs) v lt e = absurd (omega arith)
  weigh-slice_push zero (suc zero) (x ∷ xs) v lt e = omega (arith, weigh-slice_none 0 xs)
  weigh-slice_push zero (suc (suc m)) (x ∷ xs) v lt e = absurd (omega arith)
  weigh-slice_push (suc n) (suc m) (x ∷ xs) v lt e =
      omega (arith, weigh-slice_push n m xs v (omega arith) (omega arith))

  -- The same, where the part goes on to the end `size`.
  pub weigh-slice_rest :
      (i size : ℕ) (xs : List SubgraphTaggedUpdate)
      → i < size
      → length xs ≡ size
      → weigh w (slice i (size - i) xs)
        ≡ w (get_or xs i zeroed) + weigh w (slice (i + 1) (size - (i + 1)) xs)
  weigh-slice_rest i size xs lt len =
      subst
        (λ n.
          weigh w (slice i n xs)
          ≡ w (get_or xs i zeroed) + weigh w (slice (i + 1) (size - (i + 1)) xs))
        (omega arith) (weigh-slice_front i (i + 1) (size - (i + 1)) xs (omega arith) (omega arith))

  pub weigh-slice_all :
      (xs : List SubgraphTaggedUpdate) → weigh w (slice 0 (length xs) xs) ≡ weigh w xs
  weigh-slice_all xs = ap (weigh w) (slice_all xs)

-- A write before a part.
pub slice-set_before :
    (i n j : ℕ) (xs : List SubgraphTaggedUpdate) (v : SubgraphTaggedUpdate)
    → j < i
    → slice i n (set xs j v) ≡ slice i n xs
slice-set_before i n j [] v lt = refl
slice-set_before zero n j (x ∷ xs) v lt = absurd (omega arith)
slice-set_before (suc i) n zero (x ∷ xs) v lt = refl
slice-set_before (suc i) n (suc j) (x ∷ xs) v lt = slice-set_before i n j xs v (omega arith)

pub length-resized : (n : ℕ) (xs : List SubgraphTaggedUpdate) → length (resized n xs) ≡ n
unfolding resized
length-resized zero xs = refl
length-resized (suc n) [] = ap suc (length-resized n [])
length-resized (suc n) (x ∷ xs) = ap suc (length-resized n xs)

-- What a resize keeps.
pub slice-resized :
    (n i k : ℕ) (xs : List SubgraphTaggedUpdate)
    → i + k ≤ n
    → i + k ≤ length xs
    → slice i k (resized n xs) ≡ slice i k xs
unfolding resized
slice-resized zero i k [] le le' = refl
slice-resized zero zero zero (x ∷ xs) le le' = refl
slice-resized zero zero (suc k) (x ∷ xs) le le' = absurd (omega arith)
slice-resized zero (suc i) k (x ∷ xs) le le' = absurd (omega arith)
slice-resized (suc n) zero zero [] le le' = refl
slice-resized (suc n) zero (suc k) [] le le' = absurd (omega arith)
slice-resized (suc n) (suc i) k [] le le' = absurd (omega arith)
slice-resized (suc n) zero zero (x ∷ xs) le le' = refl
slice-resized (suc n) zero (suc k) (x ∷ xs) le le' =
    ap (◌∷◌ x) (slice-resized n zero k xs (omega arith) (omega arith))
slice-resized (suc n) (suc i) k (x ∷ xs) le le' = slice-resized n i k xs (omega arith) (omega arith)

-- A cut, as a part.
pub weigh-resized :
    (w : SubgraphTaggedUpdate → ℕ) (n : ℕ) (xs : List SubgraphTaggedUpdate)
    → n ≤ length xs
    → weigh w (resized n xs) ≡ weigh w (slice 0 n xs)
unfolding resized
weigh-resized w zero xs le = sym (weigh-slice_none w 0 xs)
weigh-resized w (suc n) [] le = absurd (omega arith)
weigh-resized w (suc n) (x ∷ xs) le = omega (arith, weigh-resized w n xs (omega arith))
