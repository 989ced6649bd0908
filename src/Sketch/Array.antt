-- ===== src/Sketch/Array.antt =====
-- What the loops over the bucket array do, read bucket by bucket.
use graph_zeppelin.Base.{
  ℕ, zero, suc, ◌+◌, ◌≤◌, ◌<◌, ◌≡◌, refl, ap, ◌∙◌, sym, subst, inl, inr, arith, List, Bool, true,
  false, ltb, leb, ◌==◌, ◌&&◌, if◌then◌else◌, eq-cases, length, get_or, set, length-set,
  get_or-set_self, get_or-set_ne,
}
use graph_zeppelin.Bucket.{Bucket, empty, update}
use graph_zeppelin.Bucket.Group.{◌⊕◌, ⊕_assoc, ⊕-empty, empty-⊕}
use graph_zeppelin.Sketch.{update_at, zero_loop, merge_loop}

-- The word that a point update adds to each bucket that it reaches.
abbrev pub word : ℕ → ℕ → Bucket
word x c = record { alpha = x; gamma = c }

-- A choice of what to add, by a test.
abbrev pub when : Bool → Bucket → Bucket
when b v = if b then v else empty

pub length-update_at : (bs : List Bucket) (i x c : ℕ) → length (update_at bs i x c) ≡ length bs
unfolding update_at
length-update_at bs i x c = length-set bs i _

pub get_or-update_at :
    (bs : List Bucket) (i j x c : ℕ)
    → j < length bs
    → get_or (update_at bs i x c) j empty ≡ get_or bs j empty ⊕ when (i == j) (word x c)
unfolding update_at
get_or-update_at bs i j x c h = elim (eq-cases i j) [
  | inl e ↦
      ground (arith, get_or-set_self bs i (update (get_or bs i empty) x c) empty (omega arith))
  | inr ne ↦ ground (
    arith,
    get_or-set_ne bs i j (update (get_or bs i empty) x c) empty ne,
    ⊕-empty (get_or bs j empty),
  )
]

-- A guarded update adds its word where the guard and the position agree.
abbrev pub guarded : Bool → List Bucket → ℕ → ℕ → ℕ → List Bucket
guarded t bs i x c = if t then update_at bs i x c else bs

pub length-guarded :
    (t : Bool) (bs : List Bucket) (i x c : ℕ) → length (guarded t bs i x c) ≡ length bs
length-guarded true bs i x c = length-update_at bs i x c
length-guarded false bs i x c = refl

pub get_or-guarded :
    (t : Bool) (bs : List Bucket) (i j x c : ℕ)
    → j < length bs
    → get_or (guarded t bs i x c) j empty ≡ get_or bs j empty ⊕ when (t && (i == j)) (word x c)
get_or-guarded true bs i j x c lt = get_or-update_at bs i j x c lt
get_or-guarded false bs i j x c lt = sym (⊕-empty (get_or bs j empty))

-- A loop that first adds `first` to a bucket, and later `rest`.
pub chain :
    (b first rest : Bucket) {c d : Bucket} → c ≡ b ⊕ first → d ≡ c ⊕ rest → d ≡ b ⊕ (first ⊕ rest)
chain b first rest p q = q ∙ ap (λ t. t ⊕ rest) p ∙ ⊕_assoc b first rest

pub length-merge_loop :
    (left i : ℕ) (bs cs : List Bucket) → length (merge_loop left i bs cs) ≡ length bs
unfolding merge_loop
length-merge_loop zero i bs cs = refl
length-merge_loop (suc left) i bs cs =
    length-merge_loop left (i + 1) (update_at bs i _ _) cs ∙ length-update_at bs i _ _

pub get_or-merge_loop :
    (left i j : ℕ) (bs cs : List Bucket)
    → j < length bs
    → get_or (merge_loop left i bs cs) j empty
      ≡ get_or bs j empty ⊕ when (leb i j && ltb j (i + left)) (get_or cs j empty)
unfolding merge_loop
get_or-merge_loop zero i j bs cs lt = ground (arith, ⊕-empty (get_or bs j empty))
get_or-merge_loop (suc left) i j bs cs lt =
    let b = get_or cs i empty in
    chain (get_or bs j empty) (when (i == j) b)
      (when (leb (i + 1) j && ltb j (i + 1 + left)) (get_or cs j empty))
      (get_or-update_at bs i j b.alpha b.gamma lt)
      (get_or-merge_loop left (i + 1) j (update_at bs i b.alpha b.gamma) cs
        (subst (λ n. j < n) (sym (length-update_at bs i b.alpha b.gamma)) lt))
    ∙ ap (◌⊕◌ (get_or bs j empty)) (split i j)
  where
    split :
        (i j : ℕ)
        → when (i == j) (get_or cs i empty)
            ⊕ when (leb (i + 1) j && ltb j (i + 1 + left)) (get_or cs j empty)
          ≡ when (leb i j && ltb j (i + suc left)) (get_or cs j empty)
    split i j =
        ground (arith, ⊕-empty (get_or cs j empty), empty-⊕ (get_or cs j empty), ⊕-empty empty)

pub length-zero_loop : (left i : ℕ) (bs : List Bucket) → length (zero_loop left i bs) ≡ length bs
unfolding zero_loop
length-zero_loop zero i bs = refl
length-zero_loop (suc left) i bs =
    length-zero_loop left (i + 1) (set bs i empty) ∙ length-set bs i empty

-- A bucket that is zero stays so.
get_or-zero_self :
    (left i j : ℕ) (bs : List Bucket)
    → j < i
    → get_or bs j empty ≡ empty
    → get_or (zero_loop left i bs) j empty ≡ empty
unfolding zero_loop
get_or-zero_self zero i j bs p e = e
get_or-zero_self (suc left) i j bs p e =
    get_or-zero_self left (i + 1) j (set bs i empty) (omega arith)
      (get_or-set_ne bs i j empty empty (omega arith) ∙ e)

-- Zeroing covers the positions of its rounds.
pub get_or-zero_loop :
    (left i j : ℕ) (bs : List Bucket)
    → i ≤ j
    → j < i + left
    → j < length bs
    → get_or (zero_loop left i bs) j empty ≡ empty
unfolding zero_loop
get_or-zero_loop zero i j bs p q lt = absurd (omega arith)
get_or-zero_loop (suc left) i j bs p q lt = elim (eq-cases i j) [
  | inl e ↦
      get_or-zero_self left (i + 1) j (set bs i empty) (omega arith)
        (rw e (get_or-set_self bs j empty empty lt))
  | inr ne ↦
      get_or-zero_loop left (i + 1) j (set bs i empty) (omega arith) (omega arith)
        (subst (λ n. j < n) (sym (length-set bs i empty)) lt)
]
