-- ===== src/Driver/Parity.antt =====
-- How often an update is of a vertex, modulo 2, in the batches of the driver.
use graph_zeppelin.Base.{
  ℕ, ◌≡◌, ◌≢◌, refl, sym, ◌∙◌, ap, arith, Bool, false, not, List, [], ◌∷◌, ◌++◌, map, ◌==◌, ==_iff,
  if◌then◌else◌, if_elim,
}
use mathlib.Core.Path.{ap₂}
use graph_zeppelin.Driver.{Batch}
use graph_zeppelin.Pairing.{Edge, concat_pairing_fn}
use graph_zeppelin.Sketch.Vector.{bit_of, bit_of-append}
use mathlib.Core.List.{Permᴰ}

-- The ends that the driver buffers for a stream.
abbrev pub ends : List Edge → List (ℕ × ℕ)
ends [] = []
ends (e ∷ es) = (e.src, e.dst) ∷ (e.dst, e.src) ∷ ends es

-- The single updates of batches.
abbrev pub flat : List Batch → List (ℕ × ℕ)
flat [] = []
flat ((src, dsts) ∷ bs) = map (λ dst. (src, dst)) dsts ++ flat bs

-- The indices that a vertex's sketch takes.
abbrev pub indices : ℕ → List (ℕ × ℕ) → List ℕ
indices v [] = []
indices v ((s, d) ∷ ps) = if s == v then concat_pairing_fn s d ∷ indices v ps else indices v ps

abbrev pub is_odd : ℕ → ℕ → List (ℕ × ℕ) → Bool
is_odd v a ps = bit_of a (indices v ps)

abbrev pub xor : Bool → Bool → Bool
xor b c = if b then not c else c

pub ends-append : (es fs : List Edge) → ends (es ++ fs) ≡ ends es ++ ends fs
ends-append [] fs = refl
ends-append (e ∷ es) fs = ap (λ ps. (e.src, e.dst) ∷ (e.dst, e.src) ∷ ps) (ends-append es fs)

append_assoc {ℓ} : {A : Type ℓ} (xs ys zs : List A) → (xs ++ ys) ++ zs ≡ xs ++ (ys ++ zs)
append_assoc [] ys zs = refl
append_assoc (x ∷ xs) ys zs = ap (◌∷◌ x) (append_assoc xs ys zs)

pub flat-append : (bs cs : List Batch) → flat (bs ++ cs) ≡ flat bs ++ flat cs
flat-append [] cs = refl
flat-append ((src, dsts) ∷ bs) cs =
    ap (λ ps. map (λ dst. (src, dst)) dsts ++ ps) (flat-append bs cs)
    ∙ sym (append_assoc (map (λ dst. (src, dst)) dsts) (flat bs) (flat cs))

pub indices-append :
    (v : ℕ) (ps qs : List (ℕ × ℕ)) → indices v (ps ++ qs) ≡ indices v ps ++ indices v qs
indices-append v [] qs = refl
indices-append v ((s, d) ∷ ps) qs =
    if_elim
      (λ xs.
        (if s == v then concat_pairing_fn s d ∷ indices v (ps ++ qs) else indices v (ps ++ qs))
        ≡ xs ++ indices v qs)
      (s == v) _ _ (λ t. rw t (ap (◌∷◌ (concat_pairing_fn s d)) (indices-append v ps qs)))
      (λ f. rw f (indices-append v ps qs))

pub is_odd-append :
    (v a : ℕ) (ps qs : List (ℕ × ℕ)) → is_odd v a (ps ++ qs) ≡ xor (is_odd v a ps) (is_odd v a qs)
is_odd-append v a ps qs =
    ap (bit_of a) (indices-append v ps qs) ∙ bit_of-append a (indices v ps) (indices v qs)

xor_swap : (b c d : Bool) → xor b (xor c d) ≡ xor c (xor b d)
xor_swap b c d = ground arith

-- The order of the updates means nothing.
pub is_odd-Perm : (v a : ℕ) {ps qs : List (ℕ × ℕ)} → Permᴰ ps qs → is_odd v a ps ≡ is_odd v a qs
is_odd-Perm v a Permᴰ.nil = refl
is_odd-Perm v a (Permᴰ.cons {a = x} {b = y} {l₁ = ps} {l₂ = qs} e p) =
    is_odd-append v a (x ∷ []) ps
    ∙ ap₂ (λ z b. xor (is_odd v a (z ∷ [])) b) e (is_odd-Perm v a p)
    ∙ sym (is_odd-append v a (y ∷ []) qs)
is_odd-Perm v a (Permᴰ.swap {a = x} {b = y} {a' = x'} {b' = y'} {l = ps} e e') =
    is_odd-append v a (x ∷ []) (y ∷ ps)
    ∙ ap (xor (is_odd v a (x ∷ []))) (is_odd-append v a (y ∷ []) ps)
    ∙ xor_swap (is_odd v a (x ∷ [])) (is_odd v a (y ∷ [])) (is_odd v a ps)
    ∙ ap₂ (λ z w. xor (is_odd v a (z ∷ [])) (xor (is_odd v a (w ∷ [])) (is_odd v a ps))) e' e
    ∙ ap (xor (is_odd v a (x' ∷ []))) (sym (is_odd-append v a (y' ∷ []) ps))
    ∙ sym (is_odd-append v a (x' ∷ []) (y' ∷ ps))
is_odd-Perm v a (Permᴰ.trans p q) = is_odd-Perm v a p ∙ is_odd-Perm v a q

-- A batch for the vertex, and one for another.
pub is_odd-batch :
    (v a : ℕ) (dsts : List ℕ)
    → is_odd v a (map (λ dst. (v, dst)) dsts) ≡ bit_of a (map (concat_pairing_fn v) dsts)
is_odd-batch v a dsts = ap (bit_of a) (own v dsts)
  where
    own :
        (v : ℕ) (dsts : List ℕ)
        → indices v (map (λ dst. (v, dst)) dsts) ≡ map (concat_pairing_fn v) dsts
    own v [] = refl
    own v (dst ∷ dsts) = rw ((==_iff v v).1 refl) (ap (◌∷◌ (concat_pairing_fn v dst)) (own v dsts))

pub is_odd-other :
    (v src a : ℕ) (dsts : List ℕ) → src ≢ v → is_odd v a (map (λ dst. (src, dst)) dsts) ≡ false
is_odd-other v src a [] ne = refl
is_odd-other v src a (dst ∷ dsts) ne =
    if_elim (λ xs. bit_of a xs ≡ false) (src == v) _ _ (λ t. absurd (ne ((==_iff src v).0 t)))
      (λ _. is_odd-other v src a dsts ne)
