-- ===== src/McAlg/Filter/Contents.antt =====
-- The contents of the sketches of MCSketchAlg, without their sample counts, and what updates of
-- them do.
use graph_zeppelin.Base.{
  ℕ, zero, suc, ◌+◌, ◌≡◌, refl, sym, ◌∙◌, ap, subst, arith, List, [], ◌∷◌, ◌++◌, Option, none, some,
  ◌==◌, ==_iff, if◌then◌else◌, set, if_elim,
}
use graph_zeppelin.Bucket.{Bucket, Hashes}
use graph_zeppelin.CcAlg.Round.Whenever.{Whenever, Whenever-eq}
use graph_zeppelin.Dsu.{◌>>=◌}
use graph_zeppelin.McAlg.{sketch_at, update_sketch}
use graph_zeppelin.McAlg.Places.{sketch_at-set_self, sketch_at-set_ne}
use graph_zeppelin.Sketch.{
  Sketch, reset_sample_state, update, update_columns, column_seed, checksum_seed,
}
use graph_zeppelin.Sketch.Batch.{update_all-append, update_all, update_all_of_vector}
use graph_zeppelin.Sketch.Linear.{update-IsLinear}
use graph_zeppelin.Sketch.Valid.{IsValid}
use graph_zeppelin.Sketch.Vector.{bit_of-append}

abbrev pub rested : Option Sketch → Option Sketch
rested o = o >>= λ skt. some (reset_sample_state skt)

abbrev pub contents : List (Option Sketch) → ℕ → Option Sketch
contents sketches i = rested (sketch_at sketches i)

abbrev pub after : Hashes → List ℕ → Option Sketch → Option Sketch
after h xs o = o >>= λ skt. some (update_all (update h) skt xs)

-- Each sketch `i` has taken the updates `xs i`.
abbrev pub Changed : Hashes → (ℕ → List ℕ) → List (Option Sketch) → List (Option Sketch) → Type 0
Changed h xs sketches sketches' =
    (i : ℕ) → contents sketches' i ≡ after h (xs i) (contents sketches i)

update_columns-reset :
    (h : Hashes) (skt : Sketch) (x c left i : ℕ) (bs : List Bucket)
    → update_columns h (reset_sample_state skt) x c left i bs ≡ update_columns h skt x c left i bs
unfolding update_columns reset_sample_state column_seed
update_columns-reset h skt x c zero i bs = refl
update_columns-reset h skt x c (suc left) i bs = update_columns-reset h skt x c left (i + 1) _

update-reset :
    (h : Hashes) (skt : Sketch) (x : ℕ)
    → reset_sample_state (update h skt x) ≡ update h (reset_sample_state skt) x
unfolding update reset_sample_state checksum_seed
update-reset h skt x =
    ap (λ bs. record (reset_sample_state skt) { buckets = bs })
      (sym (update_columns-reset h skt x _ skt.num_columns 0 _))

pub after-none : (h : Hashes) (o : Option Sketch) → after h [] o ≡ o
after-none h none = refl
after-none h (some skt) = refl

after-append :
    (h : Hashes) (xs ys : List ℕ) (o : Option Sketch)
    → after h ys (after h xs o) ≡ after h (xs ++ ys) o
after-append h xs ys none = refl
after-append h xs ys (some skt) = ap some (sym (update_all-append (update h) skt xs ys))

pub Changed-refl :
    (h : Hashes) (sketches : List (Option Sketch)) → Changed h (λ i. []) sketches sketches
Changed-refl h sketches i = sym (after-none h (contents sketches i))

pub Changed-trans :
    (h : Hashes) (xs ys : ℕ → List ℕ) (s t u : List (Option Sketch))
    → Changed h xs s t
    → Changed h ys t u
    → Changed h (λ i. xs i ++ ys i) s u
Changed-trans h xs ys s t u c d i =
    d i ∙ ap (after h (ys i)) (c i) ∙ after-append h (xs i) (ys i) (contents s i)

-- One update of the sketch `i`.
abbrev pub one_update : ℕ → ℕ → ℕ → List ℕ
one_update i x j = if i == j then x ∷ [] else []

pub update_sketch-Changed :
    (h : Hashes) (i x : ℕ) (sketches : List (Option Sketch))
    → Whenever (Changed h (one_update i x) sketches) (update_sketch h i x sketches)
unfolding update_sketch
update_sketch-Changed h i x sketches =
    Whenever-eq (Changed h (one_update i x) sketches) (sketch_at sketches i) _ λ skt e j.
      let sketches' = set sketches i (some (update h skt x)) in
      if_elim (λ xs. contents sketches' j ≡ after h xs (contents sketches j)) (i == j) (x ∷ []) []
        (λ t.
          subst (λ k. contents sketches' k ≡ after h (x ∷ []) (contents sketches k))
            ((==_iff i j).0 t)
            (ap rested (sketch_at-set_self sketches i skt (update h skt x) e)
              ∙ ap some (update-reset h skt x)
              ∙ ap (λ o. after h (x ∷ []) (rested o)) (sym e)))
        (λ f.
          ap rested
            (sketch_at-set_ne sketches i j (some (update h skt x)) (λ p. ground (arith, f, p)))
          ∙ sym (after-none h (contents sketches j)))

-- Updates that each occur twice leave a well-formed sketch as it was.
pub after_twice :
    (h : Hashes) (xs : List ℕ) (o : Option Sketch)
    → ((skt : Sketch) → o ≡ some skt → IsValid skt)
    → after h (xs ++ xs) o ≡ o
after_twice h xs none v = refl
after_twice h xs (some skt) v = ap some (
    update_all_of_vector (update h) (update-IsLinear h) skt (xs ++ xs) [] (v skt refl)
      (λ a. ground (arith, bit_of-append a xs xs)))
