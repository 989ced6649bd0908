-- ===== src/CcAlg/Round/Pass.antt =====
-- A round over all supernodes: what it tells when it asks for no other round.
use graph_zeppelin.Base.{
  ℕ, ◌<◌, ◌≡◌, ◌⊎◌, inl, inr, refl, sym, ◌∙◌, ap, subst, Bool, true, false, List, [], ◌∷◌, some,
  Bool-cases, contains,
}
use mathlib.Core.List.{Memᴰ}
use mathlib.Core.List.Memᴰ
use graph_zeppelin.Bucket.{Hashes}
use graph_zeppelin.CcAlg.{CcSketchAlg}
use graph_zeppelin.CcAlg.Forest.{IsEager}
use graph_zeppelin.CcAlg.Round.{RoundState}
use graph_zeppelin.CcAlg.Round.Groups.{gather, sample_groups}
use graph_zeppelin.CcAlg.Round.Progress.{
  IsSound, IsClosed, IsCutSketch, IsSplit, IsStep, group-IsStep,
}
use graph_zeppelin.Dsu.Merge.{SameSet}
use graph_zeppelin.Sketch.{Sketch}

-- The sum of a supernode's sketches is defined, and answers for the edges that leave it.
abbrev pub IsTrusted : Hashes → ℕ → (ℕ → ℕ → Bool) → List Sketch → ℕ → Sketch → List ℕ → Type 0
IsTrusted h n graph sketches cur_round blank vs =
    (skt : Sketch) × (gather sketches cur_round blank vs ≡ some skt) × IsCutSketch h n graph vs skt

-- All supernodes have been sampled.
record IsPass (n : ℕ) (graph : ℕ → ℕ → Bool) (gs : List (ℕ × List ℕ)) (st st' : RoundState)
    : Type 0 where
  sound : IsSound n graph st'.alg
  keeps : st'.alg ≡ record st.alg { dsu = st'.alg.dsu; spanning_forest = st'.alg.spanning_forest }
  quiet_before : st'.modified ≡ false → st.modified ≡ false
  calm_before : st'.except ≡ false → st.except ≡ false
  merged_stay : (x y : ℕ) → x < n → y < n → SameSet st.alg.dsu x y → SameSet st'.alg.dsu x y
  no_merge :
      st'.modified ≡ false
      → (x y : ℕ) → x < n
      → y < n
      → SameSet st'.alg.dsu x y
      → SameSet st.alg.dsu x y
  told :
      st'.modified ≡ false
      → st'.except ≡ false
      → (g : ℕ × List ℕ) → Memᴰ g gs
      → IsClosed graph g.1 ⊎ IsSplit n st.alg g.1

divide_around :
    (n : ℕ) (a a' : CcSketchAlg) (vs : List ℕ)
    → ((x y : ℕ) → x < n → y < n → SameSet a'.dsu x y → SameSet a.dsu x y)
    → IsSplit n a' vs
    → IsSplit n a vs
divide_around n a a' vs back (u, v, lu, lv, s, c) = (u, v, lu, lv, back u v lu lv s, c)

module _ (h : Hashes) (failures : ℕ → ℕ) (cur_round n : ℕ) (graph : ℕ → ℕ → Bool)
    (blank : Sketch) where
  -- A step, and then a pass over the other supernodes.
  step-IsPass :
      (g : ℕ × List ℕ) (gs : List (ℕ × List ℕ)) (st st1 st' : RoundState)
      → IsStep n graph g.1 st st1
      → IsPass n graph gs st1 st'
      → IsPass n graph (g ∷ gs) st st'
  step-IsPass g gs st st1 st' s k = record {
    sound = k.sound;
    keeps =
        k.keeps
        ∙ ap
            (λ (a : CcSketchAlg). record a {
              dsu = st'.alg.dsu;
              spanning_forest = st'.alg.spanning_forest;
            })
            s.keeps;
    quiet_before = λ q. s.quiet_before (k.quiet_before q);
    calm_before = λ q. s.calm_before (k.calm_before q);
    merged_stay = λ x y lx ly p. k.merged_stay x y lx ly (s.merged_stay x y lx ly p);
    no_merge = λ q x y lx ly p. s.no_merge (k.quiet_before q) x y lx ly (k.no_merge q x y lx ly p);
    told = λ q e f m. elim (Memᴰ.cases_cons m) [
      | inl this ↦
          subst (λ (f : ℕ × List ℕ). IsClosed graph f.1 ⊎ IsSplit n st.alg f.1) (sym this)
            (s.told (k.quiet_before q) (k.calm_before e))
      | inr later ↦ elim (k.told q e f later) [
        | inl closed ↦ inl closed
        | inr split ↦ inr (divide_around n st.alg st1.alg f.1 (s.no_merge (k.quiet_before q)) split)
      ]
    ];
  }

  sample_groups-IsPass :
      (gs : List (ℕ × List ℕ)) (st : RoundState)
      → IsSound n graph st.alg
      → ((g : ℕ × List ℕ) → Memᴰ g gs → IsTrusted h n graph st.alg.sketches cur_round blank g.1)
      → (st' : RoundState) × (sample_groups h failures cur_round blank gs st ≡ some st')
        × IsPass n graph gs st st'
  sample_groups-IsPass [] st i trust = (
    st,
    refl,
    record {
      sound = i;
      keeps = refl;
      quiet_before = λ q. q;
      calm_before = λ q. q;
      merged_stay = λ x y lx ly p. p;
      no_merge = λ _ x y lx ly p. p;
      told = λ _ _ g m. absurd (Memᴰ.not-nil m);
    },
  )
  sample_groups-IsPass (g ∷ gs) st i trust =
      let (skt, e, c) = trust g (Memᴰ.head refl) in
      let (st1, p, s) = group-IsStep h n graph g.1 st i failures cur_round g.0 blank skt e c in
      let same = ap (λ (a : CcSketchAlg). a.sketches) s.keeps in
      let (st', q, k) = sample_groups-IsPass gs st1 s.sound (λ f m.
        subst (λ sketches. IsTrusted h n graph sketches cur_round blank f.1) (sym same)
          (trust f (Memᴰ.tail m))) in
      (st', rw p q, step-IsPass g gs st st1 st' s k)
  -- Every vertex is in a supernode, and the supernodes are the sets of the partition.

pub record ArePartition (n : ℕ) (a : CcSketchAlg) (gs : List (ℕ × List ℕ)) : Type 0 where
  pub whole :
      (g : ℕ × List ℕ)
      → Memᴰ g gs
      → (x y : ℕ) → x < n
      → y < n
      → SameSet a.dsu x y
      → contains x g.1 ≡ contains y g.1
  pub found :
      (x : ℕ)
      → x < n
      → (g : ℕ × List ℕ) × Memᴰ g gs
        × (contains x g.1 ≡ true)
        × ((y : ℕ) → y < n → contains y g.1 ≡ true → SameSet a.dsu x y)

-- If no edge leaves a supernode, the sets are closed under the edges.
pass_closes :
    (n : ℕ) (graph : ℕ → ℕ → Bool) (gs : List (ℕ × List ℕ)) (st st' : RoundState)
    → ((x y : ℕ) → graph x y ≡ true → (x < n) × (y < n))
    → ArePartition n st.alg gs
    → IsPass n graph gs st st'
    → ((g : ℕ × List ℕ) → Memᴰ g gs → IsClosed graph g.1 ⊎ IsSplit n st.alg g.1)
    → IsEager n st'.alg.dsu st'.alg.spanning_forest graph
pass_closes n graph gs st st' range parts k told =
    let i = k.sound.spanning in
    let closed : (g : ℕ × List ℕ) → Memᴰ g gs → IsClosed graph g.1 = λ g m. elim (told g m) [
      | inl c ↦ c
      | inr (u, v, lu, lv, s, c) ↦ absurd (c (parts.whole g m u v lu lv s))
    ] in
    record {
      valid = i.valid;
      size = i.size;
      rows = i.rows;
      planted = k.sound.planted;
      spans = i.spans;
      covers = λ x y e.
          let (lx, ly) = range x y e in
          let (g, m, cx, back) = parts.found x lx in
          (lx, ly, k.merged_stay x y lx ly (back y ly (sym (closed g m x y e) ∙ cx)));
    }

-- Let a round start with the sets of the partition as its supernodes, and every sketch sum be
-- trusted. The round ends without a failed assertion, and the forest is still a part of the graph
-- whose components are the sets. If no sample threw and none asks for another round, then the
-- sets are the components of the graph: the eager set's invariant holds.
pub sample_groups-IsEager :
    (h : Hashes) (failures : ℕ → ℕ) (cur_round n : ℕ) (graph : ℕ → ℕ → Bool) (blank : Sketch)
    (gs : List (ℕ × List ℕ)) (st : RoundState)
    → IsSound n graph st.alg
    → ((x y : ℕ) → graph x y ≡ true → (x < n) × (y < n))
    → ArePartition n st.alg gs
    → ((g : ℕ × List ℕ) → Memᴰ g gs → IsTrusted h n graph st.alg.sketches cur_round blank g.1)
    → (st' : RoundState) × (sample_groups h failures cur_round blank gs st ≡ some st')
      × IsSound n graph st'.alg
      × ((st'.except ≡ true)
          ⊎ ((st'.modified ≡ true) ⊎ IsEager n st'.alg.dsu st'.alg.spanning_forest graph))
sample_groups-IsEager h failures cur_round n graph blank gs st i range parts trust =
    let (st', p, k) = sample_groups-IsPass h failures cur_round n graph blank gs st i trust in
    (
      st',
      p,
      k.sound,
      elim (Bool-cases st'.except) [
        | inl threw ↦ inl threw
        | inr calm ↦ elim (Bool-cases st'.modified) [
          | inl again ↦ inr (inl again)
          | inr quiet ↦
              inr (inr (pass_closes n graph gs st st' range parts k (λ g m. k.told quiet calm g m)))
        ]
      ],
    )
