-- ===== src/Dsu/Joined.antt =====
-- `merge`, as a step on the partition into sets.
use graph_zeppelin.Base.{ℕ, ◌<◌, ◌≡◌, ◌⊎◌, ◌↔◌, ◌∙◌, refl, sym, subst, arith, some, inl, inr, true}
use graph_zeppelin.Dsu.{Dsu, DsuMergeRet, merge}
use graph_zeppelin.Dsu.FindRoot.{IsValid}
use graph_zeppelin.Dsu.Forest.{Root, Root_unique}
use graph_zeppelin.Dsu.Merge.{
  SameSet, IsMerge, is_same, is_joined, moved, merge-IsMerge, root_before,
}
use graph_zeppelin.Dsu.Rank.{root_of}

pub SameSet-sym : (d : Dsu) (x y : ℕ) → SameSet d x y → SameSet d y x
SameSet-sym d x y (r, t, t') = (r, t', t)

pub SameSet-trans : (d : Dsu) (x y z : ℕ) → SameSet d x y → SameSet d y z → SameSet d x z
SameSet-trans d x y z (r, t, t') (s, q, q') = (r, t, subst (Root d.parent z) (Root_unique q t') q')

-- Vertices whose roots are equal.
same_roots : (d : Dsu) {x y r s : ℕ} → Root d.parent x r → Root d.parent y s → r ≡ s → SameSet d x y
same_roots d {y = y} {r = r} t q e = (r, t, subst (Root d.parent y) (sym e) q)

-- The partition after joining the sets of `u` and `v`.
abbrev pub Joined : Dsu → ℕ → ℕ → ℕ → ℕ → Type 0
Joined d u v x y =
    SameSet d x y ⊎ ((SameSet d x u × SameSet d v y) ⊎ (SameSet d x v × SameSet d u y))

pub record IsJoin (d : Dsu) (u v : ℕ) (out : Dsu × DsuMergeRet) : Type 0 where
  pub valid : IsValid out.0
  pub size : out.0.n ≡ d.n
  pub fresh : (out.1.merged ≡ true) ↔ (¬ SameSet d u v)
  pub sound : (x y : ℕ) → x < d.n → y < d.n → SameSet out.0 x y → Joined d u v x y
  pub complete : (x y : ℕ) → Joined d u v x y → SameSet out.0 x y

moved_eq :
    (a b root child r s : ℕ)
    → ((root ≡ a) × (child ≡ b)) ⊎ ((root ≡ b) × (child ≡ a))
    → moved root child r ≡ moved root child s
    → (r ≡ s) ⊎ (((r ≡ a) × (s ≡ b)) ⊎ ((r ≡ b) × (s ≡ a)))
moved_eq a b root child r s who e = ground arith

moved_ends :
    (a b root child : ℕ)
    → ((root ≡ a) × (child ≡ b)) ⊎ ((root ≡ b) × (child ≡ a))
    → moved root child a ≡ moved root child b
moved_ends a b root child who = ground arith

-- A partition that is at least as coarse, and has `u` and `v` in one set, joins theirs.
join_complete :
    (d d' : Dsu) (u v : ℕ)
    → ((x y : ℕ) → SameSet d x y → SameSet d' x y)
    → SameSet d' u v
    → (x y : ℕ) → Joined d u v x y
    → SameSet d' x y
join_complete d d' u v lift uv x y (inl s) = lift x y s
join_complete d d' u v lift uv x y (inr (inl (p, q))) =
    SameSet-trans d' x u y (lift x u p) (SameSet-trans d' u v y uv (lift v y q))
join_complete d d' u v lift uv x y (inr (inr (p, q))) =
    SameSet-trans d' x v y (lift x v p)
      (SameSet-trans d' v u y (SameSet-sym d' u v uv) (lift u y q))

pub IsMerge-IsJoin :
    (d : Dsu) (u v : ℕ)
    → IsValid d
    → {out : Dsu × DsuMergeRet} → IsMerge d u v out
    → IsJoin d u v out
IsMerge-IsJoin d u v w (is_same qs r valid trees tu tv) = record {
  valid = valid;
  size = refl;
  fresh = (λ e. cc, λ ne. absurd (ne (r, tu, tv)));
  sound = λ x y lx ly (s, t, t'). inl (
    s,
    root_before d.n d.priority d.parent qs w.forest trees lx t,
    root_before d.n d.priority d.parent qs w.forest trees ly t',
  );
  complete =
      join_complete d (record d { parent = qs }) u v
        (λ x y (s, t, t'). (s, trees x s t, trees y s t')) (r, trees u r tu, trees v r tv);
}
IsMerge-IsJoin d u v w (is_joined qs a b root child valid ta tb ne who moves) = record {
  valid = valid;
  size = refl;
  fresh = (λ e (r, t, t'). ne (Root_unique ta t ∙ Root_unique t' tb), λ _. refl);
  sound = λ x y lx ly (s, t, t').
      let (r, tx, _) = root_of d.n d.priority d.parent w.forest x lx in
      let (r', ty, _) = root_of d.n d.priority d.parent w.forest y ly in
      let e = Root_unique (moves x r tx) t ∙ Root_unique t' (moves y r' ty) in
      elim (moved_eq a b root child r r' who e) [
        | inl same ↦ inl (same_roots d tx ty same)
        | inr (inl (ra, rb)) ↦ inr (inl (same_roots d tx ta ra, same_roots d tb ty (sym rb)))
        | inr (inr (rb, ra)) ↦ inr (inr (same_roots d tx tb rb, same_roots d ta ty (sym ra)))
      ];
  complete =
      join_complete d (record d { parent = qs }) u v
        (λ x y (s, t, t'). (moved root child s, moves x s t, moves y s t'))
        (same_roots (record d { parent = qs }) (moves u a ta) (moves v b tb)
          (moved_ends a b root child who));
}

-- For two vertices of a well-formed set `merge` returns. It reports a merge exactly if the two
-- were in different sets; the set that it leaves is well formed, and two vertices are in one set
-- of it exactly if they were before, or one was with `u` and the other with `v`.
pub merge-IsJoin :
    (d : Dsu) (u v : ℕ)
    → IsValid d
    → u < d.n
    → v < d.n
    → (out : Dsu × DsuMergeRet) × (merge d u v ≡ some out) × IsJoin d u v out
merge-IsJoin d u v w lu lv =
    let (out, e, m) = merge-IsMerge d u v w lu lv in (out, e, IsMerge-IsJoin d u v w m)
