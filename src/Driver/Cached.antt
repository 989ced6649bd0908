-- ===== src/Driver/Cached.antt =====
-- include/graph_sketch_driver.h: a query for the components that needs no flush.
use graph_zeppelin.Base.{
  ℕ, ◌≡◌, refl, sym, ◌∙◌, ap, subst, Bool, true, List, [], ◌∷◌, ◌++◌, some, some_eq,
}
use graph_zeppelin.Bucket.{Hashes}
use graph_zeppelin.CcAlg.{
  CcSketchAlg, new_cc_sketch_alg, allocate_worker_memory, pre_insert, connectivity,
  has_cached_query,
}
use graph_zeppelin.CcAlg.Forest.{graph_after, no_edges, flipped}
use graph_zeppelin.CcAlg.Query.{Machine, connected_components}
use graph_zeppelin.CcAlg.Query.Cached.{Answers, connected_components_cached}
use graph_zeppelin.CcAlg.Round.Whenever.{bind_some}
use graph_zeppelin.CcAlg.Stream.{
  IsEagerAlg, pre_insert_all-IsEagerAlg, new_cc-IsEagerAlg, num_vertices-pre_insert_all,
}
use graph_zeppelin.Driver.{
  GutteringSystem, GraphSketchDriver, new_graph_sketch_driver, buffer, process_update, WorkerStep,
  took, Runs, begun, streamed, worked,
}
use graph_zeppelin.Driver.Applied.{callback-Applied}
use graph_zeppelin.Dsu.Components.{InRange}
use graph_zeppelin.Pairing.{Edge, lower, upper}
use graph_zeppelin.Dsu.{◌>>=◌}
use graph_zeppelin.Sketch.{Sketch}

graph_after-append :
    (es fs : List Edge) (graph : ℕ → ℕ → Bool)
    → graph_after graph (es ++ fs) ≡ graph_after (graph_after graph es) fs
graph_after-append [] fs graph = refl
graph_after-append (e ∷ es) fs graph =
    graph_after-append es fs (flipped graph (lower e.src e.dst) (upper e.src e.dst))

InRange-append : (n : ℕ) (es fs : List Edge) → InRange n (es ++ fs) → InRange n es × InRange n fs
InRange-append n [] fs h = (tt, h)
InRange-append n (e ∷ es) fs (l, h) = let (f, g) = InRange-append n es fs h in ((l, f), g)

-- The invariant of the eager set, and the number of vertices.
abbrev IsCurrent : ℕ → (ℕ → ℕ → Bool) → CcSketchAlg → Type 0
IsCurrent n graph a = IsEagerAlg n graph a × (a.num_vertices ≡ n)

module _ {G : Type 0} (sys : GutteringSystem G) (h : Hashes) (n : ℕ) where
  streamed-IsCurrent :
      (graph : ℕ → ℕ → Bool) (failures : ℕ) (e : Edge) (s s' : GraphSketchDriver G)
      → process_update sys failures e s ≡ some s'
      → InRange n (e ∷ [])
      → IsCurrent n graph s.sketching_alg
      → IsCurrent n (graph_after graph (e ∷ [])) s'.sketching_alg
  unfolding process_update buffer
  streamed-IsCurrent graph failures e s s' p inside (i, size) =
      let a = s.sketching_alg in
      let (alg, at_alg, q) = bind_some (pre_insert failures a e) _ s' p in
      let (a', p', i') = pre_insert_all-IsEagerAlg (λ j. failures) n (e ∷ []) graph a i inside in
      let same : alg ≡ a' = some_eq (sym (ap (λ o. o >>= λ b. some b) at_alg) ∙ p') in
      subst (λ (t : GraphSketchDriver G). IsCurrent n (graph_after graph (e ∷ [])) t.sketching_alg)
        (some_eq q)
        (subst (IsCurrent n (graph_after graph (e ∷ []))) (sym same)
          (i', num_vertices-pre_insert_all (λ j. failures) (e ∷ []) a a' p' ∙ size))

  worked-IsCurrent :
      (graph : ℕ → ℕ → Bool) (s s' : GraphSketchDriver G)
      → WorkerStep sys h s s'
      → IsCurrent n graph s.sketching_alg
      → IsCurrent n graph s'.sketching_alg
  worked-IsCurrent graph s s' (took before later thr_id src dsts q p) (i, size) =
      let (delta, skt, e, e', r) =
        callback-Applied sys h (record s { work_queue = before ++ later }) s' thr_id src dsts p in
      subst (λ (t : GraphSketchDriver G). IsCurrent n graph t.sketching_alg) r
        (record { agrees = i.agrees; eager = i.eager }, size)

  Runs-IsCurrent :
      (s : GraphSketchDriver G) (es : List Edge) (t : GraphSketchDriver G)
      → Runs sys h s es t
      → InRange n es
      → IsCurrent n no_edges s.sketching_alg
      → IsCurrent n (graph_after no_edges es) t.sketching_alg
  Runs-IsCurrent s es t begun inside c = c
  Runs-IsCurrent s es t (streamed {es = fs} {t = m} r failures e p) inside c =
      let (first, last) = InRange-append n fs (e ∷ []) inside in
      subst (λ graph. IsCurrent n graph t.sketching_alg)
        (sym (graph_after-append fs (e ∷ []) no_edges))
        (streamed-IsCurrent (graph_after no_edges fs) failures e m t p last
          (Runs-IsCurrent s fs m r first c))
  Runs-IsCurrent s es t (worked {t = m} r step) inside c =
      worked-IsCurrent (graph_after no_edges es) m t step (Runs-IsCurrent s es m r inside c)

-- From a new driver, let the threads of the stream and the workers take any steps, with `es` the
-- updates taken from the stream, between its vertices. If the driver then finds the answer cached,
-- a query for the components replies without a flush, although batches are pending: two vertices
-- are connected in its answer exactly if a walk joins them in the graph that `es` leaves.
pub Runs-connected_components :
    {G : Type 0} (sys : GutteringSystem G) (h : Hashes) (m : Machine) (blank : Sketch) (n : ℕ)
    (prio_gen : ℕ → ℕ) (num_workers : ℕ) (gts : G) (es : List Edge) (s : GraphSketchDriver G)
    → InRange n es
    → Runs sys h
        (new_graph_sketch_driver sys gts (new_cc_sketch_alg prio_gen n blank) blank num_workers)
        es
        s
    → has_cached_query s.sketching_alg connectivity ≡ true
    → Answers m n (graph_after no_edges es) s.sketching_alg (connected_components m s.sketching_alg)
unfolding has_cached_query new_graph_sketch_driver allocate_worker_memory new_cc_sketch_alg
Runs-connected_components sys h m blank n prio_gen num_workers gts es s inside runs shared =
    let start = new_cc-IsEagerAlg prio_gen n blank in
    let (i, size) =
      Runs-IsCurrent sys h n _ es s runs inside
        (record { agrees = start.agrees; eager = start.eager }, refl) in
    connected_components_cached m n (graph_after no_edges es) s.sketching_alg
      (i.eager (sym i.agrees ∙ shared)) size shared
