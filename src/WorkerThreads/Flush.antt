-- ===== src/WorkerThreads/Flush.antt =====
-- include/worker_thread_group.h: what holds of the workers when flush_workers has returned.
use graph_zeppelin.Base.{
  ℕ, suc, ◌<◌, ◌≡◌, ◌≢◌, ◌⊎◌, inl, inr, refl, sym, ◌∙◌, subst, arith, Bool, true, false, List, ◌++◌,
  ◌==◌, eq-cases, if_elim,
}
use graph_zeppelin.WorkerThreads.Places.{
  false-true, unserved_waits, woken_waits, getting_waits, holding_waits,
}
use graph_zeppelin.WorkerThreads.{
  IsIdle, callbacks, WorkerPlace, at_get_data, holding, unserved, waiting, WorkerThread, OwnerPlace,
  outside, awaiting, flushed, pausing, unpausing, clearing, stopping, WorkerThreadGroup, put,
  new_group, WorkerStep, OwnerStep, OwnerMove, Step, Reaches, UpdateBatch,
}

-- A worker, seen from the owner's place: its `paused` tells that it waits, but for the moment
-- between the two writes of unpause.
pub record IsCalm (p : OwnerPlace) (i : ℕ) (w : WorkerThread) : Type 0 where
  pub running : w.shutdown ≡ false
  pub waits : w.paused ≡ true → ((w.place ≡ waiting) × (w.do_pause ≡ true)) ⊎ (p ≡ clearing i)
  pub told : p ≡ flushed → w.paused ≡ true

abbrev pub IsStopping : OwnerPlace → Type 0
IsStopping p = (i : ℕ) × (p ≡ stopping i)

abbrev pub AreCalm : WorkerThreadGroup → Type 0
AreCalm g = IsStopping g.owner ⊎ ((i : ℕ) → i < g.num_workers → IsCalm g.owner i (g.workers i))

pub put_lem :
    (P : ℕ → WorkerThread → Type 0) (i j : ℕ) (w : WorkerThread) (ws : ℕ → WorkerThread)
    → P i w
    → (i ≢ j → P j (ws j))
    → P j (put i w ws j)
put_lem P i j w ws p q = elim (eq-cases i j) [
  | inl e ↦
      if_elim (P j) (i == j) w (ws j) (λ t. subst (λ k. P k w) e p)
        (λ t. absurd (ground (arith, t, e)))
  | inr ne ↦ if_elim (P j) (i == j) w (ws j) (λ t. absurd (ground (arith, t, ne))) (λ t. q ne)
]

flushed_clearing : (i : ℕ) → flushed ≢ clearing i
flushed_clearing i e = cc

pausing_clearing : (i j : ℕ) → pausing i ≢ clearing j
pausing_clearing i j e = cc

pausing_flushed : (i : ℕ) → pausing i ≢ flushed
pausing_flushed i e = cc

unpausing_clearing : (i j : ℕ) → unpausing i ≢ clearing j
unpausing_clearing i j e = cc

unpausing_flushed : (i : ℕ) → unpausing i ≢ flushed
unpausing_flushed i e = cc

clearing_inj : (i j : ℕ) → clearing i ≡ clearing j → i ≡ j
clearing_inj i j e = cc

-- A change of a worker that does not wait, and still tells the truth.
IsCalm-moved :
    (p : OwnerPlace) (i : ℕ) (w : WorkerThread) (place : WorkerPlace)
    → IsCalm p i w
    → w.place ≢ waiting
    → IsCalm p i (record w { place = place })
IsCalm-moved p i w place c ne = record {
  running = c.running;
  waits = λ e. elim (c.waits e) [ inl (t, _) ↦ absurd (ne t) | inr t ↦ inr t ];
  told = c.told;
}

WorkerStep-IsCalm :
    (p : OwnerPlace) (i : ℕ) (w w' : WorkerThread) → IsCalm p i w → WorkerStep w w' → IsCalm p i w'
WorkerStep-IsCalm p i _ _ c (WorkerStep.exit w e s) = absurd (false-true (sym c.running ∙ s))
WorkerStep-IsCalm p i _ _ c (WorkerStep.pause w e s d) = record {
  running = s;
  waits = λ t. inl (refl, d);
  told = λ t. refl;
}
WorkerStep-IsCalm p i _ _ c (WorkerStep.again w e s d) =
    IsCalm-moved p i w at_get_data c (λ t. unserved_waits (sym e ∙ t))
WorkerStep-IsCalm p i _ _ c (WorkerStep.wake w e d) = record {
  running = c.running;
  waits = λ t. elim (c.waits t) [
    | inl (_, q) ↦ elim d [
      | inl f ↦ absurd (false-true (sym f ∙ q))
      | inr f ↦ absurd (false-true (sym c.running ∙ f))
    ]
    | inr q ↦ inr q
  ];
  told = c.told;
}
WorkerStep-IsCalm p i _ _ c (WorkerStep.leave w e) = record {
  running = c.running;
  waits = λ t. absurd (false-true t);
  told = λ t. elim (c.waits (c.told t)) [
    | inl (q, _) ↦ absurd (woken_waits (sym e ∙ q))
    | inr q ↦ absurd (flushed_clearing i (sym t ∙ q))
  ];
}

-- The owner's place changes, to one in which no flush has just ended.
IsCalm-shifted :
    (p p' : OwnerPlace) (i : ℕ) (w : WorkerThread)
    → IsCalm p i w
    → p ≢ clearing i
    → p' ≢ flushed
    → IsCalm p' i w
IsCalm-shifted p p' i w c ne ne' = record {
  running = c.running;
  waits = λ t. elim (c.waits t) [ inl q ↦ inl q | inr q ↦ absurd (ne q) ];
  told = λ t. absurd (ne' t);
}

OwnerStep-AreCalm :
    (g : WorkerThreadGroup) (i : ℕ) (p p' : OwnerPlace) (w w' : WorkerThread)
    → ((j : ℕ) → j < g.num_workers → IsCalm p j (g.workers j))
    → IsCalm p i w
    → OwnerStep i p w p' w'
    → AreCalm (record g { owner = p'; workers = put i w' g.workers })
OwnerStep-AreCalm g i _ _ _ _ calm c (OwnerStep.pause_one _ w) = inr (λ j lt.
    put_lem (IsCalm (pausing (suc i))) i j _ g.workers
      (record {
        running = c.running;
        waits = λ t. elim (c.waits t) [
          | inl (q, _) ↦ inl (q, refl)
          | inr q ↦ absurd (pausing_clearing i i q)
        ];
        told = λ t. absurd (pausing_flushed (suc i) t);
      })
      (λ ne.
        IsCalm-shifted (pausing i) (pausing (suc i)) j (g.workers j) (calm j lt)
          (pausing_clearing i j) (pausing_flushed (suc i))))
OwnerStep-AreCalm g i _ _ _ _ calm c (OwnerStep.unpause_one _ w) = inr (λ j lt.
    put_lem (IsCalm (clearing i)) i j _ g.workers
      (record {
        running = c.running;
        waits = λ t. inr refl;
        told = λ t. absurd (flushed_clearing i (sym t));
      })
      (λ ne.
        IsCalm-shifted (unpausing i) (clearing i) j (g.workers j) (calm j lt)
          (unpausing_clearing i j) (λ t. flushed_clearing i (sym t))))
OwnerStep-AreCalm g i _ _ _ _ calm c (OwnerStep.clear_one _ w) = inr (λ j lt.
    put_lem (IsCalm (unpausing (suc i))) i j _ g.workers
      (record {
        running = c.running;
        waits = λ t. absurd (false-true t);
        told = λ t. absurd (unpausing_flushed (suc i) t);
      })
      (λ ne.
        IsCalm-shifted (clearing i) (unpausing (suc i)) j (g.workers j) (calm j lt)
          (λ t. ne (clearing_inj i j t)) (unpausing_flushed (suc i))))
OwnerStep-AreCalm g i _ _ _ _ calm c (OwnerStep.stop_one _ w) = inl (suc i, refl)

-- The owner's place, where no unpause is half done.
abbrev IsBetween : OwnerPlace → Type 0
IsBetween p = (i : ℕ) → (p ≢ clearing i) × (p ≢ stopping i)

outside-IsBetween : IsBetween outside
outside-IsBetween i = ((λ e. cc), (λ e. cc))

awaiting-IsBetween : IsBetween awaiting
awaiting-IsBetween i = ((λ e. cc), (λ e. cc))

flushed-IsBetween : IsBetween flushed
flushed-IsBetween i = ((λ e. cc), (λ e. cc))

pausing-IsBetween : (k : ℕ) → IsBetween (pausing k)
pausing-IsBetween k i = ((λ e. cc), (λ e. cc))

unpausing-IsBetween : (k : ℕ) → IsBetween (unpausing k)
unpausing-IsBetween k i = ((λ e. cc), (λ e. cc))

-- A move of the owner to a place where no flush has just ended.
IsBetween-AreCalm :
    (g : WorkerThreadGroup) (p p' : OwnerPlace) (b : Bool)
    → AreCalm g
    → g.owner ≡ p
    → IsBetween p
    → p' ≢ flushed
    → AreCalm (record g { owner = p'; non_block = b })
IsBetween-AreCalm g p p' b (inl (i, e)) at_p between ne = absurd ((between i).1 (sym at_p ∙ e))
IsBetween-AreCalm g p p' b (inr calm) at_p between ne = inr (λ i lt.
    IsCalm-shifted g.owner p' i (g.workers i) (calm i lt) (λ t. (between i).0 (sym at_p ∙ t)) ne)

IsIdle-AreCalm :
    (g : WorkerThreadGroup) (p : OwnerPlace) (b : Bool)
    → AreCalm g
    → IsIdle g.owner
    → p ≢ flushed
    → AreCalm (record g { owner = p; non_block = b })
IsIdle-AreCalm g p b calm (inl e) ne = IsBetween-AreCalm g outside p b calm e outside-IsBetween ne
IsIdle-AreCalm g p b calm (inr e) ne = IsBetween-AreCalm g flushed p b calm e flushed-IsBetween ne

OwnerMove-AreCalm :
    (g : WorkerThreadGroup) (p : OwnerPlace) (b : Bool)
    → AreCalm g
    → OwnerMove g p b
    → AreCalm (record g { owner = p; non_block = b })
OwnerMove-AreCalm g _ _ calm (OwnerMove.flush idle) =
    IsIdle-AreCalm g (pausing 0) true calm idle (pausing_flushed 0)
OwnerMove-AreCalm g _ _ calm (OwnerMove.await e) =
    IsBetween-AreCalm g (pausing g.num_workers) awaiting g.non_block calm e
      (pausing-IsBetween g.num_workers) (λ t. cc)
OwnerMove-AreCalm g _ _ (inl (i, e')) (OwnerMove.all_paused e all) =
    absurd ((awaiting-IsBetween i).1 (sym e ∙ e'))
OwnerMove-AreCalm g _ _ (inr calm) (OwnerMove.all_paused e all) = inr (λ i lt. record {
  running = (calm i lt).running;
  waits = λ t. elim ((calm i lt).waits t) [
    | inl q ↦ inl q
    | inr q ↦ absurd ((awaiting-IsBetween i).0 (sym e ∙ q))
  ];
  told = λ t. all i lt;
})
OwnerMove-AreCalm g _ _ calm (OwnerMove.resume idle) =
    IsIdle-AreCalm g (unpausing 0) g.non_block calm idle (unpausing_flushed 0)
OwnerMove-AreCalm g _ _ calm (OwnerMove.resumed e) =
    IsBetween-AreCalm g (unpausing g.num_workers) outside false calm e
      (unpausing-IsBetween g.num_workers) (λ t. cc)
OwnerMove-AreCalm g _ _ calm (OwnerMove.destroy e) = inl (0, refl)

-- A step of one worker, in which it stays calm.
worker-AreCalm :
    (g : WorkerThreadGroup) (i : ℕ) (w : WorkerThread) (queue : List (List UpdateBatch))
    (applied : List UpdateBatch)
    → AreCalm g
    → i < g.num_workers
    → (IsCalm g.owner i (g.workers i) → IsCalm g.owner i w)
    → AreCalm (record g { workers = put i w g.workers; queue = queue; applied = applied })
worker-AreCalm g i w queue applied (inl stop) lt f = inl stop
worker-AreCalm g i w queue applied (inr calm) lt f =
    inr (λ j lt'. put_lem (IsCalm g.owner) i j w g.workers (f (calm i lt)) (λ ne. calm j lt'))

OwnerStep-IsStopping :
    (i k : ℕ) (p p' : OwnerPlace) (w w' : WorkerThread)
    → p ≡ stopping k
    → OwnerStep i p w p' w'
    → IsStopping p'
OwnerStep-IsStopping i k _ _ _ _ e (OwnerStep.pause_one _ w) = absurd ((pausing-IsBetween i k).1 e)
OwnerStep-IsStopping i k _ _ _ _ e (OwnerStep.unpause_one _ w) =
    absurd ((unpausing-IsBetween i k).1 e)
OwnerStep-IsStopping i k _ _ _ _ e (OwnerStep.clear_one _ w) = absurd (clearing_stopping e)
  where
    clearing_stopping : clearing i ≢ stopping k
    clearing_stopping e = cc
OwnerStep-IsStopping i k _ _ _ _ e (OwnerStep.stop_one _ w) = (suc i, refl)

owner_one-AreCalm :
    (g : WorkerThreadGroup) (i : ℕ) (p : OwnerPlace) (w : WorkerThread)
    → AreCalm g
    → i < g.num_workers
    → OwnerStep i g.owner (g.workers i) p w
    → AreCalm (record g { owner = p; workers = put i w g.workers })
owner_one-AreCalm g i p w (inl (k, e)) lt step =
    inl (OwnerStep-IsStopping i k g.owner p (g.workers i) w e step)
owner_one-AreCalm g i p w (inr calm) lt step =
    OwnerStep-AreCalm g i g.owner p (g.workers i) w calm (calm i lt) step

Step-AreCalm : (g g' : WorkerThreadGroup) → AreCalm g → Step g g' → AreCalm g'
Step-AreCalm _ _ (inl stop) (Step.insert g node e) = inl stop
Step-AreCalm _ _ (inr calm) (Step.insert g node e) = inr calm
Step-AreCalm _ _ calm (Step.get_data g i node front back lt e q) =
    worker-AreCalm g i _ (front ++ back) g.applied calm lt
      (λ c. IsCalm-moved g.owner i (g.workers i) (holding node) c (λ t. getting_waits (sym e ∙ t)))
Step-AreCalm _ _ calm (Step.get_nothing g i lt e q n) =
    worker-AreCalm g i _ g.queue g.applied calm lt
      (λ c. IsCalm-moved g.owner i (g.workers i) unserved c (λ t. getting_waits (sym e ∙ t)))
Step-AreCalm _ _ calm (Step.apply g i node lt e) =
    worker-AreCalm g i _ g.queue (callbacks node ++ g.applied) calm lt (λ c.
      IsCalm-moved g.owner i (g.workers i) at_get_data c (λ t. holding_waits node (sym e ∙ t)))
Step-AreCalm _ _ calm (Step.worker g i w lt step) =
    worker-AreCalm g i w g.queue g.applied calm lt
      (λ c. WorkerStep-IsCalm g.owner i (g.workers i) w c step)
Step-AreCalm _ _ calm (Step.owner_one g i p w lt step) = owner_one-AreCalm g i p w calm lt step
Step-AreCalm _ _ calm (Step.owner_move g p b move) = OwnerMove-AreCalm g p b calm move

outside_flushed : outside ≢ flushed
outside_flushed e = cc

Reaches-AreCalm : (n : ℕ) (g : WorkerThreadGroup) → Reaches (new_group n) g → AreCalm g
unfolding new_group
Reaches-AreCalm n _ Reaches.here = inr (λ i lt. record {
  running = refl;
  waits = λ t. absurd (false-true t);
  told = λ t. absurd ((outside_flushed) t);
})
Reaches-AreCalm n _ (Reaches.after_step g g' r step) =
    Step-AreCalm g g' (Reaches-AreCalm n g r) step

-- From a new group on, in every order of the steps of the workers and of the owner: between the
-- return of flush_workers and resume_workers each worker waits for the owner, with its two flags
-- set, so that none of them has a node of the queue in hand.
pub flushed_waiting :
    (n : ℕ) (g : WorkerThreadGroup)
    → Reaches (new_group n) g
    → g.owner ≡ flushed
    → (i : ℕ) → i < g.num_workers
    → ((g.workers i).place ≡ waiting)
      × ((g.workers i).paused ≡ true)
      × ((g.workers i).do_pause ≡ true)
flushed_waiting n g r e i lt = elim (Reaches-AreCalm n g r) [
  | inl (k, s) ↦ absurd ((flushed-IsBetween k).1 (sym e ∙ s))
  | inr calm ↦
      let c = calm i lt in
      elim (c.waits (c.told e)) [
        | inl (w, d) ↦ (w, c.told e, d)
        | inr q ↦ absurd ((flushed-IsBetween i).0 (sym e ∙ q))
      ]
]
