-- ===== src/WorkerThreads/Stuck.antt =====
-- include/worker_thread_group.h: a pause that a worker in the wait does not see.
use graph_zeppelin.Base.{
  ℕ, ◌<◌, ◌≡◌, inl, inr, refl, sym, ◌∙◌, subst, Bool, true, false, List, ◌++◌,
}
use graph_zeppelin.WorkerThreads.{
  IsIdle, UpdateBatch, waiting, WorkerThread, OwnerPlace, awaiting, WorkerThreadGroup, put,
  WorkerStep, OwnerStep, OwnerMove, Step, Reaches, callbacks,
}
use graph_zeppelin.WorkerThreads.Places.{
  false-true, unserved_waits, woken_waits, getting_waits, holding_waits, outside_awaiting,
  flushed_awaiting, pausing_awaiting, unpausing_awaiting, clearing_awaiting, stopping_awaiting,
}
use graph_zeppelin.WorkerThreads.Flush.{put_lem}

-- A worker in the wait that is to pause, and has not said that it does.
pub record IsSilent (w : WorkerThread) : Type 0 where
  pub waits : w.place ≡ waiting
  pub silent : w.paused ≡ false
  pub still : w.do_pause ≡ true
  pub running : w.shutdown ≡ false

-- The owner waits in flush_workers, and the worker is silent.
pub record IsStuck (i : ℕ) (g : WorkerThreadGroup) : Type 0 where
  pub some_worker : i < g.num_workers
  pub awaits : g.owner ≡ awaiting
  pub silent : IsSilent (g.workers i)

no-WorkerStep : (w w' : WorkerThread) → IsSilent w → WorkerStep w w' → ⊥
no-WorkerStep _ _ s (WorkerStep.exit w e p) = unserved_waits (sym e ∙ s.waits)
no-WorkerStep _ _ s (WorkerStep.pause w e p d) = unserved_waits (sym e ∙ s.waits)
no-WorkerStep _ _ s (WorkerStep.again w e p d) = unserved_waits (sym e ∙ s.waits)
no-WorkerStep _ _ s (WorkerStep.wake w e d) = elim d [
  | inl f ↦ false-true (sym f ∙ s.still)
  | inr f ↦ false-true (sym s.running ∙ f)
]
no-WorkerStep _ _ s (WorkerStep.leave w e) = woken_waits (sym e ∙ s.waits)

no-OwnerStep :
    (i : ℕ) (p p' : OwnerPlace) (w w' : WorkerThread) → p ≡ awaiting → OwnerStep i p w p' w' → ⊥
no-OwnerStep i _ _ _ _ e (OwnerStep.pause_one _ w) = pausing_awaiting i e
no-OwnerStep i _ _ _ _ e (OwnerStep.unpause_one _ w) = unpausing_awaiting i e
no-OwnerStep i _ _ _ _ e (OwnerStep.clear_one _ w) = clearing_awaiting i e
no-OwnerStep i _ _ _ _ e (OwnerStep.stop_one _ w) = stopping_awaiting i e

not_idle : (g : WorkerThreadGroup) → IsIdle g.owner → g.owner ≡ awaiting → ⊥
not_idle g (inl e) a = outside_awaiting (sym e ∙ a)
not_idle g (inr e) a = flushed_awaiting (sym e ∙ a)

no-OwnerMove :
    (i : ℕ) (g : WorkerThreadGroup) (p : OwnerPlace) (b : Bool) → IsStuck i g → OwnerMove g p b → ⊥
no-OwnerMove i g _ _ s (OwnerMove.flush idle) = not_idle g idle s.awaits
no-OwnerMove i g _ _ s (OwnerMove.await e) = pausing_awaiting g.num_workers (sym e ∙ s.awaits)
no-OwnerMove i g _ _ s (OwnerMove.all_paused e all) =
    false-true (sym s.silent.silent ∙ all i s.some_worker)
no-OwnerMove i g _ _ s (OwnerMove.resume idle) = not_idle g idle s.awaits
no-OwnerMove i g _ _ s (OwnerMove.resumed e) = unpausing_awaiting g.num_workers (sym e ∙ s.awaits)
no-OwnerMove i g _ _ s (OwnerMove.destroy idle) = not_idle g idle s.awaits

-- A step of a worker that is not silent.
worker-IsStuck :
    (i j : ℕ) (g : WorkerThreadGroup) (w : WorkerThread) (queue : List (List UpdateBatch))
    (applied : List UpdateBatch)
    → IsStuck i g
    → (IsSilent (g.workers j) → ⊥)
    → IsStuck i (record g { workers = put j w g.workers; queue = queue; applied = applied })
worker-IsStuck i j g w queue applied s active = record {
  some_worker = s.some_worker;
  awaits = s.awaits;
  silent =
      put_lem (λ k v. k ≡ i → IsSilent v) j i w g.workers
        (λ e. absurd (active (subst (λ k. IsSilent (g.workers k)) (sym e) s.silent)))
        (λ ne e. s.silent) refl;
}

Step-IsStuck : (i : ℕ) (g g' : WorkerThreadGroup) → IsStuck i g → Step g g' → IsStuck i g'
Step-IsStuck i _ _ s (Step.insert g node e) = absurd (outside_awaiting (sym e ∙ s.awaits))
Step-IsStuck i _ _ s (Step.get_data g j node front back lt e q) =
    worker-IsStuck i j g _ (front ++ back) g.applied s (λ t. getting_waits (sym e ∙ t.waits))
Step-IsStuck i _ _ s (Step.get_nothing g j lt e q n) =
    worker-IsStuck i j g _ g.queue g.applied s (λ t. getting_waits (sym e ∙ t.waits))
Step-IsStuck i _ _ s (Step.apply g j node lt e) =
    worker-IsStuck i j g _ g.queue (callbacks node ++ g.applied) s
      (λ t. holding_waits node (sym e ∙ t.waits))
Step-IsStuck i _ _ s (Step.worker g j w lt step) =
    worker-IsStuck i j g w g.queue g.applied s (λ t. no-WorkerStep (g.workers j) w t step)
Step-IsStuck i _ _ s (Step.owner_one g j p w lt step) =
    absurd (no-OwnerStep j g.owner p (g.workers j) w s.awaits step)
Step-IsStuck i _ _ s (Step.owner_move g p b move) = absurd (no-OwnerMove i g p b s move)

-- Let flush_workers wait for the workers, one of which has been told to pause while it was in the
-- wait of an earlier pause, and has not set its flag again. Then no order of steps leads anywhere
-- else: flush_workers never returns.
pub Reaches-IsStuck : (i : ℕ) (g g' : WorkerThreadGroup) → IsStuck i g → Reaches g g' → IsStuck i g'
Reaches-IsStuck i g _ s Reaches.here = s
Reaches-IsStuck i g _ s (Reaches.after_step g1 g2 r step) =
    Step-IsStuck i g1 g2 (Reaches-IsStuck i g g1 s r) step
