-- ===== src/WorkerThreads/Examples.antt =====
-- Runs of a group of one worker (include/worker_thread_group.h), and the witnesses.
use graph_zeppelin.Base.{ℕ, zero, suc, ◌<◌, ◌≡◌, inl, inr, refl, arith, true, List, [], ◌∷◌}
use graph_zeppelin.WorkerThreads.Stuck.{IsStuck, Reaches-IsStuck}
use graph_zeppelin.WorkerThreads.{
  waiting, WorkerThreadGroup, new_group, WorkerStep, OwnerStep, OwnerMove, Step, Reaches,
  UpdateBatch, flushed,
}
use graph_zeppelin.WorkerThreads.Flush.{flushed_waiting}

infixl 5 ◌and◌
abbrev ◌and◌ : {g g' g'' : WorkerThreadGroup} → Reaches g g' → Step g' g'' → Reaches g g''
r and s = Reaches.after_step _ _ r s

only_first : (P : ℕ → Type 0) → P 0 → (i : ℕ) → i < 1 → P i
only_first P p zero lt = p
only_first P p (suc i) lt = absurd (omega arith)

-- The worker finds nothing and pauses, and flush_workers returns.
first_flush : (g : WorkerThreadGroup) × Reaches (new_group 1) g
unfolding new_group
first_flush = (
  _,
  Reaches.here
      and Step.owner_move _ _ _ (OwnerMove.flush (inl refl))
      and Step.get_nothing _ 0 (omega arith) refl refl refl
      and Step.owner_one _ 0 _ _ (omega arith) (OwnerStep.pause_one 0 _)
      and Step.owner_move _ _ _ (OwnerMove.await refl)
      and Step.worker _ 0 _ (omega arith) (WorkerStep.pause _ refl refl refl)
      and Step.owner_move _ _ _ (OwnerMove.all_paused refl (only_first _ refl)),
)

flushed_waiting_example :
    ((first_flush.0.workers 0).place ≡ waiting)
    × ((first_flush.0.workers 0).paused ≡ true)
    × ((first_flush.0.workers 0).do_pause ≡ true)
unfolding first_flush
flushed_waiting_example = flushed_waiting 1 first_flush.0 first_flush.1 refl 0 (omega arith)

-- The owner resumes the worker, which does not move, and flushes again.
stuck_run : (g : WorkerThreadGroup) × Reaches (new_group 1) g × IsStuck 0 g
unfolding first_flush
stuck_run = (
  _,
  first_flush.1
      and Step.owner_move _ _ _ (OwnerMove.resume (inr refl))
      and Step.owner_one _ 0 _ _ (omega arith) (OwnerStep.unpause_one 0 _)
      and Step.owner_one _ 0 _ _ (omega arith) (OwnerStep.clear_one 0 _)
      and Step.owner_move _ _ _ (OwnerMove.resumed refl)
      and Step.owner_move _ _ _ (OwnerMove.flush (inl refl))
      and Step.owner_one _ 0 _ _ (omega arith) (OwnerStep.pause_one 0 _)
      and Step.owner_move _ _ _ (OwnerMove.await refl),
  record {
    some_worker = omega arith;
    awaits = refl;
    silent = record { waits = refl; silent = refl; still = refl; running = refl };
  },
)

Reaches-IsStuck_example : IsStuck 0 (stuck_run.0)
Reaches-IsStuck_example = Reaches-IsStuck 0 (stuck_run.0) (stuck_run.0) (stuck_run.2) Reaches.here

abbrev one_node : List UpdateBatch
one_node = record { node_idx = 0; upd_vec = 1 ∷ [] } ∷ []

-- The worker fails to get data before the owner lets it wait again, and reads the flag in the next
-- flush: flush_workers returns with the node that was inserted before it in the queue.
early_return :
    (g : WorkerThreadGroup) × Reaches (new_group 1) g
    × (g.owner ≡ flushed)
    × (g.queue ≡ one_node ∷ [])
unfolding first_flush
early_return = (
  _,
  first_flush.1
      and Step.owner_move _ _ _ (OwnerMove.resume (inr refl))
      and Step.owner_one _ 0 _ _ (omega arith) (OwnerStep.unpause_one 0 _)
      and Step.worker _ 0 _ (omega arith) (WorkerStep.wake _ refl (inl refl))
      and Step.worker _ 0 _ (omega arith) (WorkerStep.leave _ refl)
      and Step.get_nothing _ 0 (omega arith) refl refl refl
      and Step.owner_one _ 0 _ _ (omega arith) (OwnerStep.clear_one 0 _)
      and Step.owner_move _ _ _ (OwnerMove.resumed refl)
      and Step.insert _ one_node refl
      and Step.owner_move _ _ _ (OwnerMove.flush (inl refl))
      and Step.owner_one _ 0 _ _ (omega arith) (OwnerStep.pause_one 0 _)
      and Step.owner_move _ _ _ (OwnerMove.await refl)
      and Step.worker _ 0 _ (omega arith) (WorkerStep.pause _ refl refl refl)
      and Step.owner_move _ _ _ (OwnerMove.all_paused refl (only_first _ refl)),
  refl,
  refl,
)
