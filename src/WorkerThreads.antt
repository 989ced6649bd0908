-- ===== src/WorkerThreads.antt =====
-- include/worker_thread_group.h: the threads that apply the buffered updates, and the group that
-- pauses and resumes them, as a step relation over every interleaving. Each write of a flag is a
-- step of its own; what runs under the flush lock is one step. The guttering system is known by
-- its queue: get_data takes any node of it, waits, or fails when it must not wait.
pub mod Places
pub mod Examples
pub mod Flush
pub mod Stuck
use graph_zeppelin.Base.{
  ℕ, zero, suc, ◌+◌, ◌-◌, ◌*◌, ◌≤◌, ◌<◌, ◌≡◌, ◌≢◌, ◌⊎◌, ◌↔◌, inl, inr, refl, sym, ◌∙◌, ap, subst,
  arith, Bool, true, false, not, ◌&&◌, ◌||◌, List, [], ◌∷◌, ◌++◌, Option, none, some, map, lookup,
  length, ltb, leb, ◌==◌, ==_iff, if◌then◌else◌, Option-cases, Bool-cases, eq-cases, some_eq,
  get_or, set, contains, alter, replicate, dec_lt, dec_le,
}
use mathlib.Core.Path.{ap₂, subst₂}

-- A batch of updates of a vertex, and a node of the queue, which is a list of them.
pub record UpdateBatch : Type 0 where
  pub node_idx : ℕ
  pub upd_vec : List ℕ

-- The place in do_work: at get_data, with a node, after get_data failed, in the wait, after it,
-- and after the return.
pub data WorkerPlace : Type 0 where
  at_get_data : WorkerPlace
  holding : List UpdateBatch → WorkerPlace
  unserved waiting woken returned : WorkerPlace

pub record WorkerThread : Type 0 where
  pub place : WorkerPlace
  pub shutdown : Bool
  pub do_pause : Bool
  pub paused : Bool

-- The place of the thread that owns the group: outside, in the loops of flush_workers, in its
-- wait, between flush_workers and resume_workers, in the two writes of unpause, in the destructor.
pub data OwnerPlace : Type 0 where
  outside awaiting flushed : OwnerPlace
  pausing unpausing clearing stopping : ℕ → OwnerPlace

pub record WorkerThreadGroup : Type 0 where
  pub num_workers : ℕ
  pub workers : ℕ → WorkerThread
  pub owner : OwnerPlace
  pub queue : List (List UpdateBatch)
  pub non_block : Bool
  pub applied : List UpdateBatch

-- The batches of a node for which batch_callback is called.
unfoldable pub callbacks : List UpdateBatch → List UpdateBatch
callbacks [] = []
callbacks (b ∷ bs) = let rest = callbacks bs in if length b.upd_vec == 0 then rest else b ∷ rest

-- The workers with the `i`th one replaced.
abbrev pub put : ℕ → WorkerThread → (ℕ → WorkerThread) → ℕ → WorkerThread
put i w ws j = if i == j then w else ws j

abbrev pub new_worker : WorkerThread
new_worker = record { place = at_get_data; shutdown = false; do_pause = false; paused = false }

unfoldable pub new_group : ℕ → WorkerThreadGroup
new_group n = record {
  num_workers = n;
  workers = λ i. new_worker;
  owner = outside;
  queue = [];
  non_block = false;
  applied = [];
}

-- A worker's own step, as a change of the worker.
pub data WorkerStep : WorkerThread → WorkerThread → Type 0 where
  exit :
      (w : WorkerThread)
      → w.place ≡ unserved
      → w.shutdown ≡ true
      → WorkerStep w (record w { place = returned })
  pause :
      (w : WorkerThread)
      → w.place ≡ unserved
      → w.shutdown ≡ false
      → w.do_pause ≡ true
      → WorkerStep w (record w { place = waiting; paused = true })
  again :
      (w : WorkerThread)
      → w.place ≡ unserved
      → w.shutdown ≡ false
      → w.do_pause ≡ false
      → WorkerStep w (record w { place = at_get_data })
  wake :
      (w : WorkerThread)
      → w.place ≡ waiting
      → (w.do_pause ≡ false) ⊎ (w.shutdown ≡ true)
      → WorkerStep w (record w { place = woken })
  leave :
      (w : WorkerThread)
      → w.place ≡ woken
      → WorkerStep w (record w { place = at_get_data; paused = false })

-- A step of the owner on one worker, with the owner's place before and after.
pub data OwnerStep : ℕ → OwnerPlace → WorkerThread → OwnerPlace → WorkerThread → Type 0 where
  pause_one :
      (i : ℕ) (w : WorkerThread)
      → OwnerStep i (pausing i) w (pausing (suc i)) (record w { do_pause = true })
  unpause_one :
      (i : ℕ) (w : WorkerThread)
      → OwnerStep i (unpausing i) w (clearing i) (record w { do_pause = false })
  clear_one :
      (i : ℕ) (w : WorkerThread)
      → OwnerStep i (clearing i) w (unpausing (suc i)) (record w { paused = false })
  stop_one :
      (i : ℕ) (w : WorkerThread)
      → OwnerStep i (stopping i) w (stopping (suc i)) (record w { shutdown = true })

-- Outside the calls, whether or not the workers are paused.
abbrev pub IsIdle : OwnerPlace → Type 0
IsIdle p = (p ≡ outside) ⊎ (p ≡ flushed)

-- The other steps of the owner: its place and the flag of the guttering system.
pub data OwnerMove (g : WorkerThreadGroup) : OwnerPlace → Bool → Type 0 where
  flush : IsIdle g.owner → OwnerMove g (pausing 0) true
  await : g.owner ≡ pausing g.num_workers → OwnerMove g awaiting g.non_block
  all_paused :
      g.owner ≡ awaiting
      → ((i : ℕ) → i < g.num_workers → (g.workers i).paused ≡ true)
      → OwnerMove g flushed g.non_block
  resume : IsIdle g.owner → OwnerMove g (unpausing 0) g.non_block
  resumed : g.owner ≡ unpausing g.num_workers → OwnerMove g outside false
  destroy : IsIdle g.owner → OwnerMove g (stopping 0) true

pub data Step : WorkerThreadGroup → WorkerThreadGroup → Type 0 where
  insert :
      (g : WorkerThreadGroup) (node : List UpdateBatch)
      → g.owner ≡ outside
      → Step g (record g { queue = node ∷ g.queue })
  get_data :
      (g : WorkerThreadGroup) (i : ℕ) (node : List UpdateBatch)
      (front back : List (List UpdateBatch))
      → i < g.num_workers
      → (g.workers i).place ≡ at_get_data
      → g.queue ≡ front ++ node ∷ back
      → Step g (record g {
        workers = put i (record (g.workers i) { place = holding node }) g.workers;
        queue = front ++ back;
      })
  get_nothing :
      (g : WorkerThreadGroup) (i : ℕ)
      → i < g.num_workers
      → (g.workers i).place ≡ at_get_data
      → g.queue ≡ []
      → g.non_block ≡ true
      → Step g (record g { workers = put i (record (g.workers i) { place = unserved }) g.workers })
  apply :
      (g : WorkerThreadGroup) (i : ℕ) (node : List UpdateBatch)
      → i < g.num_workers
      → (g.workers i).place ≡ holding node
      → Step g (record g {
        workers = put i (record (g.workers i) { place = at_get_data }) g.workers;
        applied = callbacks node ++ g.applied;
      })
  worker :
      (g : WorkerThreadGroup) (i : ℕ) (w : WorkerThread)
      → i < g.num_workers
      → WorkerStep (g.workers i) w
      → Step g (record g { workers = put i w g.workers })
  owner_one :
      (g : WorkerThreadGroup) (i : ℕ) (p : OwnerPlace) (w : WorkerThread)
      → i < g.num_workers
      → OwnerStep i g.owner (g.workers i) p w
      → Step g (record g { owner = p; workers = put i w g.workers })
  owner_move :
      (g : WorkerThreadGroup) (p : OwnerPlace) (b : Bool)
      → OwnerMove g p b
      → Step g (record g { owner = p; non_block = b })

-- What steps lead to.
pub data Reaches (g : WorkerThreadGroup) : WorkerThreadGroup → Type 0 where
  here : Reaches g g
  after_step : (g' g'' : WorkerThreadGroup) → Reaches g g' → Step g' g'' → Reaches g g''
