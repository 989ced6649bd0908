-- ===== src/WorkerThreads/Places.antt =====
-- The places of the threads of include/worker_thread_group.h differ.
use graph_zeppelin.Base.{ℕ, ◌≢◌, true, false, List}
use graph_zeppelin.WorkerThreads.{
  UpdateBatch, at_get_data, holding, unserved, waiting, woken, outside, awaiting, flushed, pausing,
  unpausing, clearing, stopping,
}

pub false-true : false ≢ true
false-true e = cc

pub unserved_waits : unserved ≢ waiting
unserved_waits e = cc

pub woken_waits : woken ≢ waiting
woken_waits e = cc

pub holding_waits : (node : List UpdateBatch) → holding node ≢ waiting
holding_waits node e = cc

pub getting_waits : at_get_data ≢ waiting
getting_waits e = cc

pub outside_awaiting : outside ≢ awaiting
outside_awaiting e = cc

pub flushed_awaiting : flushed ≢ awaiting
flushed_awaiting e = cc

pub pausing_awaiting : (i : ℕ) → pausing i ≢ awaiting
pausing_awaiting i e = cc

pub unpausing_awaiting : (i : ℕ) → unpausing i ≢ awaiting
unpausing_awaiting i e = cc

pub clearing_awaiting : (i : ℕ) → clearing i ≢ awaiting
clearing_awaiting i e = cc

pub stopping_awaiting : (i : ℕ) → stopping i ≢ awaiting
stopping_awaiting i e = cc
