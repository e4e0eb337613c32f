-- ===== src/WorkerPool/Pool.antt =====
-- `WorkerPool` of src/worker_pool/pool.rs: the workers that `new` spawns and the loop of `run`. A worker
-- is known by its number and topic here; its loop is in WorkerPool/Loop and WorkerPool/Batch. `none` is
-- the panic of `expect`.
pub mod Topics
pub mod Rounds
pub mod Shutdown
use kaf_py.Prelude.{
  ℕ, zero, suc, ◌+◌, ◌-◌, Bool, true, false, ◌&&◌, Option, none, some, String, List, [], ◌∷◌, map,
  ◌>>=◌, if◌then◌else◌, string_eq,
}
use kaf_py.Prelude.Map
use kaf_py.Prelude.Map.{Map}
use kaf_py.Execution.Handler.{HandlerMode, PythonHandler}
use kaf_py.WorkerPool.Loop.{WorkerStatus, WorkerPoolState}

-- `WorkerPoolState::new`: the workers are idle.
unfoldable pub idle_from : ℕ → ℕ → WorkerPoolState
idle_from id zero = []
idle_from id (suc n) = (id, WorkerStatus.idle) ∷ idle_from (id + 1) n

unfoldable pub new_states : ℕ → WorkerPoolState
unfolding idle_from
new_states n_workers = idle_from 0 n_workers

unfoldable pub is_batch_sync : HandlerMode → Bool
is_batch_sync HandlerMode.batch_sync = true
is_batch_sync HandlerMode.single_sync = false

-- A task of the join set: `batch_worker_loop` or `worker_loop`.
pub data WorkerTask : Type 0 where
  batch_worker worker : ℕ → String → WorkerTask

module _ {Callback Middleware Policy Sink : Type 0} where
  unfoldable pub all_batch : Map String (PythonHandler Callback Middleware Policy Sink) → Bool
  unfolding is_batch_sync
  all_batch [] = true
  all_batch ((topic, handler) ∷ handlers) = is_batch_sync handler.mode && all_batch handlers

  -- The loop over the receivers, whose topics these are.
  unfoldable pub spawn_workers :
      Map String (PythonHandler Callback Middleware Policy Sink)
      → Bool
      → ℕ
      → ℕ
      → List String
      → Option (List WorkerTask)
  spawn_workers handlers batch worker_id zero topics = some []
  spawn_workers handlers batch worker_id (suc n) [] = some []
  spawn_workers handlers batch worker_id (suc n) (topic ∷ topics) =
      let rest = spawn_workers handlers batch (worker_id + 1) n topics in
      let batch_tasks : Option (List WorkerTask) = (do
        handler ← Map.get topic handlers
        tasks ← rest
        some (batch_worker worker_id topic ∷ tasks)) in
      let tasks : Option (List WorkerTask) = (do
        tasks ← rest
        some (worker worker_id topic ∷ tasks)) in
      if batch then batch_tasks else tasks

  unfoldable pub new :
      ℕ
      → List String
      → Map String (PythonHandler Callback Middleware Policy Sink)
      → Option (List WorkerTask × WorkerPoolState)
  unfolding all_batch spawn_workers new_states
  new n_workers topics handlers = do
    tasks ← spawn_workers handlers (all_batch handlers) 0 n_workers topics
    some (tasks, new_states n_workers)

-- The token as the head of the loop of `run` reads it.
pub data Round : Type 0 where
  cancelled not_cancelled : Round

-- `joined` counts the workers that were waited for, `idle_rounds` the rounds that waited for nothing.
pub record Running : Type 0 where
  pub workers : ℕ
  pub joined : ℕ
  pub idle_rounds : ℕ
  pub shuts_down : Bool

-- It waits for a worker that ends while there is one, and returns at once when there is none.
unfoldable pub join_next : Running → Running
join_next r = elim r.workers [
  | zero ↦ record r { idle_rounds = r.idle_rounds + 1 }
  | suc n ↦ record r { workers = n; joined = r.joined + 1 }
]

unfoldable pub run : Running → List Round → Running
unfolding join_next
run r [] = r
run r (cancelled ∷ rounds) = record r { shuts_down = true }
run r (not_cancelled ∷ rounds) = run (join_next r) rounds
