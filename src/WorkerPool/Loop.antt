-- ===== src/WorkerPool/Loop.antt =====
-- `worker_loop` of src/worker_pool/worker.rs, with `WorkerPoolState` of
-- src/observability/runtime_snapshot.rs. What the worker meets is a list of events: the message or the
-- cancellation that it picks up, the result of a run of the handler, and whether the shutdown token is
-- cancelled by the time it is looked at. An event that the worker does not wait for passes it by.
pub mod Status
use kaf_py.Prelude.{
  ℕ, Bool, true, false, Option, none, some, String, ℤ, List, [], ◌∷◌, ◌++◌, Float64, ◌>>=◌,
  if◌then◌else◌, nat_eq, string_eq,
}
use kaf_py.Prelude.Map
use kaf_py.Prelude.Map.{Map}
use kaf_py.Message.{OwnedMessage}
use kaf_py.Dlq.{DlqRouter}
use kaf_py.Dlq.Channel.{Texts}
use kaf_py.Execution.{ExecutionResult}
use kaf_py.WorkerPool.{Shared, ExecutionAction}
use kaf_py.WorkerPool.Worker.{WorkerState, context, handle_execution_result}

pub data WorkerStatus : Type 0 where
  idle : WorkerStatus
  active : String → String → ℤ → ℤ → WorkerStatus
  busy : String → WorkerStatus

-- The status of each worker by its number.
abbrev pub WorkerPoolState : Type 0
WorkerPoolState = Map ℕ WorkerStatus

unfoldable pub set_active : WorkerPoolState → ℕ → String → String → ℤ → ℤ → WorkerPoolState
set_active states worker_id handler_id topic partition offset =
    Map.insert worker_id (active handler_id topic partition offset) states

unfoldable pub set_busy : WorkerPoolState → ℕ → String → WorkerPoolState
set_busy states worker_id handler_id = Map.insert worker_id (busy handler_id) states

unfoldable pub set_idle : WorkerPoolState → ℕ → WorkerPoolState
set_idle states worker_id = Map.insert worker_id idle states

unfoldable pub get_states : WorkerPoolState → Map ℕ WorkerStatus
get_states states = states

-- `None` of `handler_for_topic` is the panic on an empty map.
unfoldable pub handler_for_topic : {Handler : Type 0} → Map String Handler → String → Option Handler
handler_for_topic handlers topic = elim (Map.get topic handlers) [
  | some handler ↦ some handler
  | none ↦ elim handlers [ [] ↦ none | entry ∷ rest ↦ some entry.1 ]
]

-- `handled` carries the draw of the jitter, the result, and whether the token is cancelled.
pub data Event (F64 : Type 0) : Type 0 where
  received : OwnedMessage → Event F64
  cancelled : Event F64
  handled : F64 → ExecutionResult → Bool → Event F64

-- `dispatched` holds the messages that went to `process_fan_out`, the latest last; `stopped` is the
-- end of the loop.
pub record Worker (F64 Sender : Type 0) : Type 0 where
  pub shared : Shared F64 Sender
  pub state : WorkerState
  pub pool_state : WorkerPoolState
  pub dispatched : List OwnedMessage
  pub stopped : Bool

module _ (fl : Float64) {Sender : Type 0} (texts : Texts) (router : DlqRouter)
    (now worker_id : ℕ) where
  unfoldable pub stop : Worker fl.F64 Sender → Worker fl.F64 Sender
  stop w = record w { pool_state = set_idle w.pool_state worker_id; stopped = true }

  -- What follows the handling of a message.
  unfoldable pub continue :
      Worker fl.F64 Sender → OwnedMessage → Option ExecutionAction → Bool → Worker fl.F64 Sender
  unfolding stop set_idle
  continue w msg (some (ExecutionAction.retry delay)) is_cancelled =
      if is_cancelled then stop w else record w { state = WorkerState.processing msg }
  continue w msg action is_cancelled = if is_cancelled then stop w else record w {
    dispatched = w.dispatched ++ msg ∷ [];
    pool_state = set_idle w.pool_state worker_id;
    state = WorkerState.idle;
  }

  -- One round of the loop, in the state of the worker.
  unfoldable pub round :
      WorkerState → Event fl.F64 → Worker fl.F64 Sender → Option (Worker fl.F64 Sender)
  unfolding continue set_active
  round WorkerState.idle (received msg) w = some (record w {
    state = WorkerState.processing msg;
    pool_state = set_active w.pool_state worker_id msg.topic msg.topic msg.partition msg.offset;
  })
  round WorkerState.idle cancelled w = some (record w { stopped = true })
  round WorkerState.idle (handled draw result is_cancelled) w = some w
  round (WorkerState.processing msg) (handled draw result is_cancelled) w = do
    (shared, action) ←
        handle_execution_result fl texts router now w.shared draw (context msg) msg result
    some (continue (record w { shared = shared }) msg action is_cancelled)
  round (WorkerState.processing msg) (received other) w = some w
  round (WorkerState.processing msg) cancelled w = some w

  unfoldable pub worker_loop :
      List (Event fl.F64) → Worker fl.F64 Sender → Option (Worker fl.F64 Sender)
  unfolding round
  worker_loop [] w = some w
  worker_loop (event ∷ events) w =
      if w.stopped then some w else (do w' ← round w.state event w; worker_loop events w')
