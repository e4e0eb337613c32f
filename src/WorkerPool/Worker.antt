-- ===== src/WorkerPool/Worker.antt =====
-- src/worker_pool/worker.rs: the handling of a single message.
use kaf_py.Prelude.{
  ℕ, Bool, true, false, Option, none, some, List, [], ◌∷◌, Float64, ◌>>=◌, if◌then◌else◌,
}
use kaf_py.Failure.{FailureReason, TerminalKind}
use kaf_py.Message.{OwnedMessage}
use kaf_py.Retry.Coordinator.{record_success}
use kaf_py.Offset.Tracker
use kaf_py.Dlq.{DlqRouter}
use kaf_py.Dlq.Channel.{Texts}
use kaf_py.Execution.{ExecutionResult}
use kaf_py.WorkerPool.{
  Shared, ExecutionAction, ExecutionContext, retry_key, ack_queue, handle_execution_failure,
}

-- The context of a message.
unfoldable pub context : OwnedMessage → ExecutionContext
context msg = record { topic = msg.topic; partition = msg.partition; offset = msg.offset }

abbrev pub tracker_key : ExecutionContext → Tracker.TopicPartition
tracker_key ctx = record { topic = ctx.topic; partition = ctx.partition }

module _ (fl : Float64) {Sender : Type 0} (texts : Texts) (router : DlqRouter) (now : ℕ) where
  -- The branch of `Ok`.
  unfoldable pub succeed :
      Shared fl.F64 Sender
      → ExecutionContext
      → OwnedMessage
      → Option (Shared fl.F64 Sender × Option ExecutionAction)
  succeed s ctx msg =
      let s : Shared fl.F64 Sender = record s {
        retry_coordinator = record_success s.retry_coordinator (retry_key ctx);
      } in
      let s : Shared fl.F64 Sender = ack_queue fl texts router now s msg.topic in
      (do
        t ← Tracker.ack s.offset_coordinator (tracker_key ctx) ctx.offset
        some (record s { offset_coordinator = t }, none))

  -- The other branches: the failure is recorded in the tracker first.
  unfoldable pub fail :
      Shared fl.F64 Sender
      → fl.F64
      → ExecutionContext
      → OwnedMessage
      → ExecutionResult
      → FailureReason
      → Option (Shared fl.F64 Sender × Option ExecutionAction)
  fail s draw ctx msg result reason =
      let t : Tracker.OffsetTracker =
        Tracker.mark_failed s.offset_coordinator (tracker_key ctx) ctx.offset reason in
      (do
        (s', action) ←
            handle_execution_failure fl texts router now (record s { offset_coordinator = t }) draw
              ctx msg result
        some (s', some action))

  unfoldable pub handle_execution_result :
      Shared fl.F64 Sender
      → fl.F64
      → ExecutionContext
      → OwnedMessage
      → ExecutionResult
      → Option (Shared fl.F64 Sender × Option ExecutionAction)
  unfolding succeed fail
  handle_execution_result s draw ctx msg ExecutionResult.ok = succeed s ctx msg
  handle_execution_result s draw ctx msg (ExecutionResult.error reason e t) =
      fail s draw ctx msg (ExecutionResult.error reason e t) reason
  handle_execution_result s draw ctx msg (ExecutionResult.rejected reason t) =
      fail s draw ctx msg (ExecutionResult.rejected reason t) reason
  handle_execution_result s draw ctx msg (ExecutionResult.timeout info) =
      fail s draw ctx msg (ExecutionResult.timeout info)
        (FailureReason.terminal TerminalKind.handler_panic)

-- `WorkerState` of src/worker_pool/state.rs.
pub data WorkerState : Type 0 where
  idle : WorkerState
  processing : OwnedMessage → WorkerState

abbrev pub is_retry : Option ExecutionAction → Bool
is_retry (some (ExecutionAction.retry delay)) = true
is_retry _ = false

-- A run of the handler: the draw for the delay, the result, and whether the token is cancelled by the time that the
-- worker looks at it, in the sleep before the next attempt or after the message.
pub record HandlerRun (F64 : Type 0) : Type 0 where
  pub draw : F64
  pub result : ExecutionResult
  pub is_cancelled : Bool

-- How the rounds on a message end: the loop is in that state, or it has returned.
pub data Progress : Type 0 where
  goes_on : WorkerState → Progress
  stopped : Progress

-- The rounds of `worker_loop` that handle one message. An entry of the list is a run of the handler; the worker
-- stays on the message while the action is a retry, and returns when it is cancelled. The sinks of the fan-out are
-- not part of the state.
unfoldable pub process :
    (fl : Float64) {Sender : Type 0}
    → Texts
    → DlqRouter
    → ℕ
    → Shared fl.F64 Sender
    → OwnedMessage
    → List (HandlerRun fl.F64)
    → Option (Shared fl.F64 Sender × Progress)
process fl texts router now s msg [] = some (s, goes_on (processing msg))
process fl texts router now s msg (r ∷ rs) = do
  (s', action) ← handle_execution_result fl texts router now s r.draw (context msg) msg r.result
  let rest = process fl texts router now s' msg rs in
      if r.is_cancelled
      then some (s', stopped)
      else if is_retry action
      then rest
      else some (s', goes_on idle)
