-- ===== src/WorkerPool/Batch.antt =====
-- src/worker_pool/batch_loop.rs: the worker of a batch handler. The handler is an argument, `invoke`,
-- the result of a batch; the clock is one as well, and `draw`, the random draw for an offset.
pub mod Sizes
pub mod Results
use kaf_py.Prelude.{
  ℕ, ◌≤◌, ◌≡◌, Bool, true, false, not, ◌||◌, Option, none, some, String, ℤ, List, [], ◌∷◌, Float64,
  ◌>>=◌, if◌then◌else◌, leb,
}
use kaf_py.Failure.{FailureReason}
use kaf_py.Message.{OwnedMessage}
use kaf_py.Retry.Coordinator.{RetryKey, Decision, record_failure, record_success, attempt_count}
use kaf_py.Offset.Tracker
use kaf_py.Dispatcher.Queues.{get_capacity, get_inflight}
use kaf_py.Dlq.{DlqMetadata, DlqRouter}
use kaf_py.Dlq.Channel.{Texts}
use kaf_py.Execution.{BatchExecutionResult, all_success, all_failure}
use kaf_py.Execution.Batch
use kaf_py.Execution.Batch.{
  BatchAccumulator, flush_all, flush_partition, would_fill_partition, next_deadline,
}
use kaf_py.WorkerPool.{Shared, ExecutionContext, retry_key, ack_queue, produce, failure_metadata}
use kaf_py.WorkerPool.Worker.{tracker_key}

-- src/worker_pool/state.rs
pub data BatchState : Type 0 where
  normal backpressure : BatchState

abbrev pub is_backpressure : BatchState → Bool
is_backpressure normal = false
is_backpressure backpressure = true

-- The context of one offset of a batch.
abbrev pub at_offset : String → ℤ → ℤ → ExecutionContext
at_offset topic partition offset = record { topic = topic; partition = partition; offset = offset }

module _ (fl : Float64) {Sender : Type 0} (texts : Texts) (router : DlqRouter) (now : ℕ)
    (draw : ℤ → fl.F64) where
  -- `AllSuccess`: each offset on its own.
  unfoldable pub ack_offsets :
      Shared fl.F64 Sender → String → ℤ → List ℤ → Option (Shared fl.F64 Sender)
  ack_offsets s topic partition [] = some s
  ack_offsets s topic partition (offset ∷ offsets) =
      let ctx : ExecutionContext = at_offset topic partition offset in
      let s : Shared fl.F64 Sender = record s {
        retry_coordinator = record_success s.retry_coordinator (retry_key ctx);
      } in
      let s : Shared fl.F64 Sender = ack_queue fl texts router now s topic in
      (do
        t ← Tracker.ack s.offset_coordinator (tracker_key ctx) offset
        ack_offsets (record s { offset_coordinator = t }) topic partition offsets)

  -- A message that may be retried goes to the dead-letter queue as well.
  unfoldable pub route_failed :
      Shared fl.F64 Sender
      → ExecutionContext
      → OwnedMessage
      → FailureReason
      → Decision
      → Shared fl.F64 Sender
  unfolding produce
  route_failed s ctx msg reason (should_retry, should_dlq, delay) =
      if should_dlq || should_retry
      then produce fl texts router now s msg (
          failure_metadata now ctx reason (attempt_count s.retry_coordinator (retry_key ctx)) none
            none)
      else s

  -- `AllFailure`: each message on its own.
  unfoldable pub fail_messages :
      Shared fl.F64 Sender
      → String
      → ℤ
      → FailureReason
      → List OwnedMessage
      → Option (Shared fl.F64 Sender)
  fail_messages s topic partition reason [] = some s
  fail_messages s topic partition reason (msg ∷ batch) =
      let ctx : ExecutionContext = at_offset topic partition msg.offset in
      (do
        (c, decision) ←
            record_failure fl s.retry_coordinator (draw msg.offset) (retry_key ctx) reason
        let t : Tracker.OffsetTracker =
            Tracker.mark_failed s.offset_coordinator (tracker_key ctx) msg.offset reason
        let s : Shared fl.F64 Sender = record s { retry_coordinator = c; offset_coordinator = t }
        let s : Shared fl.F64 Sender = route_failed s ctx msg reason decision
        fail_messages (ack_queue fl texts router now s topic) topic partition reason batch)

  unfoldable pub handle_batch_result_inline :
      Shared fl.F64 Sender
      → BatchExecutionResult
      → List OwnedMessage
      → String
      → ℤ
      → Option (Shared fl.F64 Sender)
  handle_batch_result_inline s (all_success offsets) batch topic partition =
      ack_offsets s topic partition offsets
  handle_batch_result_inline s (all_failure reason) batch topic partition =
      fail_messages s topic partition reason batch

  module _ (invoke : List OwnedMessage → BatchExecutionResult) where
    unfoldable pub flush_partition_batch :
        Shared fl.F64 Sender → ℤ → List OwnedMessage → Option (Shared fl.F64 Sender)
    flush_partition_batch s partition [] = some s
    flush_partition_batch s partition (first ∷ batch) =
        handle_batch_result_inline s (invoke (first ∷ batch)) (first ∷ batch) first.topic partition

    unfoldable pub flush_batches :
        Shared fl.F64 Sender → List (ℤ × List OwnedMessage) → Option (Shared fl.F64 Sender)
    flush_batches s [] = some s
    flush_batches s ((partition, batch) ∷ batches) = do
      s' ← flush_partition_batch s partition batch
      flush_batches s' batches

-- The variables of `batch_worker_loop`, and whether it is still in its loop.
pub record BatchWorker (F64 Sender : Type 0) : Type 0 where
  pub accumulator : BatchAccumulator
  pub batch_state : BatchState
  pub shared : Shared F64 Sender
  pub running : Bool

-- What wakes the loop. A message comes with the time at which it is added.
pub data Event : Type 0 where
  deadline : Event
  message : ℕ → OwnedMessage → Event
  channel_closed : Event
  cancelled : Event

module _ (fl : Float64) {Sender : Type 0} (texts : Texts) (router : DlqRouter) (now : ℕ)
    (draw : ℤ → fl.F64) (invoke : List OwnedMessage → BatchExecutionResult) where
  unfoldable pub flush_worker : BatchWorker fl.F64 Sender → Option (BatchWorker fl.F64 Sender)
  flush_worker w = do
    s ← flush_batches fl texts router now draw invoke w.shared (flush_all w.accumulator).0
    some (record w { accumulator = (flush_all w.accumulator).1; shared = s })

  -- `batch[0]` panics on an empty batch.
  unfoldable pub flush_taken :
      BatchWorker fl.F64 Sender → Option (List OwnedMessage) → Option (BatchWorker fl.F64 Sender)
  flush_taken w none = some w
  flush_taken w (some []) = none
  flush_taken w (some (first ∷ batch)) = do
    s ←
        flush_partition_batch fl texts router now draw invoke w.shared first.partition
          (first ∷ batch)
    some (record w { shared = s })

  unfoldable pub flush_full : BatchWorker fl.F64 Sender → ℤ → Option (BatchWorker fl.F64 Sender)
  flush_full w partition =
      let (taken, a) = flush_partition w.accumulator partition in
      let flushed = flush_taken (record w { accumulator = a }) taken in
      if would_fill_partition w.accumulator partition then flushed else some w

  at_capacity : BatchWorker fl.F64 Sender → String → Bool
  at_capacity w topic = elim (get_capacity w.shared.queue_manager topic) [
    | none ↦ false
    | some capacity ↦ elim (get_inflight w.shared.queue_manager topic) [
      | none ↦ false
      | some inflight ↦ leb capacity inflight
    ]
  ]

  unfoldable pub relieve : BatchWorker fl.F64 Sender → String → Option (BatchWorker fl.F64 Sender)
  unfolding at_capacity
  relieve w topic =
      let flushed = flush_worker (record w { batch_state = backpressure }) in
      if is_backpressure w.batch_state
      then some w
      else if at_capacity w topic
      then flushed
      else some w

  unfoldable pub handle_message :
      BatchWorker fl.F64 Sender → ℕ → OwnedMessage → Option (BatchWorker fl.F64 Sender)
  handle_message w at msg = do
    w1 ← relieve w msg.topic
    w2 ← flush_full w1 msg.partition
    flush_full (record w2 { accumulator = Batch.add at w2.accumulator msg }) msg.partition

  -- One round of the loop.
  unfoldable pub batch_step : BatchWorker fl.F64 Sender → Event → Option (BatchWorker fl.F64 Sender)
  batch_step w deadline =
      let flushed = flush_worker w in if Batch.is_empty w.accumulator then some w else flushed
  batch_step w (message at msg) = handle_message w at msg
  batch_step w channel_closed = flush_worker (record w { running = false })
  batch_step w cancelled = flush_worker (record w { running = false })
