-- ===== src/WorkerPool.antt =====
-- src/worker_pool: what the workers do with a handler's results. The shared components are one
-- state, which a function takes and returns; `none` is a panic. The time of day, the random draw of
-- the jitter, the texts of the envelope and the router are arguments.
pub mod Pool
pub mod Failure
pub mod Worker
pub mod Blocked
pub mod Batch
pub mod Concurrency
pub mod Loop
use kaf_py.Prelude.{
  ℕ, ◌/◌, ◌%◌, Bool, true, false, Option, none, some, String, ℤ, List, [], Float64, ◌>>=◌,
  if◌then◌else◌,
}
use kaf_py.Failure.{FailureReason, TerminalKind, display_reason}
use kaf_py.Message.{OwnedMessage}
use kaf_py.Retry.Coordinator.{RetryCoordinator, RetryKey, Decision, record_failure, attempt_count}
use kaf_py.Offset.Tracker.{OffsetTracker}
use kaf_py.Dispatcher.Queues
use kaf_py.Dispatcher.Queues.{QueueManager}
use kaf_py.Dlq.{DlqMetadata, DlqRouter}
use kaf_py.Dlq.Channel.{DlqQueue, Texts, produce_async}
use kaf_py.Execution.{ExecutionResult, TimeoutInfo, is_timeout}

pub record Shared (F64 Sender : Type 0) : Type 0 where
  pub retry_coordinator : RetryCoordinator F64
  pub queue_manager : QueueManager Sender
  pub offset_coordinator : OffsetTracker
  pub dlq_producer : DlqQueue

pub data ExecutionAction : Type 0 where
  ack : ExecutionAction
  retry : ℕ → ExecutionAction
  dlq : ExecutionAction

-- What `handle_execution_failure` reads of the context.
pub record ExecutionContext : Type 0 where
  pub topic : String
  pub partition : ℤ
  pub offset : ℤ

abbrev pub retry_key : ExecutionContext → RetryKey
retry_key ctx = record { topic = ctx.topic; partition = ctx.partition; offset = ctx.offset }

-- `unwrap_or_default` of a payload.
abbrev pub payload_or_default : Option (List ℕ) → List ℕ
payload_or_default none = []
payload_or_default (some bytes) = bytes

-- The reason of a result; `Ok` is unreachable.
unfoldable pub reason_of : ExecutionResult → Option FailureReason
reason_of (ExecutionResult.error reason e t) = some reason
reason_of (ExecutionResult.rejected reason s) = some reason
reason_of (ExecutionResult.timeout info) = some (FailureReason.terminal TerminalKind.handler_panic)
reason_of ExecutionResult.ok = none

unfoldable pub timeout_duration : ExecutionResult → Option ℕ
timeout_duration (ExecutionResult.timeout info) = some (info.timeout_ms / 1000)
timeout_duration _ = none

unfoldable pub last_processed_offset : ExecutionResult → Option ℤ
last_processed_offset (ExecutionResult.timeout info) = info.last_processed_offset
last_processed_offset _ = none

-- `DlqMetadata::new` as the workers call it at the time `now`; the count is cut to 32 bits.
unfoldable pub failure_metadata :
    ℕ → ExecutionContext → FailureReason → ℕ → Option ℕ → Option ℤ → DlqMetadata
failure_metadata now ctx reason attempts timeout last = record {
  original = record { topic = ctx.topic; partition = ctx.partition; offset = ctx.offset };
  failure_reason = display_reason reason;
  attempt_count = attempts % 4294967296;
  first_failure_timestamp = now;
  last_failure_timestamp = now;
  timeout_duration = timeout;
  last_processed_offset = last;
  branch_id = none;
  fan_out_id = none;
}

module _ (fl : Float64) {Sender : Type 0} (texts : Texts) (router : DlqRouter) (now : ℕ) where
  -- The envelope goes to the bounded channel; nothing waits for it.
  unfoldable pub produce : Shared fl.F64 Sender → OwnedMessage → DlqMetadata → Shared fl.F64 Sender
  produce s msg metadata = record s {
    dlq_producer =
        produce_async texts s.dlq_producer (router metadata) (payload_or_default msg.payload)
          msg.key metadata;
  }

  unfoldable pub ack_queue : Shared fl.F64 Sender → String → Shared fl.F64 Sender
  ack_queue s topic = record s { queue_manager = Queues.ack s.queue_manager topic 1 }

  route_dlq :
      Shared fl.F64 Sender
      → ExecutionContext
      → OwnedMessage
      → ExecutionResult
      → FailureReason
      → Shared fl.F64 Sender × ExecutionAction
  unfolding produce ack_queue
  route_dlq s ctx msg result reason =
      let metadata : DlqMetadata =
        failure_metadata now ctx reason (attempt_count s.retry_coordinator (retry_key ctx))
          (timeout_duration result) (last_processed_offset result) in
      (ack_queue (produce s msg metadata) msg.topic, dlq)

  pub decide :
      Shared fl.F64 Sender
      → ExecutionContext
      → OwnedMessage
      → ExecutionResult
      → FailureReason
      → Decision
      → Shared fl.F64 Sender × ExecutionAction
  unfolding route_dlq
  decide s ctx msg result reason (true, should_dlq, some delay) = (s, retry delay)
  decide s ctx msg result reason (true, should_dlq, none) =
      if should_dlq then route_dlq s ctx msg result reason else (ack_queue s msg.topic, ack)
  decide s ctx msg result reason (false, should_dlq, delay) =
      if should_dlq then route_dlq s ctx msg result reason else (ack_queue s msg.topic, ack)

  unfoldable pub handle_execution_failure :
      Shared fl.F64 Sender
      → fl.F64
      → ExecutionContext
      → OwnedMessage
      → ExecutionResult
      → Option (Shared fl.F64 Sender × ExecutionAction)
  unfolding decide reason_of
  handle_execution_failure s draw ctx msg result = do
    reason ← reason_of result
    (c, decision) ← record_failure fl s.retry_coordinator draw (retry_key ctx) reason
    some (decide (record s { retry_coordinator = c }) ctx msg result reason decision)
