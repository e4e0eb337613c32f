-- ===== src/Examples/Workers.antt =====
-- The workers on concrete messages.
use kaf_py.Prelude.{ℕ, ◌≡◌, refl, Bool, false, none, some, pos, List, [], ◌∷◌, ◌<ℤ◌, arith}
use kaf_py.Prelude.Map
use kaf_py.Failure.{category, FailureReason, TerminalKind}
use kaf_py.Retry.Coordinator.{record_failure, attempt_count}
use kaf_py.Offset.Partition.{PartitionState}
use kaf_py.Offset.Partition.History.{acked, run}
use kaf_py.Offset.Tracker
use kaf_py.Offset.Tracker.{key_eq}
use kaf_py.Dispatcher.Queues
use kaf_py.Dlq.{route, with_default_prefix}
use kaf_py.Execution.{ExecutionResult, is_ok}
use kaf_py.WorkerPool.{
  Shared, ExecutionAction, handle_execution_failure, reason_of, produce, failure_metadata,
  timeout_duration, last_processed_offset,
}
use kaf_py.WorkerPool.Worker.{
  context, tracker_key, process, HandlerRun, Progress, handle_execution_result, fail,
}
use kaf_py.WorkerPool.Failure.{Ends, process-settles}
use kaf_py.WorkerPool.Blocked.{failure_blocks}
use kaf_py.Examples.{whole, fresh, two_attempts-HasDelays, order, plain, timeout_reason}
use kaf_py.Examples.Offsets.{opened, opened-IsValid}
use kaf_py.Examples.Trackers.{at_work}
use kaf_py.Examples.Dispatches.{queues}

abbrev pub system : Shared ℕ ℕ
system = record {
  retry_coordinator = fresh;
  queue_manager = queues;
  offset_coordinator = at_work;
  dlq_producer = [];
}

abbrev raised : ExecutionResult
raised = ExecutionResult.error timeout_reason "TimeoutError" ""

abbrev raises : Bool → HandlerRun ℕ
raises cancelled = record { draw = 0; result = raised; is_cancelled = cancelled }

-- Two attempts, with no cancellation.
abbrev runs : List (HandlerRun ℕ)
runs = raises false ∷ raises false ∷ []

process-settles_example :
    (s' : Shared ℕ ℕ) × (progress : Progress) × (process whole plain
        (route with_default_prefix)
        9
        system
        order
        runs
      ≡ some (s', progress))
    × Ends order queues false s'.queue_manager progress
unfolding context Map.get
process-settles_example =
    process-settles whole plain (route with_default_prefix) 9 system order 7 runs
      two_attempts-HasDelays (omega arith) refl refl (omega arith) (omega arith)

abbrev pub timed_out : ExecutionResult
timed_out = ExecutionResult.timeout (record { timeout_ms = 5000; last_processed_offset = none })

-- The system after a timeout was handled.
abbrev pub diverted : Shared ℕ ℕ
diverted = record system {
  queue_manager = Queues.ack queues "orders" 1;
  offset_coordinator =
      Tracker.mark_failed at_work (tracker_key (context order)) (pos 7)
        (FailureReason.terminal TerminalKind.handler_panic);
  dlq_producer =
      (produce whole {Sender = ℕ} plain (route with_default_prefix) 9 system order (
        failure_metadata 9 (context order) (FailureReason.terminal TerminalKind.handler_panic) 0
          (some 5) none)).dlq_producer;
}

failure_blocks_example :
    (st' : PartitionState) × (Map.get
        (tracker_key (context order))
        diverted.offset_coordinator.partitions
      ≡ some st')
    × ((run st' (acked 6 ∷ acked 8 ∷ [])).committed_offset <ℤ pos 7)
unfolding handle_execution_result fail handle_execution_failure reason_of record_failure category
    is_ok context Map.get attempt_count timeout_duration last_processed_offset
failure_blocks_example =
    failure_blocks whole plain (route with_default_prefix) 9 system 0 (context order) order
      timed_out {s' = diverted} {a = some ExecutionAction.dlq} 7 opened (acked 6 ∷ acked 8 ∷ [])
      refl refl refl refl opened-IsValid (omega arith) (omega arith)
      (omega arith, (omega arith, tt)) refl
