-- ===== src/Examples/Shutdowns.antt =====
-- The shutdown of the worker pool on a concrete state.
use mathlib.Core.List.{Mem}
use kaf_py.Prelude.{
  ℕ, ◌-◌, suc, ◌≡◌, ◌+◌, ◌≤◌, refl, true, false, some, pos, String, List, ◌∷◌, ◌++◌, take, length,
  arith,
}
use kaf_py.Prelude.Map
use kaf_py.Prelude.OrdSet
use kaf_py.Offset.Partition
use kaf_py.Offset.Partition.{record_failed}
use kaf_py.Offset.Tracker
use kaf_py.Offset.Tracker.Commits.{commits_of}
use kaf_py.Offset.Tracker.{key_eq}
use kaf_py.Failure.{category}
use kaf_py.Retry.Coordinator.{record_failure, attempt_count}
use kaf_py.Shutdown
use kaf_py.Shutdown.{ShutdownCoordinator, draining, done}
use kaf_py.Offset.Tracker.{RunnerCall, commit, all_partitions}
use kaf_py.Offset.Tracker.Flush.{
  messages_of_state, messages_of_offsets, messages_of_keys, failed_message,
}
use kaf_py.Dlq.{DlqMetadata, route, with_default_prefix}
use kaf_py.Dlq.Channel.{DlqMessage, dlq_message, produce_async, try_send, dlq_channel_capacity}
use kaf_py.WorkerPool.{
  Shared, produce, handle_execution_failure, reason_of, payload_or_default, timeout_duration,
  last_processed_offset,
}
use kaf_py.WorkerPool.Worker.{context, tracker_key, handle_execution_result, fail}
use kaf_py.WorkerPool.Pool.Shutdown.{JoinSet, PoolState, end_workers, shutdown, shutdown_lem}
use kaf_py.WorkerPool.Pool.Shutdown.Repeats.{shutdown-diverted}
use kaf_py.Examples.{whole, plain, order}
use kaf_py.Examples.Offsets.{opened}
use kaf_py.Examples.Workers.{system, timed_out, diverted}

-- Workers that have ended.
abbrev quiet : JoinSet (Shared ℕ ℕ)
quiet = record { shutdown_within = λ secs s. (true, s); abort_all = λ s. s }

-- Workers that do not end in time, and lose nothing.
abbrev stuck : JoinSet (Shared ℕ ℕ)
stuck = record { shutdown_within = λ secs s. (false, s); abort_all = λ s. s }

abbrev stopping : ShutdownCoordinator
stopping = record (Shutdown.new 30) { phase = draining }

abbrev pool : PoolState ℕ ℕ
pool = record { shared = diverted; coordinator = stopping; is_cancelled = false }

shutdown_lem_example :
    (p' : PoolState ℕ ℕ) × (calls : List RunnerCall) × (shutdown whole plain
        (route with_default_prefix)
        9
        stuck
        pool
      ≡ some (p', calls))
    × (p'.is_cancelled ≡ true)
    × (p'.shared.dlq_producer
        ≡ diverted.dlq_producer
          ++ take (dlq_channel_capacity - length diverted.dlq_producer) (
              messages_of_keys plain
                (route with_default_prefix)
                9
                diverted.offset_coordinator
                (all_partitions diverted.offset_coordinator)))
    × (p'.shared.offset_coordinator ≡ diverted.offset_coordinator)
    × (calls ≡ commits_of diverted.offset_coordinator (all_partitions diverted.offset_coordinator))
    × (p'.coordinator.phase ≡ done)
unfolding end_workers produce produce_async try_send all_partitions Tracker.mark_failed Map.get
    context
shutdown_lem_example =
    shutdown_lem whole plain (route with_default_prefix) 9 stuck pool (omega arith)

abbrev swept : List DlqMessage
swept =
    messages_of_keys plain (route with_default_prefix) 9 diverted.offset_coordinator
      (all_partitions diverted.offset_coordinator)

diverted_fits : suc 0 + length swept ≤ dlq_channel_capacity
unfolding messages_of_keys messages_of_state messages_of_offsets all_partitions Tracker.mark_failed
    record_failed Partition.mark_failed OrdSet.insert OrdSet.remove Map.get Map.insert context
diverted_fits = omega arith

shutdown-diverted_example :
    (p' : PoolState ℕ ℕ) × (calls : List RunnerCall) × (metadata : DlqMetadata) × (reason : String)
    × (shutdown whole plain (route with_default_prefix) 9 quiet pool ≡ some (p', calls))
    × (metadata.original ≡ record { topic = "orders"; partition = pos 0; offset = pos 7 })
    × (p'.shared.dlq_producer
        ≡ dlq_message plain
            (route with_default_prefix metadata)
            (payload_or_default order.payload)
            order.key
            metadata
          ∷ swept)
    × Mem
        (failed_message plain
          (route with_default_prefix)
          9
          (tracker_key (context order))
          reason
          (pos 7))
        swept
unfolding handle_execution_result fail handle_execution_failure reason_of record_failure category
    context Map.get attempt_count timeout_duration last_processed_offset end_workers
shutdown-diverted_example =
    shutdown-diverted whole plain (route with_default_prefix) 9 quiet system 0 (context order) order
      timed_out {s' = diverted} opened stopping refl refl diverted_fits refl
