-- ===== src/Observability/Snapshots.antt =====
-- `RuntimeSnapshotTask` of src/observability/runtime_snapshot.rs, and the functions of
-- src/consumer/runtime.rs that read it. The tasks that were spawned are a list, since they stay alive; the
-- global cell holds the number of one of them. A time is a number.
pub mod Lags
pub mod Current
use kaf_py.Prelude.{
  ℕ, zero, suc, ◌+◌, ◌-◌, ◌%◌, Bool, Option, none, some, String, ℤ, pos, negsuc, pos_part, neg_part,
  List, [], ◌∷◌, ◌++◌, map, ltb, if◌then◌else◌, length, usize_mod, string_eq, int_eq, nat_eq,
}
use kaf_py.Prelude.Map
use kaf_py.Prelude.Map.{Map}
use kaf_py.Dispatcher.Queues.{QueueManager, queue_snapshots}
use kaf_py.Offset.Tracker.{OffsetTracker, TopicPartition, offset_snapshots}
use kaf_py.WorkerPool.Loop.{WorkerStatus, WorkerPoolState, get_states}
use kaf_py.Observability.Recorders.{Recorder}

pub data WorkerState : Type 0 where
  idle : WorkerState
  active : String → String → ℤ → ℤ → WorkerState
  busy : String → WorkerState

pub record QueueDepthInfo : Type 0 where
  pub queue_depth : ℕ
  pub inflight : ℕ

pub record PartitionAccumulatorInfo : Type 0 where
  pub message_count : ℕ
  pub has_deadline : Bool
  pub deadline_ms_remaining : Option ℤ

pub record AccumulatorInfo : Type 0 where
  pub total_messages : ℕ
  pub partitions : Map ℤ PartitionAccumulatorInfo

pub record PartitionLagInfo : Type 0 where
  pub consumer_lag : ℤ
  pub committed_offset : ℤ

pub record TopicLagInfo : Type 0 where
  pub total_lag : ℤ
  pub partitions : Map ℤ PartitionLagInfo

pub record ConsumerLagSummary : Type 0 where
  pub total_lag : ℤ
  pub per_topic : Map String TopicLagInfo

pub record RuntimeSnapshot : Type 0 where
  pub timestamp : ℕ
  pub worker_states : Map ℕ WorkerState
  pub queue_depths : Map String QueueDepthInfo
  pub accumulator_info : Map String AccumulatorInfo
  pub consumer_lag_summary : ConsumerLagSummary

abbrev pub default_lags : ConsumerLagSummary
default_lags = record { total_lag = pos 0; per_topic = [] }

-- `UNIX_EPOCH` and nothing else.
abbrev pub default_snapshot : RuntimeSnapshot
default_snapshot = record {
  timestamp = 0;
  worker_states = [];
  queue_depths = [];
  accumulator_info = [];
  consumer_lag_summary = default_lags;
}

-- The 64 bits of a number, and the number of 64 bits.
bits : ℤ → ℕ
bits z = (pos_part z + usize_mod - neg_part z) % usize_mod

of_bits : ℕ → ℤ
of_bits n = if ltb n 9223372036854775808 then pos n else negsuc (usize_mod - n - 1)

unfoldable pub add_i64 : ℤ → ℤ → ℤ
unfolding bits of_bits
add_i64 a b = of_bits ((bits a + bits b) % usize_mod)

unfoldable pub worker_state : WorkerStatus → WorkerState
worker_state WorkerStatus.idle = WorkerState.idle
worker_state (WorkerStatus.active handler_id topic partition offset) =
    WorkerState.active handler_id topic partition offset
worker_state (WorkerStatus.busy handler_id) = WorkerState.busy handler_id

-- `or_insert_with`
abbrev pub or_new : Option TopicLagInfo → TopicLagInfo
or_new none = record { total_lag = pos 0; partitions = [] }
or_new (some info) = info

-- The loop over the committed offsets. The lag of a partition is the constant zero.
unfoldable pub add_partition :
    Map String TopicLagInfo → TopicPartition × ℤ → Map String TopicLagInfo
add_partition per_topic (key, committed) =
    let info = or_new (Map.get key.topic per_topic) in
    Map.insert key.topic
      (record info {
        partitions =
            Map.insert key.partition (record { consumer_lag = pos 0; committed_offset = committed })
              info.partitions;
      })
      per_topic

unfoldable pub add_partitions :
    Map String TopicLagInfo → Map TopicPartition ℤ → Map String TopicLagInfo
unfolding add_partition
add_partitions per_topic [] = per_topic
add_partitions per_topic (entry ∷ entries) = add_partitions (add_partition per_topic entry) entries

unfoldable pub sum_lag : ℤ → Map ℤ PartitionLagInfo → ℤ
unfolding add_i64
sum_lag sum [] = sum
sum_lag sum ((partition, info) ∷ infos) = sum_lag (add_i64 sum info.consumer_lag) infos

unfoldable pub with_total : TopicLagInfo → TopicLagInfo
unfolding sum_lag
with_total info = record info { total_lag = sum_lag (pos 0) info.partitions }

unfoldable pub total_of : ℤ → Map TopicPartition ℤ → ℤ
unfolding add_i64
total_of total_lag [] = total_lag
total_of total_lag (entry ∷ entries) = total_of (add_i64 total_lag (pos 0)) entries

unfoldable pub lag_summary : OffsetTracker → ConsumerLagSummary
unfolding add_partitions with_total total_of offset_snapshots
lag_summary t = record {
  total_lag = total_of (pos 0) (offset_snapshots t);
  per_topic = map (λ p. (p.0, with_total p.1)) (add_partitions [] (offset_snapshots t));
}

-- What the task polls.
pub record Sources (Sender : Type 0) : Type 0 where
  pub queue_manager : Option (QueueManager Sender)
  pub offset_tracker : Option OffsetTracker
  pub worker_pool_state : Option WorkerPoolState

module _ {Sender : Type 0} where
  unfoldable pub poll_and_update : ℕ → Sources Sender → RuntimeSnapshot
  unfolding worker_state lag_summary queue_snapshots get_states
  poll_and_update now sources = record {
    timestamp = now;
    worker_states = elim sources.worker_pool_state [
      | none ↦ []
      | some states ↦ map (λ p. (p.0, worker_state p.1)) (get_states states)
    ];
    queue_depths = elim sources.queue_manager [
      | none ↦ []
      | some q ↦
          map (λ p. (p.0, record { queue_depth = p.1.0; inflight = p.1.1 })) (queue_snapshots q)
    ];
    accumulator_info = [];
    consumer_lag_summary = elim sources.offset_tracker [
      | none ↦ default_lags
      | some t ↦ lag_summary t
    ];
  }

  -- The metrics that a poll records.
  unfoldable pub poll_recorders : Sources Sender → List Recorder
  unfolding queue_snapshots offset_snapshots
  poll_recorders sources =
      let depths : List Recorder = elim sources.queue_manager [
        | none ↦ []
        | some q ↦ map (λ p. Recorder.record_queue_depth p.0 p.1.0) (queue_snapshots q)
      ] in
      let lags : List Recorder = elim sources.offset_tracker [
        | none ↦ []
        | some t ↦
            map (λ p. Recorder.record_lag p.0.topic p.0.partition (pos 0)) (offset_snapshots t)
      ] in
      depths ++ lags

-- The process: the snapshots of the tasks in the order of their start, the global cell, and the
-- callbacks of the registry.
pub record Process : Type 0 where
  pub snapshots : List RuntimeSnapshot
  pub global : Option ℕ
  pub callbacks : List ℕ

abbrev pub fresh : Process
fresh = record { snapshots = []; global = none; callbacks = [] }

-- `OnceLock::set` keeps the first value.
unfoldable pub spawn : Process → Process
spawn p = record p {
  snapshots = p.snapshots ++ default_snapshot ∷ [];
  global = elim p.global [ none ↦ some (length p.snapshots) | some first ↦ some first ];
}

unfoldable pub replace : List RuntimeSnapshot → ℕ → RuntimeSnapshot → List RuntimeSnapshot
replace [] i snapshot = []
replace (s ∷ ss) zero snapshot = snapshot ∷ ss
replace (s ∷ ss) (suc i) snapshot = s ∷ replace ss i snapshot

unfoldable pub lookup : List RuntimeSnapshot → ℕ → Option RuntimeSnapshot
lookup [] i = none
lookup (s ∷ ss) zero = some s
lookup (s ∷ ss) (suc i) = lookup ss i

-- A tick of a task: `invoke_callbacks` does nothing.
unfoldable pub tick : Process → ℕ → RuntimeSnapshot → Process
unfolding replace
tick p task snapshot = record p { snapshots = replace p.snapshots task snapshot }

unfoldable pub get_current_snapshot : Process → RuntimeSnapshot
unfolding lookup
get_current_snapshot p = elim p.global [
  | none ↦ default_snapshot
  | some task ↦ elim (lookup p.snapshots task) [ none ↦ default_snapshot | some s ↦ s ]
]

unfoldable pub register_status_callback : Process → ℕ → Process
register_status_callback p callback = elim p.global [
  | none ↦ p
  | some _ ↦ record p { callbacks = p.callbacks ++ callback ∷ [] }
]
