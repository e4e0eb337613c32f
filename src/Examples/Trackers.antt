-- ===== src/Examples/Trackers.antt =====
-- The tracker and the committer on concrete inputs.
use kaf_py.Prelude.{
  ◌-◌, ◌≡◌, refl, Bool, true, none, some, ℤ, pos, List, [], ◌∷◌, ◌++◌, arith, take, if◌then◌else◌,
}
use kaf_py.Prelude.Map
use kaf_py.Offset.Partition.{PartitionState}
use kaf_py.Offset.Partition.History.{Event, acked, failed}
use kaf_py.Offset.Partition.AtLeastOnce.{Passes}
use kaf_py.Offset.Tracker.{OffsetTracker, TopicPartition, key_eq, new, all_partitions}
use kaf_py.Offset.Tracker.Histories.{tracker_run, project}
use kaf_py.Offset.Tracker.Commits.{tracker_run-Passes}
use kaf_py.Offset.Tracker.Flush.{flush_failed_to_dlq, flush_failed_to_dlq_lem, messages_of_keys}
use kaf_py.Offset.Committer
use kaf_py.Offset.Committer.{
  CommitConfig, default_config, interval_ready, is_due, reset, run_step, run_rounds, Round,
  finished, tick, changed, process_ready_partitions,
}
use kaf_py.Offset.Committer.Ready.{commit_all, process_ready_partitions_lem}
use kaf_py.Dlq.{route, with_default_prefix}
use kaf_py.Dlq.Channel.{dlq_channel_capacity}
use kaf_py.Examples.{orders, timeout_reason, plain}
use kaf_py.Examples.Offsets.{events-InRange, opened}

abbrev payments : TopicPartition
payments = record { topic = "payments"; partition = pos 1 }

abbrev mixed : List (TopicPartition × Event)
mixed =
    (orders, acked 5)
    ∷ (payments, failed 3 timeout_reason)
    ∷ (orders, failed 6 timeout_reason)
    ∷ (orders, acked 7)
    ∷ []

tracker_run-Passes_example :
    (t : OffsetTracker) × (s : PartitionState) × (tracker_run new mixed ≡ some t)
    × (Map.get orders t.partitions ≡ some s)
    × Passes 5 (project orders mixed) s
tracker_run-Passes_example = tracker_run-Passes mixed orders 5 events-InRange refl

abbrev pub at_work : OffsetTracker
at_work = record { partitions = (orders, opened) ∷ []; has_runner = true; commit_tx = none }

abbrev failed_one : OffsetTracker
failed_one = record at_work {
  partitions = (orders, record opened { failed_offsets = pos 6 ∷ [] }) ∷ [];
}

flush_failed_to_dlq_lem_example :
    flush_failed_to_dlq plain (route with_default_prefix) 9 failed_one []
    ≡ []
      ++ take (dlq_channel_capacity - 0) (
          messages_of_keys plain
            (route with_default_prefix)
            9
            failed_one
            (all_partitions failed_one))
flush_failed_to_dlq_lem_example =
    flush_failed_to_dlq_lem plain (route with_default_prefix) 9 failed_one [] (omega arith)

abbrev always : TopicPartition → ℤ → Bool
always key offset = true

process_ready_partitions_lem_example :
    (process_ready_partitions always default_config 5 6 at_work Committer.new).0 ≡ (
      if is_due default_config 5 Committer.new
      then commit_all always at_work (all_partitions at_work)
      else [])
process_ready_partitions_lem_example =
    process_ready_partitions_lem always default_config 5 6 at_work Committer.new
