-- ===== src/Examples/Batches.antt =====
-- The batches on concrete messages.
use kaf_py.Prelude.{
  ℕ, ◌≡◌, refl, true, some, pos, List, [], ◌∷◌, ◌++◌, arith, if◌then◌else◌, ◌==◌, int_eq,
}
use kaf_py.Prelude.Map
use kaf_py.Message.{OwnedMessage}
use kaf_py.Dlq.{route, with_default_prefix}
use kaf_py.Dispatcher.Queues
use kaf_py.Dispatcher.Metadata
use kaf_py.Execution.{BatchExecutionResult, all_success, all_failure}
use kaf_py.Execution.Buffer
use kaf_py.Execution.Buffer.{PerPartitionBuffer, no_messages}
use kaf_py.Execution.Batch
use kaf_py.Execution.Batch.{
  BatchAccumulator, flush_all, flush_partition, total_len, is_empty, next_deadline, add,
}
use kaf_py.Execution.Batch.Bounds.{held, held-add}
use kaf_py.WorkerPool.{Shared}
use kaf_py.WorkerPool.Batch.{
  BatchWorker, normal, batch_step, message, handle_batch_result_inline, flush_full, relieve,
  handle_message,
}
use kaf_py.WorkerPool.Batch.Sizes.{IsWithin, batch_step-IsWithin}
use kaf_py.WorkerPool.Batch.Results.{handle_batch_result_inline_lem, ack_times}
use kaf_py.Examples.{whole, two_attempts-HasDelays, order, plain, timeout_reason}
use kaf_py.Examples.Retries.{fresh-IsBounded}
use kaf_py.Examples.Dispatches.{queues}
use kaf_py.Examples.Workers.{system}

abbrev window : PerPartitionBuffer
window = record { messages = order ∷ []; deadline = some 40 }

abbrev buffers : BatchAccumulator
buffers = record {
  partition_accumulators = (pos 0, window) ∷ [];
  max_batch_size = 3;
  max_batch_wait = 20;
}

held-add_example : held (add 30 buffers order) (pos 0) ≡ (
    if order.partition == pos 0 then held buffers (pos 0) ++ order ∷ [] else held buffers (pos 0))
held-add_example = held-add 30 buffers order (pos 0)

handle_batch_result_inline_lem_example :
    (s' : Shared ℕ ℕ) × (handle_batch_result_inline whole plain
        (route with_default_prefix)
        9
        (λ o. 0)
        system
        (all_failure timeout_reason)
        (order ∷ order ∷ [])
        "orders"
        (pos 0)
      ≡ some s')
    × (s'.queue_manager ≡ ack_times queues "orders" 2)
handle_batch_result_inline_lem_example =
    handle_batch_result_inline_lem whole plain (route with_default_prefix) 9 (λ o. 0) "orders"
      (pos 0) system (order ∷ order ∷ []) (7 ∷ 7 ∷ []) (all_failure timeout_reason) refl tt
      two_attempts-HasDelays (omega arith) fresh-IsBounded

abbrev worker : BatchWorker ℕ ℕ
worker = record { accumulator = buffers; batch_state = normal; shared = system; running = true }

abbrev succeeds : List OwnedMessage → BatchExecutionResult
succeeds batch = all_success []

-- The worker after one more message: it waits beside the first.
abbrev two_waiting : BatchWorker ℕ ℕ
two_waiting = record worker {
  accumulator = record buffers {
    partition_accumulators = (pos 0, record window { messages = order ∷ order ∷ [] }) ∷ [];
  };
}

buffers-IsWithin : IsWithin buffers
buffers-IsWithin = record { has_size = omega arith; below = (omega arith, tt) }

batch_step-IsWithin_example : IsWithin two_waiting.accumulator
unfolding batch_step handle_message relieve flush_full Map.get Map.insert Batch.add Buffer.add
    Batch.would_fill_partition Batch.buffer_or_default Batch.flush_partition Buffer.len
    Queues.get_capacity Queues.get_inflight Metadata.get_inflight
batch_step-IsWithin_example =
    batch_step-IsWithin whole plain (route with_default_prefix) 9 (λ o. 0) succeeds worker
      (message 30 order) {w' = two_waiting} buffers-IsWithin refl
