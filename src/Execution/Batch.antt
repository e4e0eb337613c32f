-- ===== src/Execution/Batch.antt =====
-- `BatchAccumulator` of src/execution/batch.rs: the buffers by partition. A method returns the new
-- state. An instant is a number of milliseconds.
pub mod Bounds
pub mod Deadline
use kaf_py.Prelude.{
  ℕ, ◌+◌, ◌<◌, ◌≤◌, ◌≡◌, min, Bool, true, false, not, ◌&&◌, Option, none, some, ℤ, List, [], ◌∷◌,
  ◌++◌, length, leb, int_eq, arith, if◌then◌else◌,
}
use kaf_py.Prelude.Map
use kaf_py.Prelude.Map.{Map}
use kaf_py.Message.{OwnedMessage}
use kaf_py.Execution.Buffer
use kaf_py.Execution.Buffer.{PerPartitionBuffer}

pub record BatchAccumulator : Type 0 where
  pub partition_accumulators : Map ℤ PerPartitionBuffer
  pub max_batch_size : ℕ
  pub max_batch_wait : ℕ

unfoldable pub new : ℕ → ℕ → BatchAccumulator
new max_batch_size max_batch_wait_ms = record {
  partition_accumulators = [];
  max_batch_size = max_batch_size;
  max_batch_wait = max_batch_wait_ms;
}

unfoldable pub would_fill_partition : BatchAccumulator → ℤ → Bool
unfolding Buffer.len
would_fill_partition a partition = elim (Map.get partition a.partition_accumulators) [
  | none ↦ false
  | some b ↦ leb a.max_batch_size (Buffer.len b)
]

unfoldable pub buffer_or_default : BatchAccumulator → ℤ → PerPartitionBuffer
buffer_or_default a partition = elim (Map.get partition a.partition_accumulators) [
  | none ↦ Buffer.new
  | some b ↦ b
]

abbrev put : BatchAccumulator → ℤ → PerPartitionBuffer → BatchAccumulator
put a partition b = record a {
  partition_accumulators = Map.insert partition b a.partition_accumulators;
}

unfoldable pub add : ℕ → BatchAccumulator → OwnedMessage → BatchAccumulator
add now a m =
    put a m.partition (Buffer.add now (buffer_or_default a m.partition) m a.max_batch_wait)

abbrev earliest : Option ℕ → Option ℕ → Option ℕ
earliest none o = o
earliest (some d) none = some d
earliest (some d) (some e) = some (min d e)

unfoldable pub min_deadline : Map ℤ PerPartitionBuffer → Option ℕ
min_deadline [] = none
min_deadline ((p, b) ∷ m) = earliest b.deadline (min_deadline m)

unfoldable pub next_deadline : BatchAccumulator → Option ℕ
unfolding min_deadline
next_deadline a = min_deadline a.partition_accumulators

unfoldable pub all_empty : Map ℤ PerPartitionBuffer → Bool
all_empty [] = true
all_empty ((p, b) ∷ m) = Buffer.is_empty b && all_empty m

unfoldable pub is_empty : BatchAccumulator → Bool
is_empty a = all_empty a.partition_accumulators

unfoldable pub flush_buffers :
    Map ℤ PerPartitionBuffer → List (ℤ × List OwnedMessage) × Map ℤ PerPartitionBuffer
flush_buffers [] = ([], [])
flush_buffers ((p, b) ∷ m) =
    let (batches, rest) = flush_buffers m in
    if Buffer.is_empty b
    then (batches, (p, b) ∷ rest)
    else ((p, (Buffer.take_messages b).0) ∷ batches, (p, (Buffer.take_messages b).1) ∷ rest)

unfoldable pub flush_all : BatchAccumulator → List (ℤ × List OwnedMessage) × BatchAccumulator
flush_all a =
    let (batches, rest) = flush_buffers a.partition_accumulators in
    (batches, record a { partition_accumulators = rest })

unfoldable pub flush_partition :
    BatchAccumulator → ℤ → Option (List OwnedMessage) × BatchAccumulator
flush_partition a partition = elim (Map.get partition a.partition_accumulators) [
  | none ↦ (none, a)
  | some b ↦
      if Buffer.is_empty b
      then (none, a)
      else (some (Buffer.take_messages b).0, put a partition (Buffer.take_messages b).1)
]

unfoldable pub sum_len : Map ℤ PerPartitionBuffer → ℕ
sum_len [] = 0
sum_len ((p, b) ∷ m) = Buffer.len b + sum_len m

unfoldable pub total_len : BatchAccumulator → ℕ
total_len a = sum_len a.partition_accumulators
