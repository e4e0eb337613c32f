-- ===== src/Execution/Batch/Bounds.antt =====
-- The contents of the accumulators (src/execution/batch.rs).
use kaf_py.Prelude.{
  ℕ, ◌+◌, ◌≡◌, refl, true, none, some, ℤ, List, [], ◌∷◌, ◌++◌, length, int_eq, arith, if◌then◌else◌,
  ◌==◌, beq_ℤ_iff, Option-cases, inl, inr,
}
use kaf_py.Prelude.Map
use kaf_py.Prelude.Map.{Map}
use kaf_py.Message.{OwnedMessage}
use kaf_py.Execution.Buffer
use kaf_py.Execution.Buffer.{PerPartitionBuffer, no_messages}
use kaf_py.Execution.Batch.{
  BatchAccumulator, buffer_or_default, add, flush_partition, flush_all, flush_buffers, sum_len,
  total_len, all_empty, is_empty,
}

-- The number of messages in batches.
unfoldable pub batched : List (ℤ × List OwnedMessage) → ℕ
batched [] = 0
batched ((p, ms) ∷ bs) = length ms + batched bs

flush_buffers_lem :
    (m : Map ℤ PerPartitionBuffer)
    → (batched (flush_buffers m).0 ≡ sum_len m)
      × (sum_len (flush_buffers m).1 ≡ 0)
      × (all_empty (flush_buffers m).1 ≡ true)
unfolding batched flush_buffers sum_len all_empty Buffer.is_empty Buffer.len Buffer.take_messages
flush_buffers_lem [] = (refl, refl, refl)
flush_buffers_lem ((p, b) ∷ m) = let ih = flush_buffers_lem m in ground (arith, ih)

-- A flush gives out every message that is held, in batches, and leaves none.
pub flush_all_lem :
    (a : BatchAccumulator)
    → (batched (flush_all a).0 ≡ total_len a)
      × (total_len (flush_all a).1 ≡ 0)
      × (is_empty (flush_all a).1 ≡ true)
unfolding flush_all total_len is_empty
flush_all_lem a = flush_buffers_lem a.partition_accumulators

add-messages :
    (now : ℕ) (b : PerPartitionBuffer) (m : OwnedMessage) (w : ℕ)
    → (Buffer.add now b m w).messages ≡ b.messages ++ m ∷ []
unfolding Buffer.add
add-messages now b m w = ground arith

-- What a partition holds.
unfoldable pub held : BatchAccumulator → ℤ → List OwnedMessage
held a partition = (buffer_or_default a partition).messages

-- A message is added behind those of its own partition, and no other partition changes.
pub held-add :
    (now : ℕ) (a : BatchAccumulator) (m : OwnedMessage) (p : ℤ)
    → held (add now a m) p ≡ (if m.partition == p then held a p ++ m ∷ [] else held a p)
unfolding held add buffer_or_default
held-add now a m p =
    let added : PerPartitionBuffer =
      Buffer.add now (buffer_or_default a m.partition) m a.max_batch_wait in
    ground (
      arith,
      Map.get-insert p m.partition added a.partition_accumulators,
      add-messages now (buffer_or_default a m.partition) m a.max_batch_wait,
      beq_ℤ_iff m.partition p,
    )

-- A flush of a partition gives out what it holds and leaves it empty, and an empty one has no batch.
flush_partition_lem :
    (a : BatchAccumulator) (p q : ℤ)
    → ((flush_partition a p).0 ≡ (if no_messages (held a p) then none else some (held a p)))
      × (held (flush_partition a p).1 q ≡ (if p == q then [] else held a q))
unfolding held flush_partition buffer_or_default Buffer.new Buffer.is_empty Buffer.take_messages
flush_partition_lem a p q = elim (Option-cases (Map.get p a.partition_accumulators)) [
  | inl e ↦ ground (arith, e, beq_ℤ_iff p q)
  | inr (b, e) ↦ ground (
    arith,
    e,
    Map.get-insert q p (Buffer.take_messages b).1 a.partition_accumulators,
    beq_ℤ_iff p q,
  )
]
