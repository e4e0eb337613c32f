-- ===== src/Offset/Tracker/Flush/Members.antt =====
-- Which messages `flush_failed_to_dlq` of src/offset/offset_tracker.rs makes.
use mathlib.Core.List.{Mem, mem-cons_self, mem-cons_of_mem, mem-append_left, mem-append_right}
use kaf_py.Prelude.{
  ℕ, ◌≡◌, sym, subst, true, some, String, ℤ, List, [], ◌∷◌, arith, ◌==◌, Bool-cases, inl, inr,
  if◌then◌else◌, beq_ℤ, beq_ℤ_iff,
}
use kaf_py.Prelude.Map
use kaf_py.Prelude.Map.{Map}
use kaf_py.Prelude.OrdSet
use kaf_py.Offset.Partition.{PartitionState}
use kaf_py.Offset.Tracker.{OffsetTracker, TopicPartition, key_eq, beq_key_iff, all_partitions}
use kaf_py.Offset.Tracker.Flush.{
  messages_of_state, messages_of_keys, messages_of_offsets, failed_message, reason_text,
}
use kaf_py.Dlq.{DlqRouter}
use kaf_py.Dlq.Channel.{Texts, DlqMessage}

module _ (texts : Texts) (router : DlqRouter) (now : ℕ) where
  messages_of_offsets-Mem :
      (key : TopicPartition) (reason : String) (offset : ℤ) (offsets : List ℤ)
      → OrdSet.contains offset offsets ≡ true
      → Mem
          (failed_message texts router now key reason offset)
          (messages_of_offsets texts router now key reason offsets)
  unfolding OrdSet.contains messages_of_offsets
  messages_of_offsets-Mem key reason offset [] h = cc
  messages_of_offsets-Mem key reason offset (o ∷ os) h = elim (Bool-cases (beq_ℤ o offset)) [
    | inl same ↦ rw ((beq_ℤ_iff o offset).0 same) mem-cons_self
    | inr away ↦
        mem-cons_of_mem (failed_message texts router now key reason o)
          (messages_of_offsets-Mem key reason offset os (ground (arith, away)))
  ]

  messages_of_keys-Mem :
      (t : OffsetTracker) (key : TopicPartition) (s : PartitionState)
      (partitions : Map TopicPartition PartitionState) {message : DlqMessage}
      → Map.get key partitions ≡ some s
      → Mem message (messages_of_state texts router now key (Map.get key t.partitions))
      → Mem message (messages_of_keys texts router now t (Map.keys partitions))
  unfolding Map.get messages_of_keys
  messages_of_keys-Mem t key s [] h m = cc
  messages_of_keys-Mem t key s ((k, v) ∷ partitions) {message} h m = elim (Bool-cases (k == key)) [
    | inl same ↦ mem-append_left (messages_of_keys texts router now t (Map.keys partitions)) (
        subst (λ k. Mem message (messages_of_state texts router now k (Map.get k t.partitions)))
          (sym ((beq_key_iff k key).0 same)) m)
    | inr away ↦ mem-append_right (messages_of_state texts router now k (Map.get k t.partitions)) (
        messages_of_keys-Mem t key s partitions
          (subst (λ b. (if b then some v else Map.get key partitions) ≡ some s) away h) m)
  ]

  -- Every failed offset of a registered partition has a message, with the reason of the last failure of the partition.
  pub failed_message-Mem :
      (t : OffsetTracker) (key : TopicPartition) (s : PartitionState) (offset : ℤ)
      → Map.get key t.partitions ≡ some s
      → OrdSet.contains offset s.failed_offsets ≡ true
      → Mem
          (failed_message texts router now key (reason_text s.last_failure_reason) offset)
          (messages_of_keys texts router now t (all_partitions t))
  unfolding messages_of_state all_partitions
  failed_message-Mem t key s offset found failed = messages_of_keys-Mem t key s t.partitions found (
      rw found (
        messages_of_offsets-Mem key (reason_text s.last_failure_reason) offset s.failed_offsets
          failed))
