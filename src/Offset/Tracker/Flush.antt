-- ===== src/Offset/Tracker/Flush.antt =====
-- `flush_failed_to_dlq` of src/offset/offset_tracker.rs.
pub mod Members
use kaf_py.Prelude.{
  ℕ, ◌≡◌, refl, sym, ap, ◌∙◌, Option, none, some, String, ℤ, List, [], ◌∷◌, ◌++◌, ◌-◌, ◌≤◌, length,
  take,
}
use kaf_py.Prelude.Map
use kaf_py.Failure.{FailureReason, display_reason}
use kaf_py.Offset.Partition.{PartitionState}
use kaf_py.Offset.Tracker.{OffsetTracker, TopicPartition, key_eq, all_partitions}
use kaf_py.Dlq.{DlqMetadata, DlqRouter}
use kaf_py.Dlq.Channel.{
  DlqQueue, DlqMessage, Texts, dlq_message, produce_async, try_send, send_all, send_all-take,
  dlq_channel_capacity,
}

unfoldable pub reason_text : Option FailureReason → String
reason_text none = "unknown"
reason_text (some r) = display_reason r

-- The envelope of a failed offset at the time `now`: one attempt, and no payload or key.
unfoldable pub flush_metadata : ℕ → TopicPartition → String → ℤ → DlqMetadata
flush_metadata now key reason offset = record {
  original = record { topic = key.topic; partition = key.partition; offset = offset };
  failure_reason = reason;
  attempt_count = 1;
  first_failure_timestamp = now;
  last_failure_timestamp = now;
  timeout_duration = none;
  last_processed_offset = none;
  branch_id = none;
  fan_out_id = none;
}

module _ (texts : Texts) (router : DlqRouter) (now : ℕ) where
  flush_offsets : TopicPartition → String → List ℤ → DlqQueue → DlqQueue
  flush_offsets key reason [] q = q
  flush_offsets key reason (offset ∷ os) q =
      let metadata = flush_metadata now key reason offset in
      flush_offsets key reason os (produce_async texts q (router metadata) [] none metadata)

  flush_partition : OffsetTracker → TopicPartition → DlqQueue → DlqQueue
  unfolding flush_offsets
  flush_partition t key q = elim (Map.get key t.partitions) [
    | none ↦ q
    | some s ↦ flush_offsets key (reason_text s.last_failure_reason) s.failed_offsets q
  ]

  flush_keys : OffsetTracker → List TopicPartition → DlqQueue → DlqQueue
  flush_keys t [] q = q
  flush_keys t (key ∷ ks) q = flush_keys t ks (flush_partition t key q)

  unfoldable pub flush_failed_to_dlq : OffsetTracker → DlqQueue → DlqQueue
  unfolding flush_keys flush_partition
  flush_failed_to_dlq t q = flush_keys t (all_partitions t) q

  -- The message that a failed offset becomes.
  unfoldable pub failed_message : TopicPartition → String → ℤ → DlqMessage
  failed_message key reason offset =
      let metadata = flush_metadata now key reason offset in
      dlq_message texts (router metadata) [] none metadata

  unfoldable pub messages_of_offsets : TopicPartition → String → List ℤ → List DlqMessage
  messages_of_offsets key reason [] = []
  messages_of_offsets key reason (o ∷ os) =
      failed_message key reason o ∷ messages_of_offsets key reason os

  unfoldable pub messages_of_state : TopicPartition → Option PartitionState → List DlqMessage
  messages_of_state key none = []
  messages_of_state key (some s) =
      messages_of_offsets key (reason_text s.last_failure_reason) s.failed_offsets

  unfoldable pub messages_of_keys : OffsetTracker → List TopicPartition → List DlqMessage
  unfolding messages_of_state
  messages_of_keys t [] = []
  messages_of_keys t (key ∷ ks) =
      messages_of_state key (Map.get key t.partitions) ++ messages_of_keys t ks

  send_all-append :
      (q : DlqQueue) (ms ns : List DlqMessage) → send_all q (ms ++ ns) ≡ send_all (send_all q ms) ns
  unfolding send_all
  send_all-append q [] ns = refl
  send_all-append q (m ∷ ms) ns = send_all-append (try_send q m) ms ns

  flush_offsets-send_all :
      (key : TopicPartition) (reason : String) (os : List ℤ) (q : DlqQueue)
      → flush_offsets key reason os q ≡ send_all q (messages_of_offsets key reason os)
  unfolding flush_offsets messages_of_offsets send_all produce_async failed_message
  flush_offsets-send_all key reason [] q = refl
  flush_offsets-send_all key reason (o ∷ os) q = flush_offsets-send_all key reason os _

  flush_partition-send_all :
      (t : OffsetTracker) (key : TopicPartition) (q : DlqQueue)
      → flush_partition t key q ≡ send_all q (messages_of_state key (Map.get key t.partitions))
  unfolding flush_partition messages_of_state send_all
  flush_partition-send_all t key q = go (Map.get key t.partitions) refl
    where
      go :
          (o : Option PartitionState)
          → Map.get key t.partitions ≡ o
          → flush_partition t key q ≡ send_all q (messages_of_state key o)
      go none e = rw (e, flush_partition)
      go (some s) e = rw (e, flush_partition) (flush_offsets-send_all key _ s.failed_offsets q)

  flush_keys-send_all :
      (t : OffsetTracker) (ks : List TopicPartition) (q : DlqQueue)
      → flush_keys t ks q ≡ send_all q (messages_of_keys t ks)
  unfolding flush_keys messages_of_keys send_all
  flush_keys-send_all t [] q = refl
  flush_keys-send_all t (key ∷ ks) q =
      flush_keys-send_all t ks (flush_partition t key q)
      ∙ ap (λ r. send_all r (messages_of_keys t ks)) (flush_partition-send_all t key q)
      ∙ sym (
          send_all-append q (messages_of_state key (Map.get key t.partitions))
            (messages_of_keys t ks))

  -- The flush sends one message for each failed offset of each partition, with the reason of the
  -- last failure of the partition. They join the channel in that order as far as there is room, and
  -- all others are lost. The channel was within its capacity.
  pub flush_failed_to_dlq_lem :
      (t : OffsetTracker) (q : DlqQueue)
      → length q ≤ dlq_channel_capacity
      → flush_failed_to_dlq t q
        ≡ q ++ take (dlq_channel_capacity - length q) (messages_of_keys t (all_partitions t))
  unfolding flush_failed_to_dlq
  flush_failed_to_dlq_lem t q h =
      flush_keys-send_all t (all_partitions t) q
      ∙ send_all-take q (messages_of_keys t (all_partitions t)) h
