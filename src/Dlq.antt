-- ===== src/Dlq.antt =====
-- src/dlq: the envelope, the routing and the bounded channel of the dead-letter queue. A point in
-- time is a number; the texts of numbers and times are arguments.
pub mod Channel
use kaf_py.Prelude.{ℕ, ℤ, Option, none, String, concat, List, [], ◌∷◌}

pub record OriginalMessage : Type 0 where
  pub topic : String
  pub partition : ℤ
  pub offset : ℤ

pub record DlqMetadata : Type 0 where
  pub original : OriginalMessage
  pub failure_reason : String
  pub attempt_count : ℕ
  pub first_failure_timestamp : ℕ
  pub last_failure_timestamp : ℕ
  pub timeout_duration : Option ℕ
  pub last_processed_offset : Option ℤ
  pub branch_id : Option ℕ
  pub fan_out_id : Option ℕ

pub record TopicPartition : Type 0 where
  pub topic : String
  pub partition : ℤ

-- The trait `DlqRouter`.
abbrev pub DlqRouter : Type 0
DlqRouter = DlqMetadata → TopicPartition

pub record DefaultDlqRouter : Type 0 where
  pub dlq_topic_prefix : String

unfoldable pub with_default_prefix : DefaultDlqRouter
with_default_prefix = record { dlq_topic_prefix = "dlq." }

unfoldable pub route : DefaultDlqRouter → DlqRouter
route r metadata = record {
  topic = concat r.dlq_topic_prefix metadata.original.topic;
  partition = metadata.original.partition;
}

-- The values are the texts whose bytes the headers carry.
unfoldable pub metadata_to_headers :
    (ℤ → String) → (ℕ → String) → (ℕ → String) → DlqMetadata → List (String × String)
metadata_to_headers show_int show_u32 rfc3339 m =
    ("dlq.original_topic", m.original.topic)
    ∷ ("dlq.partition", show_int m.original.partition)
    ∷ ("dlq.offset", show_int m.original.offset)
    ∷ ("dlq.reason", m.failure_reason)
    ∷ ("dlq.attempts", show_u32 m.attempt_count)
    ∷ ("dlq.first_failure", rfc3339 m.first_failure_timestamp)
    ∷ ("dlq.last_failure", rfc3339 m.last_failure_timestamp)
    ∷ []
