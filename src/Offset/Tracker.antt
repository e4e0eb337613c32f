-- ===== src/Offset/Tracker.antt =====
-- `OffsetTracker` of src/offset/offset_tracker.rs: the partitions by topic and number. A method
-- returns the new tracker; `none` is a panic. An async call is the list of the calls that it makes
-- when it is polled.
pub mod Flush
pub mod Histories
pub mod Commits
use text.Mathlib.TextEquality.{eq_iff}
use kaf_py.Prelude.{
  ℕ, ◌↔◌, ◌≡◌, Bool, true, false, not, ◌&&◌, ◌||◌, Option, none, some, String, ℤ, pos, negsuc,
  arith, List, [], ◌∷◌, ◌++◌, map, leb_ℤ, if◌then◌else◌, HasTest, ◌==◌, string_eq, int_eq,
  beq_ℤ_iff, ◌>>=◌, ◌>>◌, assert,
}
use kaf_py.Prelude.Map
use kaf_py.Prelude.Map.{Map}
use kaf_py.Prelude.OrdSet.{OrdSet}
use kaf_py.Failure.{FailureReason, display_reason}
use kaf_py.Offset.Partition
use kaf_py.Offset.Partition.{PartitionState, record_failed}
use kaf_py.Dlq.{DlqMetadata, DlqRouter}
use kaf_py.Dlq.Channel.{DlqQueue, Texts, produce_async}

pub record TopicPartition : Type 0 where
  pub topic : String
  pub partition : ℤ

abbrev pub beq_key : TopicPartition → TopicPartition → Bool
beq_key a b = a.topic == b.topic && a.partition == b.partition

pub beq_key_iff : (a b : TopicPartition) → (beq_key a b ≡ true) ↔ (a ≡ b)
beq_key_iff a b = ground (arith, eq_iff a.topic b.topic, beq_ℤ_iff a.partition b.partition)

instance abbrev pub key_eq : HasTest TopicPartition
key_eq = record { test_iff = beq_key_iff; test = beq_key }

-- `commit_tx` holds the values that were sent to the committer, the latest first, once a sender
-- is set.
pub record OffsetTracker : Type 0 where
  pub partitions : Map TopicPartition PartitionState
  pub has_runner : Bool
  pub commit_tx : Option (List TopicPartition)

unfoldable pub new : OffsetTracker
new = record { partitions = []; has_runner = false; commit_tx = none }

unfoldable pub set_commit_sender : OffsetTracker → OffsetTracker
set_commit_sender t = record t { commit_tx = some [] }

unfoldable pub set_runner : OffsetTracker → OffsetTracker
set_runner t = record t { has_runner = true }

unfoldable pub state_or_default : TopicPartition → OffsetTracker → PartitionState
state_or_default key t = elim (Map.get key t.partitions) [ none ↦ Partition.new | some s ↦ s ]

signal : Option (List TopicPartition) → TopicPartition → Option (List TopicPartition)
signal none key = none
signal (some sent) key = some (key ∷ sent)

unfoldable pub ack : OffsetTracker → TopicPartition → ℤ → Option OffsetTracker
unfolding signal
ack t key offset = do
  assert (leb_ℤ (pos 0) offset)
  some (record t {
    partitions = Map.insert key (Partition.ack (state_or_default key t) offset) t.partitions;
    commit_tx = signal t.commit_tx key;
  })

unfoldable pub highest_contiguous : OffsetTracker → TopicPartition → Option ℤ
highest_contiguous t key = elim (Map.get key t.partitions) [
  | none ↦ none
  | some s ↦ some s.committed_offset
]

abbrev is_empty : OrdSet → Bool
is_empty [] = true
is_empty (x ∷ s) = false

unfoldable pub is_committable : PartitionState → Bool
is_committable s =
    if s.has_terminal
    then false
    else not (is_empty s.pending_offsets) || leb_ℤ (pos 0) s.committed_offset

unfoldable pub should_commit : OffsetTracker → TopicPartition → Bool
unfolding is_committable
should_commit t key = elim (Map.get key t.partitions) [ none ↦ false | some s ↦ is_committable s ]

unfoldable pub committed_offset : OffsetTracker → TopicPartition → ℤ
committed_offset t key = elim (Map.get key t.partitions) [
  | none ↦ negsuc 0
  | some s ↦ s.committed_offset
]

unfoldable pub all_partitions : OffsetTracker → List TopicPartition
all_partitions t = Map.keys t.partitions

unfoldable pub offset_snapshots : OffsetTracker → Map TopicPartition ℤ
offset_snapshots t = map (λ p. (p.0, p.1.committed_offset)) t.partitions

-- The trait's `mark_failed`.
unfoldable pub mark_failed : OffsetTracker → TopicPartition → ℤ → FailureReason → OffsetTracker
mark_failed t key offset reason = elim (Map.get key t.partitions) [
  | none ↦ t
  | some s ↦ record t { partitions = Map.insert key (record_failed s offset reason) t.partitions }
]

-- A call of the runner.
pub data RunnerCall : Type 0 where
  store_offset : TopicPartition → ℤ → RunnerCall
  commit : RunnerCall

-- A future is dropped before it was polled: nothing of it runs.
abbrev pub drop_future : List RunnerCall → List RunnerCall
drop_future calls = []

-- `store_offset` is an async function, `commit` is not.
unfoldable pub shutdown_partition : OffsetTracker → TopicPartition → List RunnerCall
shutdown_partition t key =
    if should_commit t key
    then elim (highest_contiguous t key) [
      | none ↦ []
      | some offset ↦
          if t.has_runner then drop_future (store_offset key offset ∷ []) ++ commit ∷ [] else []
    ]
    else []

shutdown_all : OffsetTracker → List TopicPartition → List RunnerCall
shutdown_all t [] = []
shutdown_all t (key ∷ ks) = shutdown_partition t key ++ shutdown_all t ks

unfoldable pub graceful_shutdown : OffsetTracker → List RunnerCall
unfolding shutdown_all shutdown_partition
graceful_shutdown t = shutdown_all t (all_partitions t)
