-- ===== src/Observability/Snapshots/Lags.antt =====
-- What a snapshot of src/observability/runtime_snapshot.rs says of the offsets.
use kaf_py.Prelude.{
  ◌≡◌, refl, ap, ◌∙◌, Option, none, some, String, ℤ, pos, [], ◌∷◌, map, string_eq, int_eq, ◌==◌,
  if◌then◌else◌, Bool-cases, inl, inr,
}
use kaf_py.Prelude.Map
use kaf_py.Prelude.Map.{Map, Values}
use kaf_py.Offset.Tracker.{OffsetTracker, TopicPartition, key_eq, offset_snapshots}
use kaf_py.Observability.Snapshots.{
  TopicLagInfo, or_new, PartitionLagInfo, add_i64, add_partition, add_partitions, with_total,
  total_of, lag_summary,
}

-- The entry of a partition.
abbrev pub lag_of : ℤ → Option TopicLagInfo → Option PartitionLagInfo
lag_of partition none = none
lag_of partition (some info) = Map.get partition info.partitions

abbrev pub lag_at : Map String TopicLagInfo → TopicPartition → Option PartitionLagInfo
lag_at per_topic key = lag_of key.partition (Map.get key.topic per_topic)

abbrev pub entry : ℤ → PartitionLagInfo
entry committed = record { consumer_lag = pos 0; committed_offset = committed }

lag_of_lem :
    (partition : ℤ) (o : Option TopicLagInfo)
    → lag_of partition o ≡ Map.get partition (or_new o).partitions
unfolding Map.get
lag_of_lem partition none = refl
lag_of_lem partition (some info) = refl

add_partition-lag_at :
    (per_topic : Map String TopicLagInfo) (key other : TopicPartition) (committed : ℤ)
    → lag_at (add_partition per_topic (key, committed)) other
      ≡ (if key == other then some (entry committed) else lag_at per_topic other)
unfolding add_partition
add_partition-lag_at per_topic key other committed =
    let info = or_new (Map.get key.topic per_topic) in
    let info' : TopicLagInfo = record info {
      partitions = Map.insert key.partition (entry committed) info.partitions;
    } in
    let found = Map.get-insert other.topic key.topic info' per_topic in
    elim (Bool-cases (key.topic == other.topic)) [
      | inl same ↦
          let there = (string_eq.test_iff key.topic other.topic).0 same in
          rw
            (
              found,
              same,
              Map.get-insert other.partition key.partition (entry committed) info.partitions,
            )
            (rw (lag_of_lem other.partition (Map.get other.topic per_topic), there) refl)
      | inr away ↦ rw (found, away) refl
    ]

-- No two entries have one key, as in a hash map.
abbrev pub IsDistinct : Map TopicPartition ℤ → Type 0
IsDistinct [] = Unit
IsDistinct ((key, committed) ∷ entries) = (Map.get key entries ≡ none) × IsDistinct entries

abbrev pub or_else : Option PartitionLagInfo → Option ℤ → Option PartitionLagInfo
or_else before none = before
or_else before (some committed) = some (entry committed)

add_partitions-lag_at :
    (per_topic : Map String TopicLagInfo) (entries : Map TopicPartition ℤ) (other : TopicPartition)
    → IsDistinct entries
    → lag_at (add_partitions per_topic entries) other
      ≡ or_else (lag_at per_topic other) (Map.get other entries)
unfolding add_partitions Map.get
add_partitions-lag_at per_topic [] other d = refl
add_partitions-lag_at per_topic ((key, committed) ∷ entries) other d =
    let step = add_partition-lag_at per_topic key other committed in
    let rest = add_partitions-lag_at (add_partition per_topic (key, committed)) entries other d.1 in
    elim (Bool-cases (key == other)) [
      | inl same ↦
          let absent : Map.get other entries ≡ none =
            rw (← (key_eq.test_iff key other).0 same) d.0 in
          rw same (rest ∙ rw absent (rw same at step))
      | inr away ↦
          rw away (rest ∙ ap (λ before. or_else before (Map.get other entries)) (rw away at step))
    ]

-- The totals leave the partitions alone.
map-with_total :
    (per_topic : Map String TopicLagInfo) (key : TopicPartition)
    → lag_at (map (λ p. (p.0, with_total p.1)) per_topic) key ≡ lag_at per_topic key
unfolding with_total Map.get
map-with_total [] key = refl
map-with_total ((topic, info) ∷ infos) key = elim (Bool-cases (topic == key.topic)) [
  | inl same ↦ rw same refl
  | inr away ↦ rw away (map-with_total infos key)
]

total_of_zero : (entries : Map TopicPartition ℤ) → total_of (pos 0) entries ≡ pos 0
unfolding total_of add_i64
total_of_zero [] = refl
total_of_zero (entry ∷ entries) = total_of_zero entries

-- For a tracker whose partitions have distinct keys: the summary shows a partition exactly if the
-- tracker has it, with the offset that is committed there; but the lag of every partition is zero,
-- however many messages wait, and so is the total.
pub lag_summary_lem :
    (t : OffsetTracker) (key : TopicPartition)
    → IsDistinct (offset_snapshots t)
    → (lag_at (lag_summary t).per_topic key ≡ or_else none (Map.get key (offset_snapshots t)))
      × ((lag_summary t).total_lag ≡ pos 0)
unfolding lag_summary Map.get
lag_summary_lem t key d = (
  map-with_total (add_partitions [] (offset_snapshots t)) key
      ∙ add_partitions-lag_at [] (offset_snapshots t) key d,
  total_of_zero (offset_snapshots t),
)
