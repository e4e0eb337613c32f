-- ===== src/Consumer/Runner/Startup.antt =====
-- `ConsumerRunner::new` of src/consumer/runner.rs: the subscription, and the fetch of the committed offsets
-- before the first poll. The Kafka client is an interface; its time-outs are among its answers.
pub mod Offsets
use kaf_py.Prelude.{
  ℕ, ◌≡◌, refl, sym, ap, ◌∙◌, subst, Bool, true, false, ◌||◌, ◌==◌, Bool-cases, inl, inr, Option,
  none, some, String, ℤ, negsuc, List, [], ◌∷◌, ◌++◌, map, if◌then◌else◌,
}
use kaf_py.Prelude.Map
use kaf_py.Prelude.Map.{Map}
use kaf_py.Shutdown.{ShutdownCoordinator}
use kaf_py.Offset.Tracker.{OffsetTracker, TopicPartition, key_eq, beq_key_iff, committed_offset}
use kaf_py.Consumer
use kaf_py.Consumer.{CustomConsumerContext, seed_startup_offsets, seek_to}
use kaf_py.Consumer.Config.{ConsumerConfig, into_rdkafka_config}
use kaf_py.Consumer.Runner.{ConsumerRunner}

-- `some` of the first two is the text of an error. `fetch_metadata` gives the partitions of each topic in its
-- answer; `committed_offsets` the offset of each partition, `none` for one that is no number.
pub record KafkaClient : Type 0 where
  pub create : List (String × String) → Option String
  pub subscribe : List String → Option String
  pub fetch_metadata : String → Option (List (List ℤ))
  pub committed_offsets : List TopicPartition → Option (List (TopicPartition × Option ℤ))

pub data ConsumerError : Type 0 where
  kafka : String → ConsumerError
  subscription : String → String → ConsumerError

-- The runner has the pause state of the context.
pub data Created : Type 0 where
  ok : ConsumerRunner → CustomConsumerContext → Created
  err : ConsumerError → Created

-- The loop over the elements of an answer.
unfoldable pub insert_committed :
    List (TopicPartition × Option ℤ) → Map TopicPartition ℤ → Map TopicPartition ℤ
insert_committed [] offsets = offsets
insert_committed ((key, none) ∷ elements) offsets = insert_committed elements offsets
insert_committed ((key, some o) ∷ elements) offsets =
    insert_committed elements (Map.insert key o offsets)

-- `add_partition` for each partition.
unfoldable pub partitions_of : String → List ℤ → List TopicPartition
partitions_of topic [] = []
partitions_of topic (id ∷ ids) = record { topic = topic; partition = id } ∷ partitions_of topic ids

module _ (client : KafkaClient) where
  unfoldable fetch_committed : List TopicPartition → Map TopicPartition ℤ → Map TopicPartition ℤ
  unfolding insert_committed
  fetch_committed [] offsets = offsets
  fetch_committed (key ∷ keys) offsets = elim (client.committed_offsets (key ∷ keys)) [
    | none ↦ offsets
    | some elements ↦ insert_committed elements offsets
  ]

  unfoldable fetch_topic : String → List (List ℤ) → Map TopicPartition ℤ → Map TopicPartition ℤ
  unfolding fetch_committed partitions_of
  fetch_topic topic [] offsets = offsets
  fetch_topic topic (ids ∷ metas) offsets =
      fetch_topic topic metas (fetch_committed (partitions_of topic ids) offsets)

  unfoldable pub prefetch : List String → Map TopicPartition ℤ → Map TopicPartition ℤ
  unfolding fetch_topic
  prefetch [] offsets = offsets
  prefetch (topic ∷ topics) offsets = prefetch topics (elim (client.fetch_metadata topic) [
    | none ↦ offsets
    | some metas ↦ fetch_topic topic metas offsets
  ])

  abbrev seeded : CustomConsumerContext → Map TopicPartition ℤ → CustomConsumerContext
  seeded ctx [] = ctx
  seeded ctx (entry ∷ offsets) = seed_startup_offsets ctx (entry ∷ offsets)

  unfoldable pub new :
      {Policy : Type 0}
      → (ℕ → String)
      → (ℤ → String)
      → ConsumerConfig Policy
      → Option ShutdownCoordinator
      → OffsetTracker
      → Created
  unfolding prefetch
  new show_nat show_int config coordinator tracker =
      elim (client.create (into_rdkafka_config show_nat show_int config)) [
        | some e ↦ err (kafka e)
        | none ↦ elim (client.subscribe config.fields.topics) [
          | some e ↦ err (subscription config.brokers e)
          | none ↦
              ok (record { loop = none; coordinator = coordinator })
                (seeded (Consumer.new tracker) (prefetch config.fields.topics []))
        ]
      ]
