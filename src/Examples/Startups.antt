-- ===== src/Examples/Startups.antt =====
-- The start of a consumer on a topic with two partitions, one of them with a committed offset.
use kaf_py.Prelude.{
  ◌≡◌, refl, Option, none, some, String, ℤ, pos, List, [], ◌∷◌, map, ◌==◌, if◌then◌else◌,
}
use kaf_py.Prelude.Map
use kaf_py.Offset.Tracker
use kaf_py.Offset.Tracker.{TopicPartition, key_eq, committed_offset}
use kaf_py.Consumer.{CustomConsumerContext, seek_to}
use kaf_py.Consumer.Runner.{ConsumerRunner}
use kaf_py.Consumer.Runner.Startup.{KafkaClient, Created, partitions_of, new}
use kaf_py.Consumer.Runner.Startup.Offsets.{new-seek_to}
use kaf_py.Runtime.Client.{rust_fields}
use kaf_py.Examples.Configurations.{client}

abbrev first : TopicPartition
first = record { topic = "orders"; partition = pos 0 }

abbrev committed : TopicPartition → Option ℤ
committed key = if key == first then some (pos 42) else none

abbrev ids : String → List ℤ
ids topic = pos 0 ∷ pos 1 ∷ []

abbrev broker : KafkaClient
broker = record {
  create = λ settings. none;
  subscribe = λ topics. none;
  fetch_metadata = λ topic. some (ids topic ∷ []);
  committed_offsets = λ keys. some (map (λ key. (key, committed key)) keys);
}

new-seek_to_example :
    (runner : ConsumerRunner) × (ctx : CustomConsumerContext) × (new broker
        (λ n. "n")
        (λ i. "i")
        client
        none
        Tracker.new
      ≡ Created.ok runner ctx)
    × (seek_to ctx first ≡ some (pos 42))
unfolding committed_offset Tracker.new Map.get rust_fields partitions_of
new-seek_to_example =
    new-seek_to committed broker ids (λ keys. refl) (λ topic. refl) (λ n. "n") (λ i. "i") client
      none Tracker.new first refl refl refl
