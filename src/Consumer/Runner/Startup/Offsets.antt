-- ===== src/Consumer/Runner/Startup/Offsets.antt =====
-- The offsets from which a new consumer of src/consumer/runner.rs starts.
use kaf_py.Prelude.{
  ℕ, ◌≡◌, refl, sym, ap, ◌∙◌, Bool, false, ◌||◌, ◌==◌, Bool-cases, inl, inr, Option, none, some,
  String, ℤ, negsuc, List, [], ◌∷◌, ◌++◌, map, if◌then◌else◌, arith,
}
use kaf_py.Prelude.Map
use kaf_py.Prelude.Map.{Map}
use kaf_py.Shutdown.{ShutdownCoordinator}
use kaf_py.Offset.Tracker.{OffsetTracker, TopicPartition, key_eq, beq_key_iff, committed_offset}
use kaf_py.Consumer
use kaf_py.Consumer.{CustomConsumerContext, seed_startup_offsets, seek_to}
use kaf_py.Consumer.Config.{ConsumerConfig, into_rdkafka_config}
use kaf_py.Consumer.Runner.{ConsumerRunner}
use kaf_py.Consumer.Runner.Startup.{
  KafkaClient, Created, insert_committed, partitions_of, fetch_committed, fetch_topic, prefetch,
  seeded, new,
}

abbrev pub is_among : TopicPartition → List TopicPartition → Bool
is_among key [] = false
is_among key (k ∷ keys) = k == key || is_among key keys

-- The partitions of the topics.
abbrev pub all_of : (String → List ℤ) → List String → List TopicPartition
all_of ids [] = []
all_of ids (topic ∷ topics) = partitions_of topic (ids topic) ++ all_of ids topics

abbrev or_before : Option ℤ → Option ℤ → Option ℤ
or_before none before = before
or_before (some o) before = some o

put : TopicPartition → Option ℤ → Map TopicPartition ℤ → Map TopicPartition ℤ
put k none offsets = offsets
put k (some o) offsets = Map.insert k o offsets

insert_committed-put :
    (k : TopicPartition) (c : Option ℤ) (elements : List (TopicPartition × Option ℤ))
    (offsets : Map TopicPartition ℤ)
    → insert_committed ((k, c) ∷ elements) offsets ≡ insert_committed elements (put k c offsets)
unfolding insert_committed put
insert_committed-put k none elements offsets = refl
insert_committed-put k (some o) elements offsets = refl

get-put :
    (key k : TopicPartition) (c : Option ℤ) (offsets : Map TopicPartition ℤ)
    → Map.get key (put k c offsets)
      ≡ (if k == key then or_before c (Map.get key offsets) else Map.get key offsets)
unfolding put
get-put key k none offsets = ground arith
get-put key k (some o) offsets = Map.get-insert key k o offsets

or_before-none : (c : Option ℤ) → or_before c none ≡ c
or_before-none none = refl
or_before-none (some o) = refl

or_before_idem : (c before : Option ℤ) → or_before c (or_before c before) ≡ or_before c before
or_before_idem none before = refl
or_before_idem (some o) before = refl

module _ (committed : TopicPartition → Option ℤ) where
  abbrev pub answer : List TopicPartition → List (TopicPartition × Option ℤ)
  answer = map (λ key. (key, committed key))

  insert_committed-append :
      (ks ls : List TopicPartition) (offsets : Map TopicPartition ℤ)
      → insert_committed (answer (ks ++ ls)) offsets
        ≡ insert_committed (answer ls) (insert_committed (answer ks) offsets)
  unfolding insert_committed
  insert_committed-append [] ls offsets = refl
  insert_committed-append (k ∷ ks) ls offsets =
      insert_committed-put k (committed k) (answer (ks ++ ls)) offsets
      ∙ (insert_committed-append ks ls (put k (committed k) offsets)
          ∙ ap (insert_committed (answer ls))
              (sym (insert_committed-put k (committed k) (answer ks) offsets)))

  -- The offset of a partition after an answer.
  abbrev fetched : TopicPartition → List TopicPartition → Option ℤ → Option ℤ
  fetched key keys before = if is_among key keys then or_before (committed key) before else before

  fetched_first :
      (key k : TopicPartition) (keys : List TopicPartition) (before : Option ℤ)
      → fetched key keys (if k == key then or_before (committed k) before else before)
        ≡ fetched key (k ∷ keys) before
  fetched_first key k keys before = elim (Bool-cases (k == key)) [
    | inl same ↦
        let here = (beq_key_iff k key).0 same in
        rw (same, here)
          (elim (Bool-cases (is_among key keys)) [
            | inl later ↦ rw later (or_before_idem (committed key) before)
            | inr last ↦ rw last refl
          ])
    | inr away ↦ rw away refl
  ]

  get-insert_committed :
      (key : TopicPartition) (keys : List TopicPartition) (offsets : Map TopicPartition ℤ)
      → Map.get key (insert_committed (answer keys) offsets)
        ≡ fetched key keys (Map.get key offsets)
  unfolding insert_committed
  get-insert_committed key [] offsets = refl
  get-insert_committed key (k ∷ keys) offsets =
      ap (Map.get key) (insert_committed-put k (committed k) (answer keys) offsets)
      ∙ (get-insert_committed key keys (put k (committed k) offsets)
          ∙ (ap (fetched key keys) (get-put key k (committed k) offsets)
              ∙ fetched_first key k keys (Map.get key offsets)))

  module _ (client : KafkaClient) (ids : String → List ℤ)
      (answers : (keys : List TopicPartition) → client.committed_offsets keys ≡ some (answer keys))
      (describes : (topic : String) → client.fetch_metadata topic ≡ some (ids topic ∷ [])) where
    fetch_committed-answer :
        (keys : List TopicPartition) (offsets : Map TopicPartition ℤ)
        → fetch_committed client keys offsets ≡ insert_committed (answer keys) offsets
    unfolding fetch_committed insert_committed
    fetch_committed-answer [] offsets = refl
    fetch_committed-answer (key ∷ keys) offsets = rw (fetch_committed, answers (key ∷ keys)) refl

    prefetch-answer :
        (topics : List String) (offsets : Map TopicPartition ℤ)
        → prefetch client topics offsets ≡ insert_committed (answer (all_of ids topics)) offsets
    unfolding prefetch fetch_topic insert_committed
    prefetch-answer [] offsets = refl
    prefetch-answer (topic ∷ topics) offsets = rw (describes topic) (
        ap (prefetch client topics)
          (fetch_committed-answer (partitions_of topic (ids topic)) offsets)
        ∙ (prefetch-answer topics
              (insert_committed (answer (partitions_of topic (ids topic))) offsets)
            ∙ sym (
                insert_committed-append (partitions_of topic (ids topic)) (all_of ids topics)
                  offsets)))

    seeded-seek_to :
        (key : TopicPartition) (tracker : OffsetTracker) (offsets : Map TopicPartition ℤ)
        → committed_offset tracker key ≡ negsuc 0
        → seek_to (seeded client (Consumer.new tracker) offsets) key ≡ Map.get key offsets
    unfolding seek_to Consumer.new seed_startup_offsets Map.get
    seeded-seek_to key tracker [] h = rw h refl
    seeded-seek_to key tracker (entry ∷ offsets) h = rw h refl

    -- A runner whose client is created and subscribed is returned, and with the first assignment each
    -- partition of its topics is sought to the offset that the group has committed; a partition without one,
    -- and one of any other topic, is left to the policy of the client. The client knows the partitions of each topic
    -- and answers with the committed offsets that it is asked for, and the tracker has nothing of the partition yet.
    pub new-seek_to :
        {Policy : Type 0} (show_nat : ℕ → String) (show_int : ℤ → String)
        (config : ConsumerConfig Policy) (coordinator : Option ShutdownCoordinator)
        (tracker : OffsetTracker) (key : TopicPartition)
        → client.create (into_rdkafka_config show_nat show_int config) ≡ none
        → client.subscribe config.fields.topics ≡ none
        → committed_offset tracker key ≡ negsuc 0
        → (runner : ConsumerRunner) × (ctx : CustomConsumerContext) × (new client show_nat show_int
              config coordinator tracker
            ≡ Created.ok runner ctx)
          × (seek_to ctx key
              ≡ (if is_among key (all_of ids config.fields.topics) then committed key else none))
    unfolding new Map.get
    new-seek_to show_nat show_int config coordinator tracker key created subscribed h = (
      record { loop = none; coordinator = coordinator },
      seeded client (Consumer.new tracker) (prefetch client config.fields.topics []),
      rw (new, created, subscribed) refl,
      seeded-seek_to key tracker (prefetch client config.fields.topics []) h
          ∙ (ap (Map.get key) (prefetch-answer config.fields.topics [])
              ∙ (get-insert_committed key (all_of ids config.fields.topics) []
                  ∙ ap (λ o. if is_among key (all_of ids config.fields.topics) then o else none)
                      (or_before-none (committed key)))),
    )
