-- ===== src/Consumer/Config/Settings.antt =====
-- What the builder of src/consumer/config.rs accepts, and where the byte limits of a fetch go.
use kaf_py.Prelude.{ℕ, ◌≡◌, ◌≢◌, ◌↔◌, refl, some, String, ℤ, [], string_eq, arith}
use kaf_py.Prelude.Map
use kaf_py.Consumer.Config.{ConsumerConfig, ConsumerConfigBuilder, ok, build, into_rdkafka_config}

module _ {Policy : Type 0} where
  -- `build` gives a configuration exactly when the brokers and the group were set and there is a topic, and the configuration
  -- has the values of the builder.
  build-ok :
      (b : ConsumerConfigBuilder Policy) (c : ConsumerConfig Policy)
      → (build b ≡ ok c) ↔ (
          (b.brokers ≡ some c.brokers)
          × (b.group_id ≡ some c.group_id)
          × (b.fields ≡ c.fields)
          × (c.fields.topics ≢ []))
  unfolding build
  build-ok b c = ground arith

  -- The client is given the minimum of a fetch as its largest message size, and the partition's limit under another name: a
  -- later change of the partition's limit leaves the value of the first.
  fetch_max-config :
      (show_nat : ℕ → String) (show_int : ℤ → String) (c : ConsumerConfig Policy) (limit : ℤ)
      → let limited : ConsumerConfig Policy = record c {
        fields = record c.fields { max_partition_fetch_bytes = limit };
      } in
        (Map.get "fetch.message.max.bytes" (into_rdkafka_config show_nat show_int limited)
          ≡ some (show_int c.fields.fetch_min_bytes))
        × (Map.get "max.partition.fetch.bytes" (into_rdkafka_config show_nat show_int limited)
            ≡ some (show_int limit))
  unfolding into_rdkafka_config Map.get
  fetch_max-config show_nat show_int c limit = (refl, refl)
