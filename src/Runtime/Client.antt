-- ===== src/Runtime/Client.antt =====
-- The configuration of the consumer that `RuntimeBuilder::build` of src/runtime/builder.rs makes of the
-- one that Python gives (src/config.rs), and the settings of the Kafka client that follow.
pub mod Settings
use kaf_py.Prelude.{
  ℕ, Option, none, some, String, string_eq, List, [], ◌∷◌, ◌++◌, ◌==◌, if◌then◌else◌,
}
use kaf_py.Retry.{RetryPolicy}
use kaf_py.Configuration.{from_millis, to_rust}
use kaf_py.Configuration.Consumers
use kaf_py.Consumer.Config
use kaf_py.Consumer.Config.{ConsumerConfigBuilder, AutoOffsetReset, Setter, Built, set, build}

unfoldable pub reset_of : String → AutoOffsetReset
reset_of name = if name == "earliest" then AutoOffsetReset.earliest else AutoOffsetReset.latest

module _ {F64 : Type 0} where
  -- `if let Some(value)`: a setter that is called when there is a value.
  abbrev pub set_some :
      {A : Type 0}
      → (A → Setter (RetryPolicy F64))
      → Option A
      → Config.ConsumerFields (RetryPolicy F64)
      → Config.ConsumerFields (RetryPolicy F64)
  set_some setter none f = f
  set_some setter (some a) f = set f (setter a)

  -- The fields but for the optional ones.
  unfoldable pub plain_fields :
      RetryPolicy F64 → Consumers.ConsumerFields F64 → Config.ConsumerFields (RetryPolicy F64)
  unfolding set reset_of Config.new
  plain_fields default_policy f =
      let f0 = (Config.new default_policy).fields in
      let f1 = set f0 (Setter.topics f.topics) in
      let f2 = set f1 (Setter.auto_offset_reset (reset_of f.auto_offset_reset)) in
      let f3 = set f2 (Setter.enable_auto_commit f.enable_auto_commit) in
      let f4 = set f3 (Setter.session_timeout (from_millis f.session_timeout_ms)) in
      let f5 = set f4 (Setter.heartbeat_interval (from_millis f.heartbeat_interval_ms)) in
      set f5 (Setter.max_poll_interval (from_millis f.max_poll_interval_ms))

  unfoldable pub rust_fields :
      RetryPolicy F64 → Consumers.ConsumerFields F64 → Config.ConsumerFields (RetryPolicy F64)
  unfolding plain_fields to_rust
  rust_fields default_policy f =
      let with_policy =
        set_some (λ py_retry. Setter.default_retry_policy (to_rust py_retry)) f.default_retry_policy
          (plain_fields default_policy f) in
      let with_prefix = set_some Setter.dlq_topic_prefix f.dlq_topic_prefix with_policy in
      set_some Setter.drain_timeout f.drain_timeout_secs with_prefix

  unfoldable pub rust_config :
      RetryPolicy F64 → Consumers.ConsumerConfig F64 → Built (RetryPolicy F64)
  unfolding rust_fields Config.new Config.brokers Config.group_id build
  rust_config default_policy c =
      let b : ConsumerConfigBuilder (RetryPolicy F64) =
        Config.group_id (Config.brokers (Config.new default_policy) c.brokers) c.group_id in
      build (record b { fields = rust_fields default_policy c.fields })
