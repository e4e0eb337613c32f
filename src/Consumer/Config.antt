-- ===== src/Consumer/Config.antt =====
-- src/consumer/config.rs: the builder of the consumer's configuration, and the settings that it gives the
-- Kafka client, as the pairs in the order of the calls of `set`. The retry policy is a value of a type
-- that is an argument, and so are its default and the texts of numbers. A duration is a number of nanoseconds.
pub mod Settings
use mathlib.Core.Option.{map}
use kaf_py.Prelude.{
  ℕ, ◌/◌, ◌%◌, ◌>>=◌, Bool, true, false, Option, none, some, String, ℤ, pos, List, [], ◌∷◌, ◌++◌,
}

pub data AutoOffsetReset : Type 0 where
  earliest latest : AutoOffsetReset

unfoldable pub reset_str : AutoOffsetReset → String
reset_str earliest = "earliest"
reset_str latest = "latest"

pub data PartitionAssignmentStrategy : Type 0 where
  round_robin range cooperative_sticky : PartitionAssignmentStrategy

unfoldable pub strategy_str : PartitionAssignmentStrategy → String
strategy_str round_robin = "roundrobin"
strategy_str range = "range"
strategy_str cooperative_sticky = "cooperative-sticky"

-- The fields that the builder and the configuration share.
pub record ConsumerFields (Policy : Type 0) : Type 0 where
  pub topics : List String
  pub auto_offset_reset : AutoOffsetReset
  pub enable_auto_commit : Bool
  pub enable_auto_offset_store : Bool
  pub session_timeout_ms : ℕ
  pub bootstrap_timeout_ms : Option ℕ
  pub heartbeat_interval_ms : ℕ
  pub max_poll_interval_ms : ℕ
  pub security_protocol : Option String
  pub sasl_mechanism : Option String
  pub sasl_username : Option String
  pub sasl_password : Option String
  pub fetch_min_bytes : ℤ
  pub max_partition_fetch_bytes : ℤ
  pub partition_assignment_strategy : PartitionAssignmentStrategy
  pub retry_backoff_ms : ℕ
  pub default_retry_policy : Policy
  pub dlq_topic_prefix : String
  pub drain_timeout_secs : ℕ

pub record ConsumerConfig (Policy : Type 0) : Type 0 where
  pub brokers : String
  pub group_id : String
  pub fields : ConsumerFields Policy

pub record ConsumerConfigBuilder (Policy : Type 0) : Type 0 where
  pub brokers : Option String
  pub group_id : Option String
  pub fields : ConsumerFields Policy

pub data BuildError : Type 0 where
  missing_field : String → BuildError
  no_topics : BuildError
  invalid_field : String → BuildError

pub data Built (Policy : Type 0) : Type 0 where
  ok : ConsumerConfig Policy → Built Policy
  err : BuildError → Built Policy

-- `as_millis() as u32`
abbrev pub millis_u32 : ℕ → ℕ
millis_u32 duration = duration / 1000000 % 4294967296

-- The setters of the other fields.
pub data Setter (Policy : Type 0) : Type 0 where
  topics : List String → Setter Policy
  add_topic : String → Setter Policy
  auto_offset_reset : AutoOffsetReset → Setter Policy
  enable_auto_commit enable_auto_offset_store : Bool → Setter Policy
  session_timeout bootstrap_timeout heartbeat_interval max_poll_interval : ℕ → Setter Policy
  security_protocol : String → Setter Policy
  sasl_mechanism : String → String → String → Setter Policy
  fetch_min_bytes max_partition_fetch_bytes : ℤ → Setter Policy
  partition_assignment_strategy : PartitionAssignmentStrategy → Setter Policy
  retry_backoff : ℕ → Setter Policy
  default_retry_policy : Policy → Setter Policy
  dlq_topic_prefix : String → Setter Policy
  drain_timeout : ℕ → Setter Policy

module _ {Policy : Type 0} where
  unfoldable pub new : Policy → ConsumerConfigBuilder Policy
  new default_policy = record {
    brokers = none;
    group_id = none;
    fields = record {
      topics = [];
      auto_offset_reset = latest;
      enable_auto_commit = false;
      enable_auto_offset_store = false;
      session_timeout_ms = 45000;
      bootstrap_timeout_ms = none;
      heartbeat_interval_ms = 3000;
      max_poll_interval_ms = 300000;
      security_protocol = none;
      sasl_mechanism = none;
      sasl_username = none;
      sasl_password = none;
      fetch_min_bytes = pos 1048576;
      max_partition_fetch_bytes = pos 10485760;
      partition_assignment_strategy = cooperative_sticky;
      retry_backoff_ms = 100;
      default_retry_policy = default_policy;
      dlq_topic_prefix = "dlq.";
      drain_timeout_secs = 30;
    };
  }

  unfoldable pub brokers : ConsumerConfigBuilder Policy → String → ConsumerConfigBuilder Policy
  brokers b hosts = record b { brokers = some hosts }

  unfoldable pub group_id : ConsumerConfigBuilder Policy → String → ConsumerConfigBuilder Policy
  group_id b group = record b { group_id = some group }

  unfoldable pub set : ConsumerFields Policy → Setter Policy → ConsumerFields Policy
  set f (topics ts) = record f { topics = ts }
  set f (add_topic topic) = record f { topics = f.topics ++ topic ∷ [] }
  set f (auto_offset_reset reset) = record f { auto_offset_reset = reset }
  set f (enable_auto_commit enabled) = record f { enable_auto_commit = enabled }
  set f (enable_auto_offset_store enabled) = record f { enable_auto_offset_store = enabled }
  set f (session_timeout timeout) = record f { session_timeout_ms = millis_u32 timeout }
  set f (bootstrap_timeout timeout) = record f { bootstrap_timeout_ms = some (millis_u32 timeout) }
  set f (heartbeat_interval interval) = record f { heartbeat_interval_ms = millis_u32 interval }
  set f (max_poll_interval interval) = record f { max_poll_interval_ms = millis_u32 interval }
  set f (security_protocol protocol) = record f { security_protocol = some protocol }
  set f (sasl_mechanism mechanism username password) = record f {
    sasl_mechanism = some mechanism;
    sasl_username = some username;
    sasl_password = some password;
  }
  set f (fetch_min_bytes bytes) = record f { fetch_min_bytes = bytes }
  set f (max_partition_fetch_bytes bytes) = record f { max_partition_fetch_bytes = bytes }
  set f (partition_assignment_strategy strategy) = record f {
    partition_assignment_strategy = strategy;
  }
  set f (retry_backoff backoff) = record f { retry_backoff_ms = millis_u32 backoff }
  set f (default_retry_policy policy) = record f { default_retry_policy = policy }
  set f (dlq_topic_prefix prefix) = record f { dlq_topic_prefix = prefix }
  set f (drain_timeout secs) = record f { drain_timeout_secs = secs }

  -- The checks in their order: brokers, group, topics.
  unfoldable pub build : ConsumerConfigBuilder Policy → Built Policy
  build b = elim b.brokers [
    | none ↦ err (missing_field "brokers")
    | some hosts ↦ elim b.group_id [
      | none ↦ err (missing_field "group_id")
      | some group ↦ elim b.fields.topics [
        | [] ↦ err no_topics
        | topic ∷ rest ↦ ok (record { brokers = hosts; group_id = group; fields = b.fields })
      ]
    ]
  ]

unfoldable pub show_bool : Bool → String
show_bool true = "true"
show_bool false = "false"

-- A setting that is made when there is a value.
unfoldable pub setting : String → Option String → List (String × String)
setting key none = []
setting key (some value) = (key, value) ∷ []

unfoldable pub into_rdkafka_config :
    {Policy : Type 0} → (ℕ → String) → (ℤ → String) → ConsumerConfig Policy → List (String × String)
unfolding reset_str strategy_str show_bool setting
into_rdkafka_config show_nat show_int c =
    let f = c.fields in
    (("bootstrap.servers", c.brokers)
      ∷ ("group.id", c.group_id)
      ∷ ("auto.offset.reset", reset_str f.auto_offset_reset)
      ∷ ("enable.auto.commit", show_bool f.enable_auto_commit)
      ∷ ("enable.auto.offset.store", show_bool f.enable_auto_offset_store)
      ∷ ("session.timeout.ms", show_nat f.session_timeout_ms)
      ∷ ("heartbeat.interval.ms", show_nat f.heartbeat_interval_ms)
      ∷ ("max.poll.interval.ms", show_nat f.max_poll_interval_ms)
      ∷ ("fetch.min.bytes", show_int f.fetch_min_bytes)
      ∷ ("enable.partition.eof", "false")
      ∷ ("max.partition.fetch.bytes", show_int f.max_partition_fetch_bytes)
      ∷ ("fetch.message.max.bytes", show_int f.fetch_min_bytes)
      ∷ ("queued.min.messages", "100000")
      ∷ ("queued.max.messages.kbytes", "65536")
      ∷ ("fetch.wait.max.ms", "500")
      ∷ ("fetch.error.backoff.ms", "500")
      ∷ ("reconnect.backoff.ms", "100")
      ∷ ("retry.backoff.ms", show_nat f.retry_backoff_ms)
      ∷ ("reconnect.backoff.max.ms", "10000")
      ∷ ("partition.assignment.strategy", strategy_str f.partition_assignment_strategy)
      ∷ [])
    ++ setting "security.protocol" f.security_protocol
    ++ setting "sasl.mechanism" f.sasl_mechanism
    ++ setting "sasl.username" f.sasl_username
    ++ setting "sasl.password" f.sasl_password
    ++ setting "bootstrap.timeout.ms" (map show_nat f.bootstrap_timeout_ms)
