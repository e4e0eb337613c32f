-- ===== src/Configuration/Consumers.antt =====
-- `ConsumerConfig` and `ConsumerConfigBuilder` of src/config.rs. A setter changes its object and
-- returns a copy of it.
pub mod Builders
pub mod Defaults
use kaf_py.Prelude.{
  ℕ, Bool, true, false, Option, none, some, String, List, [], ◌∷◌, ◌++◌, ◌>>=◌, if◌then◌else◌,
}
use kaf_py.Configuration.{PyRetryPolicy, PyObservabilityConfig}
use kaf_py.Configuration.Environment
use kaf_py.Configuration.Environment.{Environment, text, uint, bool, optional_uint, optional_bool}

-- The fields that the configuration and its builder share. A lock around a field is no part of it.
pub record ConsumerFields (F64 : Type 0) : Type 0 where
  pub topics : List String
  pub auto_offset_reset : String
  pub enable_auto_commit : Bool
  pub session_timeout_ms : ℕ
  pub bootstrap_timeout_ms : Option ℕ
  pub heartbeat_interval_ms : ℕ
  pub max_poll_interval_ms : ℕ
  pub security_protocol : Option String
  pub sasl_mechanism : Option String
  pub sasl_username : Option String
  pub sasl_password : Option String
  pub fetch_min_bytes : ℕ
  pub max_partition_fetch_bytes : ℕ
  pub partition_assignment_strategy : String
  pub retry_backoff_ms : ℕ
  pub message_batch_size : ℕ
  pub default_retry_policy : Option (PyRetryPolicy F64)
  pub dlq_topic_prefix : Option String
  pub drain_timeout_secs : Option ℕ
  pub num_workers : Option ℕ
  pub enable_auto_offset_store : Option Bool
  pub observability_config : Option (PyObservabilityConfig F64)
  pub handler_timeout_ms : Option ℕ

pub record ConsumerConfig (F64 : Type 0) : Type 0 where
  pub brokers : String
  pub group_id : String
  pub fields : ConsumerFields F64

pub record ConsumerConfigBuilder (F64 : Type 0) : Type 0 where
  pub brokers : Option String
  pub group_id : Option String
  pub fields : ConsumerFields F64

-- The methods that set a field.
pub data Setter (F64 : Type 0) : Type 0 where
  brokers group_id : String → Setter F64
  topics : List String → Setter F64
  add_topic : String → Setter F64
  auto_offset_reset : String → Setter F64
  enable_auto_commit : Bool → Setter F64
  session_timeout_ms bootstrap_timeout_ms heartbeat_interval_ms max_poll_interval_ms :
      ℕ → Setter F64
  security_protocol : String → Setter F64
  sasl_mechanism : String → String → String → Setter F64
  fetch_min_bytes max_partition_fetch_bytes : ℕ → Setter F64
  partition_assignment_strategy : String → Setter F64
  retry_backoff_ms message_batch_size : ℕ → Setter F64
  default_retry_policy : PyRetryPolicy F64 → Setter F64
  dlq_topic_prefix : String → Setter F64
  drain_timeout_secs num_workers : ℕ → Setter F64
  enable_auto_offset_store : Bool → Setter F64
  observability_config : PyObservabilityConfig F64 → Setter F64
  handler_timeout_ms : ℕ → Setter F64

-- A `PyValueError` with its text.
pub data Built (F64 : Type 0) : Type 0 where
  ok : ConsumerConfig F64 → Built F64
  value_error : String → Built F64

module _ {F64 : Type 0} where
  -- The fields of a new builder, and the defaults of the constructor's signature.
  abbrev pub default_fields : ConsumerFields F64
  default_fields = record {
    topics = [];
    auto_offset_reset = "earliest";
    enable_auto_commit = false;
    session_timeout_ms = 30000;
    bootstrap_timeout_ms = none;
    heartbeat_interval_ms = 3000;
    max_poll_interval_ms = 300000;
    security_protocol = none;
    sasl_mechanism = none;
    sasl_username = none;
    sasl_password = none;
    fetch_min_bytes = 1;
    max_partition_fetch_bytes = 1048576;
    partition_assignment_strategy = "roundrobin";
    retry_backoff_ms = 100;
    message_batch_size = 100;
    default_retry_policy = none;
    dlq_topic_prefix = none;
    drain_timeout_secs = none;
    num_workers = none;
    enable_auto_offset_store = none;
    observability_config = none;
    handler_timeout_ms = none;
  }

  unfoldable pub new : ConsumerConfigBuilder F64
  new = record { brokers = none; group_id = none; fields = default_fields }

  unfoldable pub set_field : ConsumerFields F64 → Setter F64 → ConsumerFields F64
  set_field f (Setter.brokers hosts) = f
  set_field f (Setter.group_id group) = f
  set_field f (Setter.topics ts) = record f { topics = ts }
  set_field f (Setter.add_topic topic) = record f { topics = f.topics ++ topic ∷ [] }
  set_field f (Setter.auto_offset_reset reset) = record f { auto_offset_reset = reset }
  set_field f (Setter.enable_auto_commit enabled) = record f { enable_auto_commit = enabled }
  set_field f (Setter.session_timeout_ms ms) = record f { session_timeout_ms = ms }
  set_field f (Setter.bootstrap_timeout_ms ms) = record f { bootstrap_timeout_ms = some ms }
  set_field f (Setter.heartbeat_interval_ms ms) = record f { heartbeat_interval_ms = ms }
  set_field f (Setter.max_poll_interval_ms ms) = record f { max_poll_interval_ms = ms }
  set_field f (Setter.security_protocol proto) = record f { security_protocol = some proto }
  set_field f (Setter.sasl_mechanism mechanism username password) = record f {
    sasl_mechanism = some mechanism;
    sasl_username = some username;
    sasl_password = some password;
  }
  set_field f (Setter.fetch_min_bytes bytes) = record f { fetch_min_bytes = bytes }
  set_field f (Setter.max_partition_fetch_bytes bytes) = record f {
    max_partition_fetch_bytes = bytes;
  }
  set_field f (Setter.partition_assignment_strategy strategy) = record f {
    partition_assignment_strategy = strategy;
  }
  set_field f (Setter.retry_backoff_ms ms) = record f { retry_backoff_ms = ms }
  set_field f (Setter.message_batch_size size) = record f { message_batch_size = size }
  set_field f (Setter.default_retry_policy policy) = record f { default_retry_policy = some policy }
  set_field f (Setter.dlq_topic_prefix prefix) = record f { dlq_topic_prefix = some prefix }
  set_field f (Setter.drain_timeout_secs secs) = record f { drain_timeout_secs = some secs }
  set_field f (Setter.num_workers n) = record f { num_workers = some n }
  set_field f (Setter.enable_auto_offset_store enabled) = record f {
    enable_auto_offset_store = some enabled;
  }
  set_field f (Setter.observability_config config) = record f { observability_config = some config }
  set_field f (Setter.handler_timeout_ms ms) = record f { handler_timeout_ms = some ms }

  -- What the setter makes of its object.
  unfoldable pub set : ConsumerConfigBuilder F64 → Setter F64 → ConsumerConfigBuilder F64
  unfolding set_field
  set b (Setter.brokers hosts) = record b { brokers = some hosts }
  set b (Setter.group_id group) = record b { group_id = some group }
  set b setter = record b { fields = set_field b.fields setter }

  unfoldable pub make_consumer_builder_clone : ConsumerConfigBuilder F64 → ConsumerConfigBuilder F64
  make_consumer_builder_clone b =
      let f = b.fields in
      record {
        brokers = b.brokers;
        group_id = b.group_id;
        fields = record {
          topics = f.topics;
          auto_offset_reset = f.auto_offset_reset;
          enable_auto_commit = f.enable_auto_commit;
          session_timeout_ms = f.session_timeout_ms;
          bootstrap_timeout_ms = f.bootstrap_timeout_ms;
          heartbeat_interval_ms = f.heartbeat_interval_ms;
          max_poll_interval_ms = f.max_poll_interval_ms;
          security_protocol = f.security_protocol;
          sasl_mechanism = f.sasl_mechanism;
          sasl_username = f.sasl_username;
          sasl_password = f.sasl_password;
          fetch_min_bytes = f.fetch_min_bytes;
          max_partition_fetch_bytes = f.max_partition_fetch_bytes;
          partition_assignment_strategy = f.partition_assignment_strategy;
          retry_backoff_ms = f.retry_backoff_ms;
          message_batch_size = f.message_batch_size;
          default_retry_policy = f.default_retry_policy;
          dlq_topic_prefix = f.dlq_topic_prefix;
          drain_timeout_secs = f.drain_timeout_secs;
          num_workers = f.num_workers;
          enable_auto_offset_store = f.enable_auto_offset_store;
          observability_config = f.observability_config;
          handler_timeout_ms = f.handler_timeout_ms;
        };
      }

  unfoldable pub build : ConsumerConfigBuilder F64 → Built F64
  build b = elim b.brokers [
    | none ↦ Built.value_error "missing required field: brokers"
    | some hosts ↦ elim b.group_id [
      | none ↦ Built.value_error "missing required field: group_id"
      | some group ↦ elim b.fields.topics [
        | [] ↦ Built.value_error "at least one topic must be specified"
        | topic ∷ rest ↦ Built.ok (record { brokers = hosts; group_id = group; fields = b.fields })
      ]
    ]
  ]

  unfoldable pub from_env : Environment → Option (ConsumerConfig F64)
  unfolding text uint bool optional_uint optional_bool
  from_env e = do
    auto_commit ← bool e "KAFKA_ENABLE_AUTO_COMMIT" "false"
    session_timeout ← uint e 32 "KAFKA_SESSION_TIMEOUT_MS" "30000"
    bootstrap_timeout ← optional_uint e 32 "KAFKA_BOOTSTRAP_TIMEOUT_MS"
    heartbeat ← uint e 32 "KAFKA_HEARTBEAT_INTERVAL_MS" "3000"
    max_poll ← uint e 32 "KAFKA_MAX_POLL_INTERVAL_MS" "300000"
    min_bytes ← uint e 32 "KAFKA_FETCH_MIN_BYTES" "1"
    max_bytes ← uint e 32 "KAFKA_MAX_PARTITION_FETCH_BYTES" "1048576"
    backoff ← uint e 32 "KAFKA_RETRY_BACKOFF_MS" "100"
    batch_size ← uint e 64 "KAFKA_MESSAGE_BATCH_SIZE" "100"
    drain_timeout ← optional_uint e 64 "KAFKA_DRAIN_TIMEOUT_SECS"
    workers ← optional_uint e 32 "KAFKA_NUM_WORKERS"
    offset_store ← optional_bool e "KAFKA_ENABLE_AUTO_OFFSET_STORE"
    handler_timeout ← optional_uint e 64 "KAFKA_HANDLER_TIMEOUT_MS"
    some (record {
      brokers = text e "KAFKA_BROKERS" "localhost:9092";
      group_id = text e "KAFKA_GROUP_ID" "rust-consumer-group";
      fields = record {
        topics = e.split_trimmed (text e "KAFKA_TOPICS" "transactions,events");
        auto_offset_reset = text e "KAFKA_AUTO_OFFSET_RESET" "earliest";
        enable_auto_commit = auto_commit;
        session_timeout_ms = session_timeout;
        bootstrap_timeout_ms = bootstrap_timeout;
        heartbeat_interval_ms = heartbeat;
        max_poll_interval_ms = max_poll;
        security_protocol = e.var "KAFKA_SECURITY_PROTOCOL";
        sasl_mechanism = e.var "KAFKA_SASL_MECHANISM";
        sasl_username = e.var "KAFKA_SASL_USERNAME";
        sasl_password = e.var "KAFKA_SASL_PASSWORD";
        fetch_min_bytes = min_bytes;
        max_partition_fetch_bytes = max_bytes;
        partition_assignment_strategy = text e "KAFKA_PARTITION_ASSIGNMENT_STRATEGY" "roundrobin";
        retry_backoff_ms = backoff;
        message_batch_size = batch_size;
        default_retry_policy = none;
        dlq_topic_prefix = e.var "KAFKA_DLQ_TOPIC_PREFIX";
        drain_timeout_secs = drain_timeout;
        num_workers = workers;
        enable_auto_offset_store = offset_store;
        observability_config = none;
        handler_timeout_ms = handler_timeout;
      };
    })
