-- ===== src/Configuration/Producers.antt =====
-- `ProducerConfig` and `ProducerConfigBuilder` of src/config.rs.
pub mod Builders
use kaf_py.Prelude.{ℕ, Bool, true, false, Option, none, some, String, ◌>>=◌}
use kaf_py.Configuration.Environment.{Environment, text, uint, bool}

-- The fields that the configuration and its builder share.
pub record ProducerFields : Type 0 where
  pub message_timeout_ms : ℕ
  pub queue_buffering_max_messages : ℕ
  pub queue_buffering_max_kbytes : ℕ
  pub batch_num_messages : ℕ
  pub compression_type : String
  pub linger_ms : ℕ
  pub request_timeout_ms : ℕ
  pub retry_backoff_ms : ℕ
  pub retries : ℕ
  pub max_in_flight : ℕ
  pub enable_idempotence : Bool
  pub acks : String
  pub security_protocol : Option String
  pub sasl_mechanism : Option String
  pub sasl_username : Option String
  pub sasl_password : Option String

pub record ProducerConfig : Type 0 where
  pub brokers : String
  pub fields : ProducerFields

pub record ProducerConfigBuilder : Type 0 where
  pub brokers : Option String
  pub fields : ProducerFields

pub data Setter : Type 0 where
  brokers : String → Setter
  message_timeout_ms queue_buffering_max_messages queue_buffering_max_kbytes : ℕ → Setter
  batch_num_messages : ℕ → Setter
  compression_type : String → Setter
  linger_ms request_timeout_ms retry_backoff_ms retries max_in_flight : ℕ → Setter
  enable_idempotence : Bool → Setter
  acks security_protocol : String → Setter
  sasl_mechanism : String → String → String → Setter

pub data Built : Type 0 where
  ok : ProducerConfig → Built
  value_error : String → Built

-- The fields of a new builder, and the defaults of the constructor's signature.
abbrev pub default_fields : ProducerFields
default_fields = record {
  message_timeout_ms = 30000;
  queue_buffering_max_messages = 100000;
  queue_buffering_max_kbytes = 1048576;
  batch_num_messages = 10000;
  compression_type = "snappy";
  linger_ms = 5;
  request_timeout_ms = 30000;
  retry_backoff_ms = 100;
  retries = 2147483647;
  max_in_flight = 5;
  enable_idempotence = true;
  acks = "all";
  security_protocol = none;
  sasl_mechanism = none;
  sasl_username = none;
  sasl_password = none;
}

unfoldable pub new : ProducerConfigBuilder
new = record { brokers = none; fields = default_fields }

unfoldable pub set_field : ProducerFields → Setter → ProducerFields
set_field f (Setter.brokers hosts) = f
set_field f (Setter.message_timeout_ms ms) = record f { message_timeout_ms = ms }
set_field f (Setter.queue_buffering_max_messages n) = record f { queue_buffering_max_messages = n }
set_field f (Setter.queue_buffering_max_kbytes kbytes) = record f {
  queue_buffering_max_kbytes = kbytes;
}
set_field f (Setter.batch_num_messages n) = record f { batch_num_messages = n }
set_field f (Setter.compression_type ct) = record f { compression_type = ct }
set_field f (Setter.linger_ms ms) = record f { linger_ms = ms }
set_field f (Setter.request_timeout_ms ms) = record f { request_timeout_ms = ms }
set_field f (Setter.retry_backoff_ms ms) = record f { retry_backoff_ms = ms }
set_field f (Setter.retries n) = record f { retries = n }
set_field f (Setter.max_in_flight n) = record f { max_in_flight = n }
set_field f (Setter.enable_idempotence enabled) = record f { enable_idempotence = enabled }
set_field f (Setter.acks acknowledged) = record f { acks = acknowledged }
set_field f (Setter.security_protocol proto) = record f { security_protocol = some proto }
set_field f (Setter.sasl_mechanism mechanism username password) = record f {
  sasl_mechanism = some mechanism;
  sasl_username = some username;
  sasl_password = some password;
}

-- What the setter makes of its object.
unfoldable pub set : ProducerConfigBuilder → Setter → ProducerConfigBuilder
unfolding set_field
set b (Setter.brokers hosts) = record b { brokers = some hosts }
set b setter = record b { fields = set_field b.fields setter }

unfoldable pub make_producer_builder_clone : ProducerConfigBuilder → ProducerConfigBuilder
make_producer_builder_clone b =
    let f = b.fields in
    record {
      brokers = b.brokers;
      fields = record {
        message_timeout_ms = f.message_timeout_ms;
        queue_buffering_max_messages = f.queue_buffering_max_messages;
        queue_buffering_max_kbytes = f.queue_buffering_max_kbytes;
        batch_num_messages = f.batch_num_messages;
        compression_type = f.compression_type;
        linger_ms = f.linger_ms;
        request_timeout_ms = f.request_timeout_ms;
        retry_backoff_ms = f.retry_backoff_ms;
        retries = f.retries;
        max_in_flight = f.max_in_flight;
        enable_idempotence = f.enable_idempotence;
        acks = f.acks;
        security_protocol = f.security_protocol;
        sasl_mechanism = f.sasl_mechanism;
        sasl_username = f.sasl_username;
        sasl_password = f.sasl_password;
      };
    }

unfoldable pub build : ProducerConfigBuilder → Built
build b = elim b.brokers [
  | none ↦ Built.value_error "missing required field: brokers"
  | some hosts ↦ Built.ok (record { brokers = hosts; fields = b.fields })
]

unfoldable pub from_env : Environment → Option ProducerConfig
unfolding text uint bool
from_env e = do
  message_timeout ← uint e 64 "PRODUCER_MESSAGE_TIMEOUT_MS" "30000"
  max_messages ← uint e 32 "PRODUCER_QUEUE_BUFFERING_MAX_MESSAGES" "100000"
  max_kbytes ← uint e 32 "PRODUCER_QUEUE_BUFFERING_MAX_KBYTES" "1048576"
  batch ← uint e 32 "PRODUCER_BATCH_NUM_MESSAGES" "10000"
  linger ← uint e 32 "PRODUCER_LINGER_MS" "5"
  request_timeout ← uint e 32 "PRODUCER_REQUEST_TIMEOUT_MS" "30000"
  backoff ← uint e 32 "PRODUCER_RETRY_BACKOFF_MS" "100"
  retry ← uint e 32 "PRODUCER_RETRIES" "2147483647"
  in_flight ← uint e 32 "PRODUCER_MAX_IN_FLIGHT" "5"
  idempotent ← bool e "PRODUCER_ENABLE_IDEMPOTENCE" "true"
  some (record {
    brokers = text e "KAFKA_BROKERS" "localhost:9092";
    fields = record {
      message_timeout_ms = message_timeout;
      queue_buffering_max_messages = max_messages;
      queue_buffering_max_kbytes = max_kbytes;
      batch_num_messages = batch;
      compression_type = text e "PRODUCER_COMPRESSION_TYPE" "snappy";
      linger_ms = linger;
      request_timeout_ms = request_timeout;
      retry_backoff_ms = backoff;
      retries = retry;
      max_in_flight = in_flight;
      enable_idempotence = idempotent;
      acks = text e "PRODUCER_ACKS" "all";
      security_protocol = e.var "KAFKA_SECURITY_PROTOCOL";
      sasl_mechanism = e.var "KAFKA_SASL_MECHANISM";
      sasl_username = e.var "KAFKA_SASL_USERNAME";
      sasl_password = e.var "KAFKA_SASL_PASSWORD";
    };
  })
