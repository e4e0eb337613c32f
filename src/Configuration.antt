-- ===== src/Configuration.antt =====
-- The configuration that the Python side gives, src/config.rs, and the policies of src/bindings.rs. A
-- method that changes its object returns the new object and its result. Doubles are the interface
-- `Float64`.
pub mod Environment
pub mod Fluent
pub mod Consumers
pub mod Producers
use kaf_py.Prelude.{ℕ, ◌*◌, Option, none, some, String, string_eq, ◌==◌, if◌then◌else◌}
use kaf_py.Retry.{RetryPolicy}

pub record PyRetryPolicy (F64 : Type 0) : Type 0 where
  pub max_attempts : ℕ
  pub base_delay_ms : ℕ
  pub max_delay_ms : ℕ
  pub jitter_factor : F64

pub record PyObservabilityConfig (F64 : Type 0) : Type 0 where
  pub otlp_endpoint : Option String
  pub service_name : String
  pub sampling_ratio : F64
  pub log_format : String

pub data LogFormat : Type 0 where
  json pretty simple : LogFormat

pub record ObservabilityConfig (F64 : Type 0) : Type 0 where
  pub otlp_endpoint : Option String
  pub service_name : String
  pub sampling_ratio : F64
  pub log_format : LogFormat

-- `Duration::from_millis`: a duration is a number of nanoseconds.
abbrev pub from_millis : ℕ → ℕ
from_millis ms = ms * 1000000

unfoldable pub to_rust : {F64 : Type 0} → PyRetryPolicy F64 → RetryPolicy F64
to_rust p = record {
  max_attempts = p.max_attempts;
  base_delay = from_millis p.base_delay_ms;
  max_delay = from_millis p.max_delay_ms;
  jitter_factor = p.jitter_factor;
}

unfoldable pub log_format_of : String → LogFormat
log_format_of name =
    if name == "json"
    then LogFormat.json
    else if name == "simple"
    then LogFormat.simple
    else LogFormat.pretty

unfoldable pub observability_to_rust :
    {F64 : Type 0} → PyObservabilityConfig F64 → ObservabilityConfig F64
unfolding log_format_of
observability_to_rust c = record {
  otlp_endpoint = c.otlp_endpoint;
  service_name = c.service_name;
  sampling_ratio = c.sampling_ratio;
  log_format = log_format_of c.log_format;
}
