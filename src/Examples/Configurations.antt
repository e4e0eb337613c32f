-- ===== src/Examples/Configurations.antt =====
-- A configuration from Python with credentials, and a bare environment.
use kaf_py.Prelude.{
  ℕ, ◌≡◌, refl, none, some, String, [], ◌∷◌, string_eq, ◌==◌, if◌then◌else◌, Option,
}
use kaf_py.Prelude.Map
use kaf_py.Retry.{RetryPolicy}
use kaf_py.Configuration.Environment.{Environment}
use kaf_py.Configuration.Consumers
use kaf_py.Configuration.Consumers.{Setter, from_env, default_fields}
use kaf_py.Configuration.Consumers.Defaults.{IsBare, named, from_env-build}
use kaf_py.Consumer.Config.{ConsumerConfig, Built}
use kaf_py.Runtime.Client.{rust_config, rust_fields}
use kaf_py.Runtime.Client.Settings.{Dropped, rust_config-Dropped}

-- The numbers that the defaults are written with.
abbrev read_uint : ℕ → String → Option ℕ
read_uint bits text =
    if text == "1"
    then some 1
    else if text == "100"
    then some 100
    else if text == "3000"
    then some 3000
    else if text == "30000"
    then some 30000
    else if text == "300000"
    then some 300000
    else if text == "1048576"
    then some 1048576
    else none

abbrev bare : Environment
bare = record {
  var = λ name. none;
  parse_uint = read_uint;
  parse_bool = λ text. some (text == "true");
  split_trimmed = λ text. "transactions" ∷ "events" ∷ [];
}

bare-IsBare : IsBare bare
bare-IsBare = record {
  unset = λ name. refl;
  reads_false = refl;
  reads_1 = refl;
  reads_100 = refl;
  reads_100_wide = refl;
  reads_3000 = refl;
  reads_30000 = refl;
  reads_300000 = refl;
  reads_1048576 = refl;
  splits = refl;
}

from_env-build_example :
    (c : Consumers.ConsumerConfig ℕ) × (from_env bare ≡ some c)
    × (Consumers.build named ≡ Consumers.Built.ok c)
from_env-build_example = from_env-build bare bare-IsBare

abbrev default_policy : RetryPolicy ℕ
default_policy = record { max_attempts = 3; base_delay = 100; max_delay = 30000; jitter_factor = 0 }

abbrev secured : Consumers.ConsumerConfig ℕ
secured = record {
  brokers = "broker:9093";
  group_id = "billing";
  fields = record default_fields {
    topics = "orders" ∷ [];
    security_protocol = some "SASL_SSL";
    sasl_mechanism = some "PLAIN";
    sasl_username = some "user";
    sasl_password = some "secret";
    fetch_min_bytes = 7;
  };
}

abbrev secured_builder : Consumers.ConsumerConfigBuilder ℕ
secured_builder = record {
  brokers = some "broker:9093";
  group_id = some "billing";
  fields = secured.fields;
}

abbrev pub client : ConsumerConfig (RetryPolicy ℕ)
client = record {
  brokers = "broker:9093";
  group_id = "billing";
  fields = rust_fields default_policy secured.fields;
}

client_made : rust_config default_policy secured ≡ Built.ok client
unfolding rust_config
client_made = refl

rust_config-Dropped_example : Dropped (λ n. "n") (λ i. "i") client
rust_config-Dropped_example =
    rust_config-Dropped default_policy (λ n. "n") (λ i. "i") secured client client_made
