-- ===== src/Examples.antt =====
-- The theorems on concrete inputs, and the data that these share.
pub mod Offsets
pub mod Trackers
pub mod Retries
pub mod Workers
pub mod Dispatches
pub mod Batches
pub mod Configurations
pub mod Producers
pub mod Observations
pub mod Runners
pub mod Shutdowns
pub mod Startups
pub mod Registrations
pub mod FanOuts
pub mod Consumers
pub mod Loops
use kaf_py.Prelude.{
  ℕ, ◌+◌, ◌-◌, ◌*◌, min, ◌≡◌, refl, Option, none, some, String, ℤ, pos, List, [], Float64,
}
use kaf_py.Failure.{RetryableKind, network_timeout, FailureReason, TerminalKind}
use kaf_py.Message.{OwnedMessage, MessageTimestamp, not_available}
use kaf_py.Retry.{RetryPolicy, next_delay, schedule}
use kaf_py.Retry.Coordinator.{RetryCoordinator, with_policy, RetryKey}
use kaf_py.Retry.Coordinator.Attempts.{HasDelays}
use kaf_py.Offset.Tracker.{TopicPartition}
use kaf_py.Dlq.{DlqRouter, route, with_default_prefix}
use kaf_py.Dlq.Channel.{Texts}

-- Whole numbers in place of the doubles.
abbrev pub whole : Float64
whole = record {
  F64 = ℕ;
  one = 1;
  two = 2;
  add = λ a b. a + b;
  sub = λ a b. a - b;
  mul = λ a b. a * b;
  fmin = λ a b. min a b;
  powf = λ a b. a * b;
  of_usize = λ n. n;
  as_secs_f64 = λ n. n;
  from_secs_f64 = λ n. some n;
}

abbrev pub two_attempts : RetryPolicy ℕ
two_attempts = record { max_attempts = 2; base_delay = 3; max_delay = 10; jitter_factor = 0 }

pub two_attempts-HasDelays : HasDelays whole two_attempts
unfolding next_delay schedule
two_attempts-HasDelays draw n = (_, refl)

abbrev pub fresh : RetryCoordinator ℕ
fresh = record { state = []; default_policy = two_attempts }

abbrev pub orders : TopicPartition
orders = record { topic = "orders"; partition = pos 0 }

abbrev pub order_key : RetryKey
order_key = record { topic = "orders"; partition = pos 0; offset = pos 7 }

abbrev pub order : OwnedMessage
order = record {
  topic = "orders";
  partition = pos 0;
  offset = pos 7;
  key = none;
  payload = none;
  timestamp = not_available;
  headers = [];
}

abbrev pub plain : Texts
plain = record { show_int = λ i. "i"; show_u32 = λ n. "n"; rfc3339 = λ n. "t" }

abbrev pub timeout_reason : FailureReason
timeout_reason = FailureReason.retryable network_timeout
