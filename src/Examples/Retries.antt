-- ===== src/Examples/Retries.antt =====
-- The retry coordinator on concrete inputs.
use kaf_py.Prelude.{ℕ, refl, List, [], ◌∷◌, arith}
use kaf_py.Prelude.Map
use kaf_py.Failure.{network_timeout, broker_unavailable, RetryableKind, category}
use kaf_py.Retry.{next_delay, schedule}
use kaf_py.Retry.Coordinator.{RetryCoordinator, key_eq, retrying, record_failure}
use kaf_py.Retry.Coordinator.Attempts.{IsBounded}
use kaf_py.Retry.Coordinator.State.{record_failure-IsBounded}
use kaf_py.Examples.{whole, fresh, order_key, timeout_reason}

abbrev failures : List (ℕ × RetryableKind)
failures = (0, network_timeout) ∷ (0, broker_unavailable) ∷ (0, network_timeout) ∷ []

abbrev once : RetryCoordinator ℕ
once = record fresh { state = (order_key, retrying 1) ∷ [] }

pub fresh-IsBounded : IsBounded fresh
unfolding Map.get
fresh-IsBounded k = tt

record_failure-IsBounded_example : IsBounded once
unfolding record_failure Map.get Map.insert category next_delay schedule
record_failure-IsBounded_example =
    record_failure-IsBounded whole fresh 0 order_key timeout_reason (omega arith) fresh-IsBounded
      refl
