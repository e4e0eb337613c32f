-- ===== src/Retry/Coordinator.antt =====
-- src/retry/retry_coordinator.rs: the attempts of each message, and the decision after a failure.
-- A method returns the new coordinator; `none` is a panic in the computation of the delay.
pub mod Attempts
pub mod State
pub mod Total
use kaf_py.Prelude.{
  ℕ, ◌↔◌, ◌≡◌, Bool, true, false, ◌&&◌, Option, none, some, String, ℤ, arith, leb, if◌then◌else◌,
  HasTest, ◌==◌, string_eq, int_eq, Float64, ◌>>=◌, [], add_usize, sub_usize,
}
use text.Mathlib.TextEquality.{eq_iff}
use kaf_py.Prelude.Map
use kaf_py.Prelude.Map.{Map}
use kaf_py.Prelude.Int.{beq_ℤ_iff}
use kaf_py.Failure.{FailureReason, FailureCategory, category}
use kaf_py.Retry.{RetryPolicy, schedule, next_delay}

pub data RetryState : Type 0 where
  retrying : ℕ → RetryState
  exhausted : RetryState

unfoldable pub attempt : RetryState → ℕ
attempt (retrying n) = n
attempt exhausted = 0

pub record RetryKey : Type 0 where
  pub topic : String
  pub partition : ℤ
  pub offset : ℤ

abbrev pub beq_key : RetryKey → RetryKey → Bool
beq_key a b = a.topic == b.topic && (a.partition == b.partition && a.offset == b.offset)

pub beq_key_iff : (a b : RetryKey) → (beq_key a b ≡ true) ↔ (a ≡ b)
beq_key_iff a b =
    ground (
      arith,
      eq_iff a.topic b.topic,
      beq_ℤ_iff a.partition b.partition,
      beq_ℤ_iff a.offset b.offset,
    )

instance abbrev pub key_eq : HasTest RetryKey
key_eq = record { test_iff = beq_key_iff; test = beq_key }

pub record RetryCoordinator (F64 : Type 0) : Type 0 where
  pub state : Map RetryKey RetryState
  pub default_policy : RetryPolicy F64

-- `new`, and `with_policy` of the tests.
unfoldable pub with_policy : {F64 : Type 0} → RetryPolicy F64 → RetryCoordinator F64
with_policy p = record { state = []; default_policy = p }

-- (should_retry, should_dlq, delay)
abbrev pub Decision : Type 0
Decision = Bool × Bool × Option ℕ

abbrev pub to_dlq : Decision
to_dlq = (false, true, none)

abbrev pub retry_after : ℕ → Decision
retry_after delay = (true, false, some delay)

abbrev put : {F64 : Type 0} → RetryCoordinator F64 → RetryKey → RetryState → RetryCoordinator F64
put c key s = record c { state = Map.insert key s c.state }

module _ (fl : Float64) where
  -- Stores attempt `n` and schedules the next one after the delay of `step`.
  schedule_retry :
      RetryCoordinator fl.F64
      → fl.F64
      → RetryKey
      → ℕ
      → ℕ
      → Option (RetryCoordinator fl.F64 × Decision)
  schedule_retry c draw key n step = do
    delay ← next_delay fl (schedule c.default_policy) draw step
    some (put c key (retrying n), retry_after delay)

  -- The `match` on the entry of the key.
  fail_entry :
      RetryCoordinator fl.F64
      → fl.F64
      → RetryKey
      → Option RetryState
      → Option (RetryCoordinator fl.F64 × Decision)
  unfolding schedule_retry
  fail_entry c draw key none =
      if leb c.default_policy.max_attempts 1
      then some (put c key exhausted, to_dlq)
      else schedule_retry c draw key 1 0
  fail_entry c draw key (some exhausted) = some (c, to_dlq)
  fail_entry c draw key (some (retrying n)) =
      let new_attempt = add_usize n 1 in
      if leb c.default_policy.max_attempts new_attempt
      then some (put c key exhausted, to_dlq)
      else schedule_retry c draw key new_attempt (sub_usize new_attempt 1)

  fail_category :
      RetryCoordinator fl.F64
      → fl.F64
      → RetryKey
      → FailureCategory
      → Option (RetryCoordinator fl.F64 × Decision)
  unfolding fail_entry
  fail_category c draw key FailureCategory.retryable = fail_entry c draw key (Map.get key c.state)
  fail_category c draw key _ = some (c, to_dlq)

  unfoldable pub record_failure :
      RetryCoordinator fl.F64
      → fl.F64
      → RetryKey
      → FailureReason
      → Option (RetryCoordinator fl.F64 × Decision)
  unfolding fail_category
  record_failure c draw key reason = fail_category c draw key (category reason)

unfoldable pub record_success :
    {F64 : Type 0} → RetryCoordinator F64 → RetryKey → RetryCoordinator F64
record_success c key = record c { state = Map.remove key c.state }

unfoldable pub attempt_count : {F64 : Type 0} → RetryCoordinator F64 → RetryKey → ℕ
attempt_count c key = elim (Map.get key c.state) [ none ↦ 0 | some s ↦ attempt s ]
