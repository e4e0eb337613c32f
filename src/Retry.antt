-- ===== src/Retry.antt =====
-- src/retry/policy.rs: the retry policy and its delays. The coordinator is in Retry/Coordinator.
pub mod Coordinator
use kaf_py.Prelude.{ℕ, Option, Float64}

pub record RetryPolicy (F64 : Type 0) : Type 0 where
  pub max_attempts : ℕ
  pub base_delay : ℕ
  pub max_delay : ℕ
  pub jitter_factor : F64

pub record RetrySchedule (F64 : Type 0) : Type 0 where
  pub base_delay : ℕ
  pub max_delay : ℕ
  pub jitter_factor : F64

unfoldable pub schedule : {F64 : Type 0} → RetryPolicy F64 → RetrySchedule F64
schedule p = record {
  base_delay = p.base_delay;
  max_delay = p.max_delay;
  jitter_factor = p.jitter_factor;
}

-- `draw` is the value of `rand::random`.
unfoldable pub next_delay : (fl : Float64) → RetrySchedule fl.F64 → fl.F64 → ℕ → Option ℕ
next_delay fl s draw attempt =
    let base = as_secs_f64 s.base_delay in
    let exp_delay = mul base (powf two (of_usize attempt)) in
    let capped = fmin exp_delay (as_secs_f64 s.max_delay) in
    let jitter_multiplier = add (sub one s.jitter_factor) (mul (mul draw s.jitter_factor) two) in
    from_secs_f64 (mul capped jitter_multiplier)
  where
    open fl use {one, two, add, sub, mul, fmin, powf, of_usize, as_secs_f64, from_secs_f64}
