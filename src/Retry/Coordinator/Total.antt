-- ===== src/Retry/Coordinator/Total.antt =====
-- One call of the retry coordinator, for a failure of any kind (src/retry/retry_coordinator.rs).
use kaf_py.Prelude.{suc, ◌<◌, ◌≡◌, refl, ◌∙◌, true, Option, some, Float64, arith, usize_mod}
use kaf_py.Prelude.Map
use kaf_py.Failure.{FailureReason, category}
use kaf_py.Retry.{RetryPolicy}
use kaf_py.Retry.Coordinator.{
  RetryCoordinator, RetryKey, RetryState, Decision, to_dlq, record_failure, key_eq,
}
use kaf_py.Retry.Coordinator.Attempts.{IsBelow, HasDelays, remaining, step_at}

module _ (fl : Float64) where
  -- A failure of any kind is recorded without a panic, and a retry uses up one attempt.
  pub record Recorded (p : RetryPolicy fl.F64) (key : RetryKey) (before : Option RetryState)
      (r : Option (RetryCoordinator fl.F64 × Decision)) : Type 0 where
    pub after : RetryCoordinator fl.F64
    pub decision : Decision
    pub returns : r ≡ some (after, decision)
    pub same_policy : after.default_policy ≡ p
    pub bounded : IsBelow p.max_attempts (Map.get key after.state)
    pub progress :
        decision.0 ≡ true
        → suc (remaining p.max_attempts (Map.get key after.state)) ≡ remaining p.max_attempts before

  pub record_failure-Recorded :
      (p : RetryPolicy fl.F64) (c : RetryCoordinator fl.F64) (draw : fl.F64) (key : RetryKey)
      (reason : FailureReason)
      → c.default_policy ≡ p
      → HasDelays fl p
      → p.max_attempts < usize_mod
      → IsBelow p.max_attempts (Map.get key c.state)
      → Recorded p key (Map.get key c.state) (record_failure fl c draw key reason)
  unfolding record_failure category
  record_failure-Recorded p c draw key (FailureReason.retryable kind) e delays fits b =
      let f = step_at fl p c draw key kind e delays fits b in
      record {
        after = f.after;
        decision = f.decision;
        returns = f.returns;
        same_policy = f.same_policy ∙ e;
        bounded = f.bounded;
        progress = λ h. ground (arith, h, f.retries, f.spends);
      }
  record_failure-Recorded p c draw key (FailureReason.terminal kind) e delays fits b = record {
    after = c;
    decision = to_dlq;
    returns = refl;
    same_policy = e;
    bounded = b;
    progress = λ h. cc h;
  }
  record_failure-Recorded p c draw key (FailureReason.non_retryable kind) e delays fits b = record {
    after = c;
    decision = to_dlq;
    returns = refl;
    same_policy = e;
    bounded = b;
    progress = λ h. cc h;
  }
