-- ===== src/Retry/Coordinator/State.antt =====
-- What one call of the retry coordinator does to its state (src/retry/retry_coordinator.rs).
use kaf_py.Prelude.{
  ℕ, ◌≤◌, ◌<◌, ◌≡◌, ◌≢◌, refl, ap, true, false, Option, none, some, arith, Float64, usize_mod, ◌==◌,
  ◌⊎◌, inl, inr, leb, Bool-cases, >>=-eq-some, add_usize, sub_usize, if◌then◌else◌,
}
use kaf_py.Prelude.Map
use kaf_py.Failure.{FailureReason, FailureCategory, RetryableKind, category}
use kaf_py.Retry.{next_delay, schedule}
use kaf_py.Retry.Coordinator.{
  RetryState, retrying, exhausted, attempt, RetryKey, key_eq, RetryCoordinator, Decision, put,
  to_dlq, retry_after, schedule_retry, fail_entry, record_failure, record_success, attempt_count,
}
use kaf_py.Retry.Coordinator.Attempts.{IsBelow, IsBounded}

-- The ways in which a failure can end: nothing is stored (of a permanent failure, or since the
-- message was exhausted before), the message is exhausted, or it is retried.
data Outcome {F64 : Type 0} (c : RetryCoordinator F64) (key : RetryKey) (reason : FailureReason)
    (c' : RetryCoordinator F64) (d : Decision) : Type 0 where
  kept :
      category reason ≢ FailureCategory.retryable → c' ≡ c → d ≡ to_dlq → Outcome c key reason c' d
  spent : Map.get key c.state ≡ some exhausted → c' ≡ c → d ≡ to_dlq → Outcome c key reason c' d
  exhausts : c' ≡ put c key exhausted → d ≡ to_dlq → Outcome c key reason c' d
  retries :
      (n delay : ℕ)
      → c' ≡ put c key (retrying n)
      → d ≡ retry_after delay
      → 1 ≤ n
      → n < c.default_policy.max_attempts
      → Outcome c key reason c' d

module _ (fl : Float64) (c : RetryCoordinator fl.F64) (draw : fl.F64) (key : RetryKey)
    (reason : FailureReason) (fits : c.default_policy.max_attempts < usize_mod)
    {c' : RetryCoordinator fl.F64} {d : Decision} where
  schedule_retry-Outcome :
      (n step : ℕ)
      → 1 ≤ n
      → n < c.default_policy.max_attempts
      → schedule_retry fl c draw key n step ≡ some (c', d)
      → Outcome c key reason c' d
  unfolding schedule_retry
  schedule_retry-Outcome n step a b e =
      let (delay, _, h) =
        >>=-eq-some (next_delay fl (schedule c.default_policy) draw step)
          (λ delay. some (put c key (retrying n), retry_after delay)) e in
      retries n delay (cc) (cc) a b

  fail_entry-Outcome :
      (o : Option RetryState)
      → Map.get key c.state ≡ o
      → IsBelow c.default_policy.max_attempts o
      → fail_entry fl c draw key o ≡ some (c', d)
      → Outcome c key reason c' d
  unfolding fail_entry
  fail_entry-Outcome none g b e = elim (Bool-cases (leb c.default_policy.max_attempts 1)) [
    | inl last ↦ let e' = rw last at e in exhausts (cc) (cc)
    | inr more ↦ schedule_retry-Outcome 1 0 (omega arith) (ground arith) (rw more at e)
  ]
  fail_entry-Outcome (some exhausted) g b e = spent g (cc) (cc)
  fail_entry-Outcome (some (retrying n)) g b e =
      elim (Bool-cases (leb c.default_policy.max_attempts (add_usize n 1))) [
        | inl last ↦ let e' = rw last at e in exhausts (cc) (cc)
        | inr more ↦
            schedule_retry-Outcome (add_usize n 1) (sub_usize (add_usize n 1) 1) (omega arith)
              (ground arith) (rw more at e)
      ]

record_failure-Outcome :
    (fl : Float64) (c : RetryCoordinator fl.F64) (draw : fl.F64) (key : RetryKey)
    (reason : FailureReason)
    → c.default_policy.max_attempts < usize_mod
    → {c' : RetryCoordinator fl.F64} {d : Decision}
    → IsBelow c.default_policy.max_attempts (Map.get key c.state)
    → record_failure fl c draw key reason ≡ some (c', d)
    → Outcome c key reason c' d
unfolding record_failure category
record_failure-Outcome fl c draw key (FailureReason.retryable kind) fits b e =
    fail_entry-Outcome fl c draw key (FailureReason.retryable kind) fits (Map.get key c.state) refl
      b e
record_failure-Outcome fl c draw key (FailureReason.terminal kind) fits b e =
    kept (λ h. cc) (cc) (cc)
record_failure-Outcome fl c draw key (FailureReason.non_retryable kind) fits b e =
    kept (λ h. cc) (cc) (cc)

attempt_count-put :
    {F64 : Type 0} (c : RetryCoordinator F64) (key : RetryKey) (s : RetryState)
    → attempt_count (put c key s) key ≡ attempt s
unfolding attempt_count
attempt_count-put c key s = rw (Map.get-insert_self key s c.state, attempt_count)

put-IsBounded :
    {F64 : Type 0} (c : RetryCoordinator F64) (key : RetryKey) (s : RetryState)
    → IsBounded c
    → IsBelow c.default_policy.max_attempts (some s)
    → IsBounded (put c key s)
put-IsBounded c key s b h j =
    rw (Map.get-insert j key s c.state)
      (elim (Bool-cases (key == j)) [ inl p ↦ rw p h | inr p ↦ rw p (b j) ])

-- Every stored attempt stays at least 1 and below max_attempts, whichever message fails and why.
-- They were so before, the call does not panic, and max_attempts is a `usize`.
pub record_failure-IsBounded :
    (fl : Float64) (c : RetryCoordinator fl.F64) (draw : fl.F64) (key : RetryKey)
    (reason : FailureReason) {c' : RetryCoordinator fl.F64} {d : Decision}
    → c.default_policy.max_attempts < usize_mod
    → IsBounded c
    → record_failure fl c draw key reason ≡ some (c', d)
    → IsBounded c'
record_failure-IsBounded fl c draw key reason {c'} fits b e =
    go (record_failure-Outcome fl c draw key reason fits (b key) e)
  where
    go : {d : Decision} → Outcome c key reason c' d → IsBounded c'
    go (kept _ p _) = rw p b
    go (spent _ p _) = rw p b
    go (exhausts p _) = rw p (put-IsBounded c key exhausted b tt)
    go (retries n _ p _ x y) = rw p (put-IsBounded c key (retrying n) b (x, y))

-- A failure touches no other message. The stored attempts are below max_attempts, the call does not
-- panic, and max_attempts is a `usize`.
record_failure-get_ne :
    (fl : Float64) (c : RetryCoordinator fl.F64) (draw : fl.F64) (key j : RetryKey)
    (reason : FailureReason) {c' : RetryCoordinator fl.F64} {d : Decision}
    → c.default_policy.max_attempts < usize_mod
    → IsBounded c
    → (key == j) ≡ false
    → record_failure fl c draw key reason ≡ some (c', d)
    → Map.get j c'.state ≡ Map.get j c.state
record_failure-get_ne fl c draw key j reason {c'} fits b ne e =
    go (record_failure-Outcome fl c draw key reason fits (b key) e)
  where
    go : {d : Decision} → Outcome c key reason c' d → Map.get j c'.state ≡ Map.get j c.state
    go (kept _ p _) = rw p
    go (spent _ p _) = rw p
    go (exhausts p _) = rw p (Map.get-insert_ne j key exhausted c.state ne)
    go (retries n _ p _ _ _) = rw p (Map.get-insert_ne j key (retrying n) c.state ne)

-- Exactly one of should_retry and should_dlq holds, and a delay is given exactly with a retry. A
-- stored attempt is at least 1 and below max_attempts afterwards, if all were so before, the call
-- does not panic, and max_attempts is a `usize`.
record_failure_exclusive :
    (fl : Float64) (c : RetryCoordinator fl.F64) (draw : fl.F64) (key : RetryKey)
    (reason : FailureReason) {c' : RetryCoordinator fl.F64} {d : Decision}
    → c.default_policy.max_attempts < usize_mod
    → IsBounded c
    → record_failure fl c draw key reason ≡ some (c', d)
    → (d ≡ to_dlq)
      ⊎ ((delay : ℕ) × (d ≡ retry_after delay)
          × (1 ≤ attempt_count c' key)
          × (attempt_count c' key < c.default_policy.max_attempts))
unfolding attempt
record_failure_exclusive fl c draw key reason {c'} fits b e =
    go (record_failure-Outcome fl c draw key reason fits (b key) e)
  where
    go :
        {d : Decision}
        → Outcome c key reason c' d
        → (d ≡ to_dlq)
          ⊎ ((delay : ℕ) × (d ≡ retry_after delay)
              × (1 ≤ attempt_count c' key)
              × (attempt_count c' key < c.default_policy.max_attempts))
    go (kept _ _ p) = inl p
    go (spent _ _ p) = inl p
    go (exhausts _ p) = inl p
    go (retries n delay p q x y) =
        let stored = attempt_count-put c key (retrying n) in
        inr (delay, q, rw (p, stored) x, rw (p, stored) y)

-- When a retryable failure sends a message to the dead-letter queue, the attempt count that is read
-- for its envelope is 0, however often the handler ran. The stored attempts are below max_attempts,
-- the call does not panic, and max_attempts is a `usize`.
pub attempt_count_lost :
    (fl : Float64) (c : RetryCoordinator fl.F64) (draw : fl.F64) (key : RetryKey)
    (kind : RetryableKind) {c' : RetryCoordinator fl.F64} {d : Decision}
    → c.default_policy.max_attempts < usize_mod
    → IsBounded c
    → record_failure fl c draw key (FailureReason.retryable kind) ≡ some (c', d)
    → d.1 ≡ true
    → attempt_count c' key ≡ 0
unfolding category attempt_count attempt
attempt_count_lost fl c draw key kind {c'} fits b e =
    go (record_failure-Outcome fl c draw key (FailureReason.retryable kind) fits (b key) e)
  where
    go :
        {d : Decision}
        → Outcome c key (FailureReason.retryable kind) c' d
        → d.1 ≡ true
        → attempt_count c' key ≡ 0
    go (kept ne _ _) h = absurd (ne refl)
    go (spent g p _) h = rw p (rw (g, attempt_count))
    go (exhausts p _) h = rw p (attempt_count-put c key exhausted)
    go (retries n delay p q x y) h = cc (ap (λ (r : Decision). r.1) q)

-- A success forgets the message and touches no other.
pub get-record_success :
    {F64 : Type 0} (c : RetryCoordinator F64) (key j : RetryKey)
    → Map.get j (record_success c key).state ≡ (if key == j then none else Map.get j c.state)
unfolding record_success
get-record_success c key j = Map.get-remove j key c.state
