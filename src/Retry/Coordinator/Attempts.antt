-- ===== src/Retry/Coordinator/Attempts.antt =====
-- How often the retry coordinator retries a message (src/retry/retry_coordinator.rs).
use kaf_py.Prelude.{
  ℕ, zero, suc, ◌-◌, ◌≤◌, ◌<◌, ◌≡◌, refl, subst, inl, inr, Bool, true, false, not, Option, none,
  some, List, [], ◌∷◌, map, arith, ltb, leb, Float64, usize_mod, add_usize, sub_usize, Bool-cases,
  ◌>>=◌,
}
use kaf_py.Prelude.Map
use kaf_py.Failure.{FailureReason, RetryableKind, category}
use kaf_py.Retry.{RetryPolicy, schedule, next_delay}
use kaf_py.Retry.Coordinator.{
  RetryState, retrying, exhausted, RetryKey, key_eq, RetryCoordinator, Decision, to_dlq,
  retry_after, put, fail_entry, record_failure,
}

-- The retries that a message in this state has left.
abbrev pub remaining : ℕ → Option RetryState → ℕ
remaining limit none = limit - 1
remaining limit (some (retrying n)) = limit - 1 - n
remaining limit (some exhausted) = 0

-- A stored attempt is at least 1 and below the limit.
abbrev pub IsBelow : ℕ → Option RetryState → Type 0
IsBelow limit none = Unit
IsBelow limit (some (retrying n)) = (1 ≤ n) × (n < limit)
IsBelow limit (some exhausted) = Unit

abbrev pub IsBounded : {F64 : Type 0} → RetryCoordinator F64 → Type 0
IsBounded c = (k : RetryKey) → IsBelow c.default_policy.max_attempts (Map.get k c.state)

module _ (fl : Float64) where
  -- No delay of the policy panics.
  abbrev pub HasDelays : RetryPolicy fl.F64 → Type 0
  HasDelays p = (draw : fl.F64) (n : ℕ) → (d : ℕ) × (next_delay fl (schedule p) draw n ≡ some d)

  -- One failure of a tracked or new message.
  pub record FailStep (limit : ℕ) (c : RetryCoordinator fl.F64) (key : RetryKey)
      (before : Option RetryState) (r : Option (RetryCoordinator fl.F64 × Decision)) : Type 0 where
    pub after : RetryCoordinator fl.F64
    pub decision : Decision
    pub returns : r ≡ some (after, decision)
    pub retries : decision.0 ≡ ltb 0 (remaining limit before)
    pub diverts : decision.1 ≡ not decision.0
    pub spends : remaining limit (Map.get key after.state) ≡ remaining limit before - 1
    pub same_policy : after.default_policy ≡ c.default_policy
    pub bounded : IsBelow limit (Map.get key after.state)

  module _ (c : RetryCoordinator fl.F64) (draw : fl.F64) (key : RetryKey)
      (delays : HasDelays c.default_policy) (fits : c.default_policy.max_attempts < usize_mod) where
    fail_entry-FailStep :
        (o : Option RetryState)
        → Map.get key c.state ≡ o
        → IsBelow c.default_policy.max_attempts o
        → FailStep c.default_policy.max_attempts c key o (fail_entry fl c draw key o)
    unfolding fail_entry
    fail_entry-FailStep none e b = elim (Bool-cases (leb c.default_policy.max_attempts 1)) [
      | inl last ↦ record {
        after = put c key exhausted;
        decision = to_dlq;
        returns = ground arith;
        retries = ground arith;
        diverts = refl;
        spends = rw (Map.get-insert_self key exhausted c.state) (ground arith);
        same_policy = refl;
        bounded = rw (Map.get-insert_self key exhausted c.state) tt;
      }
      | inr more ↦ record {
        after = put c key (retrying 1);
        decision = retry_after (delays draw 0).0;
        returns = ground (arith, delays draw 0);
        retries = ground arith;
        diverts = refl;
        spends = rw (Map.get-insert_self key (retrying 1) c.state) (ground arith);
        same_policy = refl;
        bounded = rw (Map.get-insert_self key (retrying 1) c.state) (ground arith);
      }
    ]
    fail_entry-FailStep (some exhausted) e b = record {
      after = c;
      decision = to_dlq;
      returns = refl;
      retries = refl;
      diverts = refl;
      spends = rw e refl;
      same_policy = refl;
      bounded = rw e tt;
    }
    fail_entry-FailStep (some (retrying n)) e b =
        elim (Bool-cases (leb c.default_policy.max_attempts (suc n))) [
          | inl last ↦ record {
            after = put c key exhausted;
            decision = to_dlq;
            returns = rw (wrap_add, last);
            retries = ground arith;
            diverts = refl;
            spends = rw (Map.get-insert_self key exhausted c.state) (ground arith);
            same_policy = refl;
            bounded = rw (Map.get-insert_self key exhausted c.state) tt;
          }
          | inr more ↦ record {
            after = put c key (retrying (suc n));
            decision = retry_after (delays draw n).0;
            returns = rw (wrap_add, wrap_sub, more) (ground (arith, delays draw n));
            retries = ground arith;
            diverts = refl;
            spends = rw (Map.get-insert_self key (retrying (suc n)) c.state) (ground arith);
            same_policy = refl;
            bounded = rw (Map.get-insert_self key (retrying (suc n)) c.state) (ground arith);
          }
        ]
      where
        wrap_add : add_usize n 1 ≡ suc n
        wrap_add = omega arith

        wrap_sub : sub_usize (suc n) 1 ≡ n
        wrap_sub = omega arith

    record_failure-FailStep :
        (kind : RetryableKind)
        → IsBelow c.default_policy.max_attempts (Map.get key c.state)
        → FailStep c.default_policy.max_attempts c key
            (Map.get key c.state)
            (record_failure fl c draw key (FailureReason.retryable kind))
    unfolding record_failure category
    record_failure-FailStep kind b = fail_entry-FailStep (Map.get key c.state) refl b

  -- The same message fails once for each entry of the list, with nothing else in between.
  pub fail_all :
      RetryCoordinator fl.F64
      → RetryKey
      → List (fl.F64 × RetryableKind)
      → Option (RetryCoordinator fl.F64 × List Decision)
  fail_all c key [] = some (c, [])
  fail_all c key ((draw, kind) ∷ more) = do
    (c', d) ← record_failure fl c draw key (FailureReason.retryable kind)
    (c'', ds) ← fail_all c' key more
    some (c'', d ∷ ds)

  -- `n` retries first, then the dead-letter queue for all others.
  abbrev pub retries_then_dlq : ℕ → ℕ → List (Bool × Bool)
  retries_then_dlq n zero = []
  retries_then_dlq zero (suc k) = (false, true) ∷ retries_then_dlq zero k
  retries_then_dlq (suc n) (suc k) = (true, false) ∷ retries_then_dlq n k

  abbrev pub routes : List Decision → List (Bool × Bool)
  routes = map (λ d. (d.0, d.1))

  record Run (limit : ℕ) (before : Option RetryState) (n : ℕ)
      (r : Option (RetryCoordinator fl.F64 × List Decision)) : Type 0 where
    pub after : RetryCoordinator fl.F64
    pub decisions : List Decision
    pub returns : r ≡ some (after, decisions)
    pub routed : routes decisions ≡ retries_then_dlq (remaining limit before) n

  pub step_at :
      (p : RetryPolicy fl.F64) (c : RetryCoordinator fl.F64) (draw : fl.F64) (key : RetryKey)
      (kind : RetryableKind)
      → c.default_policy ≡ p
      → HasDelays p
      → p.max_attempts < usize_mod
      → IsBelow p.max_attempts (Map.get key c.state)
      → FailStep p.max_attempts c key
          (Map.get key c.state)
          (record_failure fl c draw key (FailureReason.retryable kind))
  step_at p c draw key kind e =
      subst
        (λ q.
          HasDelays q
          → q.max_attempts < usize_mod
          → IsBelow q.max_attempts (Map.get key c.state)
          → FailStep q.max_attempts c key (Map.get key c.state)
              (record_failure fl c draw key (FailureReason.retryable kind)))
        e (λ delays fits b. record_failure-FailStep c draw key delays fits kind b)
