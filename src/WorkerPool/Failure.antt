-- ===== src/WorkerPool/Failure.antt =====
-- What a worker does with the result of a handler (src/worker_pool/mod.rs and worker.rs).
use kaf_py.Prelude.{
  ℕ, suc, ◌≤◌, ◌<◌, ◌≡◌, inl, inr, refl, subst, ◌∙◌, ◌⊎◌, ◌||◌, Bool, false, true, false, Option,
  none, some, pos, List, [], ◌∷◌, length, Float64, if◌then◌else◌, arith, usize_mod, Bool-cases,
  beq_refl,
}
use kaf_py.Prelude.Map
use kaf_py.Failure.{FailureReason, TerminalKind}
use kaf_py.Message.{OwnedMessage}
use kaf_py.Retry.{RetryPolicy}
use kaf_py.Retry.Coordinator.{RetryKey, Decision, record_success, key_eq}
use kaf_py.Retry.Coordinator.Attempts.{IsBelow, HasDelays, remaining}
use kaf_py.Retry.Coordinator.Total.{record_failure-Recorded}
use kaf_py.Retry.Coordinator.State.{get-record_success}
use kaf_py.Offset.Tracker
use kaf_py.Offset.Tracker.Histories.{ack-some}
use kaf_py.Dispatcher.Queues
use kaf_py.Dlq.{DlqRouter}
use kaf_py.Dlq.Channel.{Texts}
use kaf_py.Execution.{ExecutionResult}
use kaf_py.WorkerPool.{
  Shared, ExecutionAction, ExecutionContext, retry_key, decide, reason_of, handle_execution_failure,
  ack_queue,
}
use kaf_py.WorkerPool.Worker.{
  context, tracker_key, handle_execution_result, succeed, fail, is_retry, process, HandlerRun,
  Progress, goes_on, stopped, idle,
}

-- A run at which the token is cancelled.
abbrev pub any_cancelled : {F64 : Type 0} → List (HandlerRun F64) → Bool
any_cancelled [] = false
any_cancelled (r ∷ rs) = r.is_cancelled || any_cancelled rs

-- The message was acknowledged once and the worker is idle, or the worker was cancelled, with the message acknowledged
-- or not.
abbrev pub Ends :
    {Sender : Type 0}
    → OwnedMessage
    → Queues.QueueManager Sender
    → Bool
    → Queues.QueueManager Sender
    → Progress
    → Type 0
Ends msg before cancelled after progress =
    ((progress ≡ goes_on idle) × (after ≡ Queues.ack before msg.topic 1))
    ⊎ ((progress ≡ stopped)
        × (cancelled ≡ true)
        × ((after ≡ Queues.ack before msg.topic 1) ⊎ (after ≡ before)))

module _ (fl : Float64) {Sender : Type 0} (texts : Texts) (router : DlqRouter) (now : ℕ) where
  pub decide-queue :
      (s : Shared fl.F64 Sender) (ctx : ExecutionContext) (msg : OwnedMessage)
      (result : ExecutionResult) (reason : FailureReason) (d : Decision)
      → let r = decide fl texts router now s ctx msg result reason d in
        (r.0.queue_manager ≡ (
          if is_retry (some r.1) then s.queue_manager else Queues.ack s.queue_manager msg.topic 1))
        × (r.0.offset_coordinator ≡ s.offset_coordinator)
        × (r.0.retry_coordinator ≡ s.retry_coordinator)
        × ((is_retry (some r.1) ≡ true) → d.0 ≡ true)
  unfolding decide
  decide-queue s ctx msg result reason (true, b, some t) = (refl, refl, refl, λ h. refl)
  decide-queue s ctx msg result reason (true, true, none) = (refl, refl, refl, λ h. refl)
  decide-queue s ctx msg result reason (true, false, none) = (refl, refl, refl, λ h. refl)
  decide-queue s ctx msg result reason (false, true, d) = (refl, refl, refl, λ h. h)
  decide-queue s ctx msg result reason (false, false, d) = (refl, refl, refl, λ h. h)

  -- One run of the handler and what the worker does with its result.
  record Turn (p : RetryPolicy fl.F64) (key : RetryKey) (s : Shared fl.F64 Sender)
      (msg : OwnedMessage) (r : Option (Shared fl.F64 Sender × Option ExecutionAction))
      : Type 0 where
    after : Shared fl.F64 Sender
    action : Option ExecutionAction
    returns : r ≡ some (after, action)
    queue :
        after.queue_manager
        ≡ (if is_retry action then s.queue_manager else Queues.ack s.queue_manager msg.topic 1)
    same_policy : after.retry_coordinator.default_policy ≡ p
    bounded : IsBelow p.max_attempts (Map.get key after.retry_coordinator.state)
    progress :
        is_retry action ≡ true
        → suc (remaining p.max_attempts (Map.get key after.retry_coordinator.state))
          ≡ remaining p.max_attempts (Map.get key s.retry_coordinator.state)

  module _ (p : RetryPolicy fl.F64) (s : Shared fl.F64 Sender) (draw : fl.F64)
      (ctx : ExecutionContext) (msg : OwnedMessage) (e : s.retry_coordinator.default_policy ≡ p)
      (delays : HasDelays fl p) (fits : p.max_attempts < usize_mod)
      (b : IsBelow p.max_attempts (Map.get (retry_key ctx) s.retry_coordinator.state)) where
    fail-Turn :
        (result : ExecutionResult) (reason reason' : FailureReason)
        → reason_of result ≡ some reason
        → Turn p (retry_key ctx) s msg (fail fl texts router now s draw ctx msg result reason')
    unfolding fail handle_execution_failure
    fail-Turn result reason reason' h =
        let f =
          record_failure-Recorded fl p s.retry_coordinator draw (retry_key ctx) reason e delays fits
            b in
        let s' : Shared fl.F64 Sender = record s {
          offset_coordinator =
              Tracker.mark_failed s.offset_coordinator (tracker_key ctx) ctx.offset reason';
          retry_coordinator = f.after;
        } in
        let q = decide-queue s' ctx msg result reason f.decision in
        let r = decide fl texts router now s' ctx msg result reason f.decision in
        record {
          after = r.0;
          action = some r.1;
          returns = rw (h, f.returns) refl;
          queue = q.0;
          same_policy = rw (q.2) f.same_policy;
          bounded = rw (q.2) f.bounded;
          progress = λ t. rw (q.2) (f.progress (q.3 t));
        }

    ok-Turn :
        (o : ℕ)
        → ctx.offset ≡ pos o
        → Turn p (retry_key ctx) s msg (succeed fl texts router now s ctx msg)
    unfolding succeed ack_queue record_success
    ok-Turn o h =
        let (t, q, _) = ack-some s.offset_coordinator (tracker_key ctx) o in
        let cleared : Map.get (retry_key ctx)
              (record_success s.retry_coordinator (retry_key ctx)).state
            ≡ none =
          get-record_success s.retry_coordinator (retry_key ctx) (retry_key ctx)
          ∙ rw (beq_refl (retry_key ctx)) refl in
        record {
          after = record s {
            retry_coordinator = record_success s.retry_coordinator (retry_key ctx);
            queue_manager = Queues.ack s.queue_manager msg.topic 1;
            offset_coordinator = t;
          };
          action = none;
          returns = rw (h, q) refl;
          queue = refl;
          same_policy = e;
          bounded = rw cleared tt;
          progress = λ t. cc t;
        }

    -- Nothing panics on an offset that is not negative.
    result-Turn :
        (o : ℕ) (result : ExecutionResult)
        → ctx.offset ≡ pos o
        → Turn p
            (retry_key ctx)
            s
            msg
            (handle_execution_result fl texts router now s draw ctx msg result)
    unfolding handle_execution_result reason_of
    result-Turn o ExecutionResult.ok h = ok-Turn o h
    result-Turn o (ExecutionResult.error r x t) h = fail-Turn (ExecutionResult.error r x t) r r refl
    result-Turn o (ExecutionResult.rejected r t) h =
        fail-Turn (ExecutionResult.rejected r t) r r refl
    result-Turn o (ExecutionResult.timeout info) h =
        fail-Turn (ExecutionResult.timeout info) (FailureReason.terminal TerminalKind.handler_panic)
          (FailureReason.terminal TerminalKind.handler_panic) refl

  record Settled (msg : OwnedMessage) (queues : Queues.QueueManager Sender) (cancelled : Bool)
      (r : Option (Shared fl.F64 Sender × Progress)) : Type 0 where
    after : Shared fl.F64 Sender
    progress : Progress
    returns : r ≡ some (after, progress)
    ends : Ends msg queues cancelled after.queue_manager progress

  process-Settled :
      (p : RetryPolicy fl.F64) (msg : OwnedMessage) (o : ℕ)
      → HasDelays fl p
      → p.max_attempts < usize_mod
      → msg.offset ≡ pos o
      → (s : Shared fl.F64 Sender) (rs : List (HandlerRun fl.F64))
      → s.retry_coordinator.default_policy ≡ p
      → IsBelow p.max_attempts (Map.get (retry_key (context msg)) s.retry_coordinator.state)
      → remaining p.max_attempts (Map.get (retry_key (context msg)) s.retry_coordinator.state)
        < length rs
      → Settled msg s.queue_manager (any_cancelled rs) (process fl texts router now s msg rs)
  unfolding process context
  process-Settled p msg o delays fits h s [] e b enough = search impossible
    where
      impossible : ⊥
      impossible = omega (arith, enough)
  process-Settled p msg o delays fits h s (r ∷ rs) e b enough =
      let turn = result-Turn p s r.draw (context msg) msg e delays fits b o r.result h in
      elim (Bool-cases r.is_cancelled) [
        | inl cut ↦ record {
          after = turn.after;
          progress = stopped;
          returns = rw (turn.returns, cut) refl;
          ends = inr (
            refl,
            rw cut refl,
            elim (Bool-cases (is_retry turn.action)) [
              | inl again ↦ inr (turn.queue ∙ rw again refl)
              | inr done ↦ inl (turn.queue ∙ rw done refl)
            ],
          );
        }
        | inr on ↦ elim (Bool-cases (is_retry turn.action)) [
          | inl again ↦
              let rest =
                process-Settled p msg o delays fits h turn.after rs turn.same_policy turn.bounded
                  (omega (arith, enough, turn.progress again)) in
              let same : turn.after.queue_manager ≡ s.queue_manager = turn.queue ∙ rw again refl in
              record {
                after = rest.after;
                progress = rest.progress;
                returns = rw (turn.returns, on, again) rest.returns;
                ends = rw on (
                    subst
                      (λ q. Ends msg q (any_cancelled rs) rest.after.queue_manager rest.progress)
                      same rest.ends);
              }
          | inr done ↦ record {
            after = turn.after;
            progress = goes_on idle;
            returns = rw (turn.returns, on, done) refl;
            ends = inl (refl, turn.queue ∙ rw done refl);
          }
        ]
      ]

  -- The worker gets done with a message, whatever the handler does: after at most `max_attempts` runs of the handler
  -- (one at least) it is idle again, and the message was acknowledged to its queue exactly once, however often it was
  -- retried; or the token was cancelled at one of the runs, the worker has returned, and the message was acknowledged
  -- at most once. If the token is never cancelled, it is the former. Each run is an entry of the list, with its result
  -- and whether the token is cancelled by then. The message is not tracked by the retry coordinator before, its offset
  -- is not negative, and no delay of the policy panics. max_attempts is a `usize`.
  pub process-settles :
      (s : Shared fl.F64 Sender) (msg : OwnedMessage) (o : ℕ) (rs : List (HandlerRun fl.F64))
      → HasDelays fl s.retry_coordinator.default_policy
      → s.retry_coordinator.default_policy.max_attempts < usize_mod
      → msg.offset ≡ pos o
      → Map.get (retry_key (context msg)) s.retry_coordinator.state ≡ none
      → 1 ≤ length rs
      → s.retry_coordinator.default_policy.max_attempts ≤ length rs
      → (s' : Shared fl.F64 Sender) × (progress : Progress) × (process fl texts router now s msg rs
          ≡ some (s', progress))
        × Ends msg s.queue_manager (any_cancelled rs) s'.queue_manager progress
  process-settles s msg o rs delays fits h new one enough =
      let r =
        process-Settled s.retry_coordinator.default_policy msg o delays fits h s rs refl (rw new tt)
          (rw new (omega (arith, one, enough))) in
      (r.after, r.progress, r.returns, r.ends)
