-- ===== src/WorkerPool/Batch/Results.antt =====
-- What becomes of the messages of a batch (src/worker_pool/batch_loop.rs).
use kaf_py.Prelude.{
  ℕ, zero, suc, ◌<◌, ◌≡◌, refl, ap, sym, subst, ◌∙◌, true, false, Option, some, String, ℤ, pos,
  List, [], ◌∷◌, map, length, Float64, usize_mod,
}
use kaf_py.Prelude.Map
use kaf_py.Failure.{FailureReason}
use kaf_py.Message.{OwnedMessage}
use kaf_py.Retry.{RetryPolicy}
use kaf_py.Retry.Coordinator.{Decision, record_success, key_eq}
use kaf_py.Retry.Coordinator.Attempts.{IsBelow, IsBounded, HasDelays}
use kaf_py.Retry.Coordinator.Total.{record_failure-Recorded}
use kaf_py.Retry.Coordinator.State.{record_failure-IsBounded}
use kaf_py.Offset.Tracker
use kaf_py.Offset.Tracker.Histories.{ack-some}
use kaf_py.Dispatcher.Queues
use kaf_py.Dispatcher.Queues.{QueueManager}
use kaf_py.Dlq.{DlqRouter}
use kaf_py.Dlq.Channel.{Texts}
use kaf_py.Execution.{BatchExecutionResult, all_success, all_failure}
use kaf_py.WorkerPool.{Shared, ExecutionContext, retry_key, ack_queue, produce}
use kaf_py.WorkerPool.Worker.{tracker_key}
use kaf_py.WorkerPool.Batch.{
  at_offset, ack_offsets, fail_messages, route_failed, handle_batch_result_inline,
}

-- `n` acknowledgements of one message each.
abbrev pub ack_times : {Sender : Type 0} → QueueManager Sender → String → ℕ → QueueManager Sender
ack_times q topic zero = q
ack_times q topic (suc n) = ack_times (Queues.ack q topic 1) topic n

-- A failure of all, or these offsets.
abbrev pub IsReport : List ℕ → BatchExecutionResult → Type 0
IsReport offsets (all_success os) = os ≡ map pos offsets
IsReport offsets (all_failure reason) = Unit

module _ (fl : Float64) {Sender : Type 0} (texts : Texts) (router : DlqRouter) (now : ℕ)
    (draw : ℤ → fl.F64) (topic : String) (partition : ℤ) where
  -- A result was handled, and acknowledged `n` messages to the queue.
  record Acked (s : Shared fl.F64 Sender) (n : ℕ) (r : Option (Shared fl.F64 Sender)) : Type 0 where
    after : Shared fl.F64 Sender
    returns : r ≡ some after
    queue : after.queue_manager ≡ ack_times s.queue_manager topic n

  ack_offsets-Acked :
      (s : Shared fl.F64 Sender) (offsets : List ℕ)
      → Acked s
          (length offsets)
          (ack_offsets fl texts router now draw s topic partition (map pos offsets))
  unfolding ack_offsets ack_queue
  ack_offsets-Acked s [] = record { after = s; returns = refl; queue = refl }
  ack_offsets-Acked s (o ∷ os) =
      let ctx : ExecutionContext = at_offset topic partition (pos o) in
      let (t, q, _) = ack-some s.offset_coordinator (tracker_key ctx) o in
      let rest =
        ack_offsets-Acked
          (record s {
            retry_coordinator = record_success s.retry_coordinator (retry_key ctx);
            queue_manager = Queues.ack s.queue_manager topic 1;
            offset_coordinator = t;
          })
          os in
      record { after = rest.after; returns = rw q rest.returns; queue = rest.queue }

  route_failed-keeps :
      (s : Shared fl.F64 Sender) (ctx : ExecutionContext) (msg : OwnedMessage)
      (reason : FailureReason) (d : Decision)
      → let s' = route_failed fl texts router now draw s ctx msg reason d in
        (s'.queue_manager ≡ s.queue_manager) × (s'.retry_coordinator ≡ s.retry_coordinator)
  unfolding route_failed produce
  route_failed-keeps s ctx msg reason (true, true, t) = (refl, refl)
  route_failed-keeps s ctx msg reason (false, true, t) = (refl, refl)
  route_failed-keeps s ctx msg reason (true, false, t) = (refl, refl)
  route_failed-keeps s ctx msg reason (false, false, t) = (refl, refl)

  fail_messages-Acked :
      (p : RetryPolicy fl.F64) (reason : FailureReason)
      → HasDelays fl p
      → p.max_attempts < usize_mod
      → (s : Shared fl.F64 Sender) (batch : List OwnedMessage)
      → s.retry_coordinator.default_policy ≡ p
      → IsBounded s.retry_coordinator
      → Acked s
          (length batch)
          (fail_messages fl texts router now draw s topic partition reason batch)
  unfolding fail_messages ack_queue
  fail_messages-Acked p reason delays fits s [] e b = record {
    after = s;
    returns = refl;
    queue = refl;
  }
  fail_messages-Acked p reason delays fits s (msg ∷ batch) e b =
      let ctx : ExecutionContext = at_offset topic partition msg.offset in
      let c = s.retry_coordinator in
      let r =
        record_failure-Recorded fl p c (draw msg.offset) (retry_key ctx) reason e delays fits (
          subst (λ q. IsBelow q.max_attempts (Map.get (retry_key ctx) c.state)) e
            (b (retry_key ctx))) in
      let bounded : IsBounded r.after =
        record_failure-IsBounded fl c (draw msg.offset) (retry_key ctx) reason (rw e fits) b
          r.returns in
      let s' : Shared fl.F64 Sender = record s {
        retry_coordinator = r.after;
        offset_coordinator =
            Tracker.mark_failed s.offset_coordinator (tracker_key ctx) msg.offset reason;
      } in
      let s'' = route_failed fl texts router now draw s' ctx msg reason r.decision in
      let k = route_failed-keeps s' ctx msg reason r.decision in
      let rest =
        fail_messages-Acked p reason delays fits (ack_queue fl texts router now s'' topic) batch
          (ap (λ x. x.default_policy) k.1 ∙ r.same_policy) (subst IsBounded (sym k.1) bounded) in
      record {
        after = rest.after;
        returns = rw r.returns rest.returns;
        queue = rest.queue ∙ ap (λ q. ack_times (Queues.ack q topic 1) topic (length batch)) k.0;
      }

  -- Every message of a batch is acknowledged to the queue exactly once, whether the handler
  -- succeeded or failed, and no result panics. A success reports as many offsets as there are
  -- messages, none of them negative; no delay of the policy panics, and the stored attempts are
  -- within its limit. max_attempts is a `usize`.
  pub handle_batch_result_inline_lem :
      (s : Shared fl.F64 Sender) (batch : List OwnedMessage) (offsets : List ℕ)
      (result : BatchExecutionResult)
      → length offsets ≡ length batch
      → IsReport offsets result
      → HasDelays fl s.retry_coordinator.default_policy
      → s.retry_coordinator.default_policy.max_attempts < usize_mod
      → IsBounded s.retry_coordinator
      → (s' : Shared fl.F64 Sender) × (handle_batch_result_inline fl texts router now draw s result
            batch topic partition
          ≡ some s')
        × (s'.queue_manager ≡ ack_times s.queue_manager topic (length batch))
  unfolding handle_batch_result_inline
  handle_batch_result_inline_lem s batch offsets (all_success os) size h delays fits b =
      let r = ack_offsets-Acked s offsets in
      (r.after, rw h r.returns, r.queue ∙ ap (ack_times s.queue_manager topic) size)
  handle_batch_result_inline_lem s batch offsets (all_failure reason) size h delays fits b =
      let r =
        fail_messages-Acked s.retry_coordinator.default_policy reason delays fits s batch refl b in
      (r.after, r.returns, r.queue)
