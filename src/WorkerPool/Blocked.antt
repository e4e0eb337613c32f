-- ===== src/WorkerPool/Blocked.antt =====
-- What a failed message means for the offsets of its partition, also when it went to the
-- dead-letter queue (src/worker_pool/worker.rs and mod.rs).
use kaf_py.Prelude.{
  ℕ, ◌≡◌, refl, ap, ◌∙◌, false, Option, some, pos, List, Float64, >>=-eq-some, beq_refl, ◌≤ℤ◌, ◌<ℤ◌,
}
use kaf_py.Prelude.Map
use kaf_py.Failure.{FailureReason, TerminalKind}
use kaf_py.Message.{OwnedMessage}
use kaf_py.Retry.Coordinator.{record_failure}
use kaf_py.Offset.Partition.{PartitionState, record_failed}
use kaf_py.Offset.Partition.Invariant.{IsValid}
use kaf_py.Offset.Partition.History.{Event, InRange, was_acked, run}
use kaf_py.Offset.Partition.AtLeastOnce.{failed_blocks}
use kaf_py.Offset.Tracker.{key_eq, mark_failed}
use kaf_py.Offset.Tracker.Histories.{get-mark_failed}
use kaf_py.Dlq.{DlqRouter}
use kaf_py.Dlq.Channel.{Texts}
use kaf_py.Execution.{ExecutionResult, is_ok}
use kaf_py.WorkerPool.{
  Shared, ExecutionAction, ExecutionContext, retry_key, reason_of, handle_execution_failure,
}
use kaf_py.WorkerPool.Worker.{tracker_key, handle_execution_result, fail}
use kaf_py.WorkerPool.Failure.{decide-queue}

module _ (fl : Float64) {Sender : Type 0} (texts : Texts) (router : DlqRouter) (now : ℕ) where
  handle_execution_failure-offsets :
      (s : Shared fl.F64 Sender) (draw : fl.F64) (ctx : ExecutionContext) (msg : OwnedMessage)
      (result : ExecutionResult) (s' : Shared fl.F64 Sender) (a : ExecutionAction)
      → handle_execution_failure fl texts router now s draw ctx msg result ≡ some (s', a)
      → s'.offset_coordinator ≡ s.offset_coordinator
  unfolding handle_execution_failure
  handle_execution_failure-offsets s draw ctx msg result s' a h =
      let (reason, _, h1) = >>=-eq-some (reason_of result) _ h in
      let ((c, d), _, h2) =
        >>=-eq-some (record_failure fl s.retry_coordinator draw (retry_key ctx) reason) _ h1 in
      let q =
        decide-queue fl texts router now (record s { retry_coordinator = c }) ctx msg result reason
          d in
      cc (h2, q.1)

  -- A failure touches nothing of the offsets but the record of the failed one.
  fail-offsets :
      (s : Shared fl.F64 Sender) (draw : fl.F64) (ctx : ExecutionContext) (msg : OwnedMessage)
      (result : ExecutionResult) (reason : FailureReason) (s' : Shared fl.F64 Sender)
      (a : Option ExecutionAction)
      → fail fl texts router now s draw ctx msg result reason ≡ some (s', a)
      → s'.offset_coordinator ≡ mark_failed s.offset_coordinator (tracker_key ctx) ctx.offset reason
  unfolding fail
  fail-offsets s draw ctx msg result reason s' a h =
      let ((s'', a'), h1, h2) =
        >>=-eq-some
          (handle_execution_failure fl texts router now
            (record s {
              offset_coordinator =
                  mark_failed s.offset_coordinator (tracker_key ctx) ctx.offset reason;
            })
            draw ctx msg result)
          _ h in
      let k =
        handle_execution_failure-offsets
          (record s {
            offset_coordinator =
                mark_failed s.offset_coordinator (tracker_key ctx) ctx.offset reason;
          })
          draw ctx msg result s'' a' h1 in
      cc (h2, k)

  pub failure-offsets :
      (s : Shared fl.F64 Sender) (draw : fl.F64) (ctx : ExecutionContext) (msg : OwnedMessage)
      (result : ExecutionResult) (s' : Shared fl.F64 Sender) (a : Option ExecutionAction)
      → is_ok result ≡ false
      → handle_execution_result fl texts router now s draw ctx msg result ≡ some (s', a)
      → (reason : FailureReason) × (s'.offset_coordinator
          ≡ mark_failed s.offset_coordinator (tracker_key ctx) ctx.offset reason)
  unfolding is_ok handle_execution_result
  failure-offsets s draw ctx msg ExecutionResult.ok s' a n h = cc
  failure-offsets s draw ctx msg (ExecutionResult.error r x t) s' a n h =
      (r, fail-offsets s draw ctx msg (ExecutionResult.error r x t) r s' a h)
  failure-offsets s draw ctx msg (ExecutionResult.rejected r t) s' a n h =
      (r, fail-offsets s draw ctx msg (ExecutionResult.rejected r t) r s' a h)
  failure-offsets s draw ctx msg (ExecutionResult.timeout i) s' a n h =
      let r : FailureReason = FailureReason.terminal TerminalKind.handler_panic in
      (r, fail-offsets s draw ctx msg (ExecutionResult.timeout i) r s' a h)

  -- A message whose handler failed holds its partition back: whatever is acked or fails there
  -- later, the committed offset stays below the message's until that offset itself is acked. That
  -- holds for every action that the worker takes, the dead-letter queue included. The message was
  -- above the committed offset, and an ack of the partition came before. The partition was valid,
  -- the call did not panic, and offsets are below i64::MAX.
  pub failure_blocks :
      (s : Shared fl.F64 Sender) (draw : fl.F64) (ctx : ExecutionContext) (msg : OwnedMessage)
      (result : ExecutionResult) {s' : Shared fl.F64 Sender} {a : Option ExecutionAction} (o : ℕ)
      (st : PartitionState) (es : List Event)
      → is_ok result ≡ false
      → handle_execution_result fl texts router now s draw ctx msg result ≡ some (s', a)
      → ctx.offset ≡ pos o
      → Map.get (tracker_key ctx) s.offset_coordinator.partitions ≡ some st
      → IsValid st
      → pos 0 ≤ℤ st.committed_offset
      → st.committed_offset <ℤ pos o
      → InRange es
      → was_acked (pos o) es ≡ false
      → (st' : PartitionState) × (Map.get (tracker_key ctx) s'.offset_coordinator.partitions
          ≡ some st')
        × ((run st' es).committed_offset <ℤ pos o)
  failure_blocks s draw ctx msg result {s'} {a} o st es n h at found v p below range unacked =
      let (reason, moved) = failure-offsets s draw ctx msg result s' a n h in
      (
        record_failed st (pos o) reason,
        ap (λ t. Map.get (tracker_key ctx) t.partitions) moved
            ∙ (get-mark_failed s.offset_coordinator (tracker_key ctx) (tracker_key ctx) ctx.offset
                  reason
                ∙ rw (beq_refl (tracker_key ctx), found, at) refl),
        failed_blocks st o reason es v p below range unacked,
      )
