-- ===== src/WorkerPool/Pool/Shutdown/Repeats.antt =====
-- A message that a worker sent to the dead-letter queue, and the flush of src/worker_pool/pool.rs's `shutdown`.
use mathlib.Core.List.{Mem, append_assoc}
use kaf_py.Prelude.{
  ℕ, zero, suc, ◌+◌, ◌-◌, ◌≤◌, ◌≡◌, refl, sym, ap, ◌∙◌, subst, true, false, none, some, String,
  List, [], ◌∷◌, ◌++◌, arith, Float64, take, length, length-append, >>=-eq-some, beq_refl,
}
use kaf_py.Prelude.Map
use kaf_py.Prelude.OrdSet
use kaf_py.Failure.{FailureReason}
use kaf_py.Message.{OwnedMessage}
use kaf_py.Retry.Coordinator.{Decision, record_failure, attempt_count}
use kaf_py.Shutdown.{ShutdownCoordinator}
use kaf_py.Offset.Partition
use kaf_py.Offset.Partition.{PartitionState, record_failed}
use kaf_py.Offset.Tracker.{key_eq, RunnerCall, ack, mark_failed, all_partitions}
use kaf_py.Offset.Tracker.Histories.{get-mark_failed}
use kaf_py.Offset.Tracker.Flush.{messages_of_keys, failed_message, reason_text}
use kaf_py.Offset.Tracker.Flush.Members.{failed_message-Mem}
use kaf_py.WorkerPool.Blocked.{failure-offsets}
use kaf_py.Dlq.{DlqRouter, DlqMetadata}
use kaf_py.Dlq.Channel.{
  Texts, DlqMessage, dlq_message, try_send-fits, produce_async, dlq_channel_capacity,
}
use kaf_py.Execution.{ExecutionResult, is_ok}
use kaf_py.WorkerPool.{
  Shared, ExecutionAction, ExecutionContext, retry_key, reason_of, decide, produce, ack_queue,
  handle_execution_failure, failure_metadata, payload_or_default, timeout_duration,
  last_processed_offset,
}
use kaf_py.WorkerPool.Worker.{tracker_key, handle_execution_result, fail, succeed}
use kaf_py.WorkerPool.Pool.Shutdown.{JoinSet, PoolState, shutdown, shutdown_lem, end_workers}

take_all : (n : ℕ) (ms : List DlqMessage) → length ms ≤ n → take n ms ≡ ms
take_all zero [] h = refl
take_all (suc n) [] h = refl
take_all zero (m ∷ ms) h = absurd (omega (arith, h))
take_all (suc n) (m ∷ ms) h = ap (λ rest. m ∷ rest) (take_all n ms (omega (arith, h)))

append-take :
    (q : List DlqMessage) (m : DlqMessage) (ms : List DlqMessage)
    → suc (length q) + length ms ≤ dlq_channel_capacity
    → (q ++ m ∷ []) ++ take (dlq_channel_capacity - length (q ++ m ∷ [])) ms ≡ q ++ m ∷ ms
append-take q m ms room =
    let count : length (q ++ m ∷ []) ≡ suc (length q) = omega (arith, length-append q (m ∷ [])) in
    let all : take (dlq_channel_capacity - suc (length q)) ms ≡ ms =
      take_all (dlq_channel_capacity - suc (length q)) ms (omega (arith, room)) in
    rw (count, all) (append_assoc q (m ∷ []) ms)

module _ (fl : Float64) {Sender : Type 0} (texts : Texts) (router : DlqRouter) (now : ℕ) where
  -- The envelope that the worker makes goes to the channel.
  abbrev pub Produced :
      ExecutionContext → OwnedMessage → Shared fl.F64 Sender → Shared fl.F64 Sender → Type 0
  Produced ctx msg s s' =
      (metadata : DlqMetadata) × (metadata.original
        ≡ record { topic = ctx.topic; partition = ctx.partition; offset = ctx.offset })
      × (s'.dlq_producer
          ≡ produce_async texts s.dlq_producer (router metadata) (payload_or_default msg.payload)
              msg.key metadata)

  decide-Produced :
      (s : Shared fl.F64 Sender) (ctx : ExecutionContext) (msg : OwnedMessage)
      (result : ExecutionResult) (reason : FailureReason) (d : Decision) {s' : Shared fl.F64 Sender}
      → decide fl texts router now s ctx msg result reason d ≡ (s', ExecutionAction.dlq)
      → Produced ctx msg s s'
  unfolding decide produce failure_metadata
  decide-Produced s ctx msg result reason d {s'} e = go d e
    where
      envelope : DlqMetadata
      envelope =
          failure_metadata now ctx reason (attempt_count s.retry_coordinator (retry_key ctx))
            (timeout_duration result) (last_processed_offset result)

      go :
          (d : Decision)
          → decide fl texts router now s ctx msg result reason d ≡ (s', ExecutionAction.dlq)
          → Produced ctx msg s s'
      go (true, b, some t) e = cc
      go (true, true, none) e = (envelope, refl, ap (λ r. r.0.dlq_producer) (sym e))
      go (true, false, none) e = cc
      go (false, true, d) e = (envelope, refl, ap (λ r. r.0.dlq_producer) (sym e))
      go (false, false, d) e = cc

  fail-Produced :
      (s : Shared fl.F64 Sender) (draw : fl.F64) (ctx : ExecutionContext) (msg : OwnedMessage)
      (result : ExecutionResult) (reason : FailureReason) {s' : Shared fl.F64 Sender}
      → fail fl texts router now s draw ctx msg result reason ≡ some (s', some ExecutionAction.dlq)
      → Produced ctx msg s s'
  unfolding fail handle_execution_failure
  fail-Produced s draw ctx msg result reason {s'} h =
      let failed : Shared fl.F64 Sender = record s {
        offset_coordinator = mark_failed s.offset_coordinator (tracker_key ctx) ctx.offset reason;
      } in
      let ((s1, a), h1, e1) =
        >>=-eq-some (handle_execution_failure fl texts router now failed draw ctx msg result) _ h in
      let (why, _, h2) = >>=-eq-some (reason_of result) _ h1 in
      let ((c, d), _, e2) =
        >>=-eq-some (record_failure fl s.retry_coordinator draw (retry_key ctx) why) _ h2 in
      decide-Produced (record failed { retry_coordinator = c }) ctx msg result why d {s' = s'}
        (cc (e1, e2))

  -- A message that is sent to the dead-letter queue was not a success.
  diverted-not_ok :
      (s : Shared fl.F64 Sender) (draw : fl.F64) (ctx : ExecutionContext) (msg : OwnedMessage)
      (result : ExecutionResult) {s' : Shared fl.F64 Sender}
      → handle_execution_result fl texts router now s draw ctx msg result
        ≡ some (s', some ExecutionAction.dlq)
      → (is_ok result ≡ false) × Produced ctx msg s s'
  unfolding handle_execution_result is_ok succeed ack_queue
  diverted-not_ok s draw ctx msg ExecutionResult.ok h =
      let (t, _, e) = >>=-eq-some (ack s.offset_coordinator (tracker_key ctx) ctx.offset) _ h in cc
  diverted-not_ok s draw ctx msg (ExecutionResult.error r x t) h =
      (refl, fail-Produced s draw ctx msg (ExecutionResult.error r x t) r h)
  diverted-not_ok s draw ctx msg (ExecutionResult.rejected r t) h =
      (refl, fail-Produced s draw ctx msg (ExecutionResult.rejected r t) r h)
  diverted-not_ok s draw ctx msg (ExecutionResult.timeout i) h =
      (refl, fail-Produced s draw ctx msg (ExecutionResult.timeout i) _ h)

  -- A message that a worker diverted to the dead-letter queue is sent there again when the pool
  -- is shut down: after the message itself the channel gets one for each failed offset of the tracker,
  -- and one of these is for the offset of this message, without its payload and its key. The partition had an
  -- ack before, the channel has room for all of them, and the workers do nothing more.
  pub shutdown-diverted :
      (j : JoinSet (Shared fl.F64 Sender)) (s : Shared fl.F64 Sender) (draw : fl.F64)
      (ctx : ExecutionContext) (msg : OwnedMessage) (result : ExecutionResult)
      {s' : Shared fl.F64 Sender} (st : PartitionState) (c : ShutdownCoordinator)
      → handle_execution_result fl texts router now s draw ctx msg result
        ≡ some (s', some ExecutionAction.dlq)
      → Map.get (tracker_key ctx) s.offset_coordinator.partitions ≡ some st
      → suc (length s.dlq_producer)
          + length (
              messages_of_keys texts router now s'.offset_coordinator
                (all_partitions s'.offset_coordinator))
        ≤ dlq_channel_capacity
      → end_workers j c.drain_timeout s' ≡ s'
      → (p' : PoolState fl.F64 Sender) × (calls : List RunnerCall) × (metadata : DlqMetadata)
        × (reason : String) × (shutdown fl texts router now j
              (record { shared = s'; coordinator = c; is_cancelled = false })
            ≡ some (p', calls))
        × (metadata.original
            ≡ record { topic = ctx.topic; partition = ctx.partition; offset = ctx.offset })
        × (p'.shared.dlq_producer
            ≡ s.dlq_producer
              ++ dlq_message texts
                  (router metadata)
                  (payload_or_default msg.payload)
                  msg.key
                  metadata
                ∷ messages_of_keys texts router now s'.offset_coordinator
                    (all_partitions s'.offset_coordinator))
        × Mem (failed_message texts router now (tracker_key ctx) reason ctx.offset) (
            messages_of_keys texts router now s'.offset_coordinator
              (all_partitions s'.offset_coordinator))
  unfolding produce_async record_failed Partition.mark_failed
  shutdown-diverted j s draw ctx msg result {s'} st c h found room idle =
      let (not_ok, (metadata, original, queue)) = diverted-not_ok s draw ctx msg result h in
      let (reason, moved) =
        failure-offsets fl texts router now s draw ctx msg result s' _ not_ok h in
      let after = record_failed st ctx.offset reason in
      let key = tracker_key ctx in
      let found' : Map.get key s'.offset_coordinator.partitions ≡ some after =
        ap (λ t. Map.get key t.partitions) moved
        ∙ (get-mark_failed s.offset_coordinator key key ctx.offset reason
            ∙ rw (beq_refl key, found) refl) in
      let sent =
        dlq_message texts (router metadata) (payload_or_default msg.payload) msg.key metadata in
      let produced : s'.dlq_producer ≡ s.dlq_producer ++ sent ∷ [] =
        queue ∙ try_send-fits s.dlq_producer sent (omega (arith, room)) in
      let fits : length s'.dlq_producer ≤ dlq_channel_capacity =
        rw produced (omega (arith, room, length-append s.dlq_producer (sent ∷ []))) in
      let (p', calls, returns, _, left, _, _, _) =
        shutdown_lem fl texts router now j
          (record { shared = s'; coordinator = c; is_cancelled = false })
          (subst (λ z. length z.dlq_producer ≤ dlq_channel_capacity) (sym idle) fits) in
      (
        p',
        calls,
        metadata,
        reason_text after.last_failure_reason,
        returns,
        original,
        left ∙ (ap (flushed_of) idle ∙ rw produced (append-take s.dlq_producer sent _ room)),
        failed_message-Mem texts router now s'.offset_coordinator key after ctx.offset found'
            (OrdSet.contains-insert ctx.offset ctx.offset st.failed_offsets ∙ ground arith),
      )
    where
      flushed_of : Shared fl.F64 Sender → List DlqMessage
      flushed_of z =
          z.dlq_producer
          ++ take (dlq_channel_capacity - length z.dlq_producer) (
              messages_of_keys texts router now z.offset_coordinator
                (all_partitions z.offset_coordinator))
