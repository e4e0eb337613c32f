-- ===== src/WorkerPool/Batch/Sizes.antt =====
-- The sizes of the batches (src/worker_pool/batch_loop.rs).
use kaf_py.Prelude.{
  ℕ, ◌≤◌, ◌<◌, ◌≡◌, inl, inr, refl, ap, sym, ◌∙◌, false, Option, none, some, String, ℤ, List, [],
  ◌∷◌, length, Float64, subst, if◌then◌else◌, leb, arith, Bool-cases, Option-cases, >>=-eq-some,
  int_eq,
}
use kaf_py.Prelude.Map
use kaf_py.Prelude.Map.{Map, Values}
use kaf_py.Message.{OwnedMessage}
use kaf_py.Dlq.{DlqRouter}
use kaf_py.Dlq.Channel.{Texts}
use kaf_py.Execution.{BatchExecutionResult}
use kaf_py.Execution.Buffer
use kaf_py.Execution.Buffer.{PerPartitionBuffer}
use kaf_py.Execution.Batch
use kaf_py.Execution.Batch.{
  BatchAccumulator, flush_all, flush_buffers, flush_partition, would_fill_partition,
  buffer_or_default,
}
use mathlib.Core.Option.{some-injective}
use kaf_py.WorkerPool.Batch.{
  BatchWorker, at_capacity, Event, flush_worker, flush_full, flush_taken, relieve, handle_message,
  batch_step, flush_batches, flush_partition_batch, deadline, message, channel_closed, cancelled,
  is_backpressure, backpressure,
}

-- Every buffer is below the size of a batch, and that size is not zero.
pub record IsWithin (a : BatchAccumulator) : Type 0 where
  pub has_size : 1 ≤ a.max_batch_size
  pub below : Values (λ b. length b.messages < a.max_batch_size) a.partition_accumulators

-- What `flush_full` makes of the accumulator.
settle : BatchAccumulator → ℤ → BatchAccumulator
settle a p =
    let flushed = (flush_partition a p).1 in if would_fill_partition a p then flushed else a

would_fill-IsWithin : (a : BatchAccumulator) (p : ℤ) → IsWithin a → would_fill_partition a p ≡ false
unfolding would_fill_partition Buffer.len
would_fill-IsWithin a p v = elim (Option-cases (Map.get p a.partition_accumulators)) [
  | inl e ↦ ground (arith, e)
  | inr (b, e) ↦ ground (
    arith,
    e,
    Map.get-Values (λ b. length b.messages < a.max_batch_size) p a.partition_accumulators v.below e,
  )
]

settle-IsWithin :
    (a : BatchAccumulator) (p : ℤ) (b : PerPartitionBuffer)
    → IsWithin a
    → IsWithin
        (settle (record a { partition_accumulators = Map.insert p b a.partition_accumulators }) p)
unfolding settle would_fill_partition Buffer.len flush_partition Buffer.is_empty
    Buffer.take_messages
settle-IsWithin a p b v = elim (Bool-cases (leb a.max_batch_size (length b.messages))) [
  | inl full ↦
      let some_in : Buffer.is_empty b ≡ false = ground (arith, full, v.has_size) in
      rw
        (
          settle,
          would_fill_partition,
          flush_partition,
          Map.get-insert_self p b a.partition_accumulators,
          full,
          some_in,
          Map.insert-insert p (Buffer.take_messages b).1 b a.partition_accumulators,
        )
        (record {
          has_size = v.has_size;
          below =
              Map.insert-Values (λ b'. length b'.messages < a.max_batch_size) p
                (Buffer.take_messages b).1 a.partition_accumulators v.below v.has_size;
        })
  | inr room ↦
      rw
        (
          settle,
          would_fill_partition,
          flush_partition,
          Map.get-insert_self p b a.partition_accumulators,
          room,
        )
        (record {
          has_size = v.has_size;
          below =
              Map.insert-Values (λ b'. length b'.messages < a.max_batch_size) p b
                a.partition_accumulators v.below (ground (arith, room));
        })
]

flush_buffers-below :
    (n : ℕ) (m : Map ℤ PerPartitionBuffer)
    → Values (λ b. length b.messages < n) m
    → Values (λ b. length b.messages < n) (flush_buffers m).1
unfolding flush_buffers Buffer.is_empty Buffer.take_messages
flush_buffers-below n [] h = tt
flush_buffers-below n ((p, b) ∷ m) h = elim (Bool-cases (Buffer.is_empty b)) [
  | inl nothing ↦ rw nothing (h.0, flush_buffers-below n m h.1)
  | inr some_in ↦ rw some_in (omega (arith, h.0), flush_buffers-below n m h.1)
]

settled : (a : BatchAccumulator) (p : ℤ) → IsWithin a → IsWithin (settle a p)
unfolding settle
settled a p v = rw (would_fill-IsWithin a p v) v

flush_all-IsWithin : (a : BatchAccumulator) → IsWithin a → IsWithin (flush_all a).1
unfolding flush_all
flush_all-IsWithin a v = record {
  has_size = v.has_size;
  below = flush_buffers-below a.max_batch_size a.partition_accumulators v.below;
}

module _ (fl : Float64) {Sender : Type 0} (texts : Texts) (router : DlqRouter) (now : ℕ)
    (draw : ℤ → fl.F64) (invoke : List OwnedMessage → BatchExecutionResult) where
  flush_taken-accumulator :
      (w : BatchWorker fl.F64 Sender) (o : Option (List OwnedMessage))
      (w' : BatchWorker fl.F64 Sender)
      → flush_taken fl texts router now draw invoke w o ≡ some w'
      → w'.accumulator ≡ w.accumulator
  unfolding flush_taken
  flush_taken-accumulator w none w' e = ground (arith, e)
  flush_taken-accumulator w (some []) w' e = cc
  flush_taken-accumulator w (some (m ∷ ms)) w' e =
      let (s, _, h) =
        >>=-eq-some
          (flush_partition_batch fl texts router now draw invoke w.shared m.partition (m ∷ ms)) _
          e in
      ground (arith, h)

  flush_full-accumulator :
      (w : BatchWorker fl.F64 Sender) (p : ℤ) (w' : BatchWorker fl.F64 Sender)
      → flush_full fl texts router now draw invoke w p ≡ some w'
      → w'.accumulator ≡ settle w.accumulator p
  unfolding flush_full settle
  flush_full-accumulator w p w' e = elim (Bool-cases (would_fill_partition w.accumulator p)) [
    | inl full ↦ rw full (
        flush_taken-accumulator (record w { accumulator = (flush_partition w.accumulator p).1 })
          (flush_partition w.accumulator p).0 w' (sym (rw full refl) ∙ e))
    | inr room ↦ ground (arith, e, room)
  ]

  flush_worker-accumulator :
      (w w' : BatchWorker fl.F64 Sender)
      → flush_worker fl texts router now draw invoke w ≡ some w'
      → w'.accumulator ≡ (flush_all w.accumulator).1
  unfolding flush_worker
  flush_worker-accumulator w w' e =
      let (s, _, h) =
        >>=-eq-some
          (flush_batches fl texts router now draw invoke w.shared (flush_all w.accumulator).0) _
          e in
      ground (arith, h)

  flush_worker-IsWithin :
      (w w' : BatchWorker fl.F64 Sender)
      → IsWithin w.accumulator
      → flush_worker fl texts router now draw invoke w ≡ some w'
      → IsWithin w'.accumulator
  flush_worker-IsWithin w w' v e =
      subst IsWithin (sym (flush_worker-accumulator w w' e)) (flush_all-IsWithin w.accumulator v)

  relieve-IsWithin :
      (w : BatchWorker fl.F64 Sender) (topic : String) (w' : BatchWorker fl.F64 Sender)
      → IsWithin w.accumulator
      → relieve fl texts router now draw invoke w topic ≡ some w'
      → IsWithin w'.accumulator
  unfolding relieve
  relieve-IsWithin w topic w' v e =
      let kept : some w ≡ some w' → IsWithin w'.accumulator =
        λ h. subst IsWithin (ap (λ x. x.accumulator) (some-injective w w' h)) v in
      elim (Bool-cases (is_backpressure w.batch_state)) [
        | inl blocked ↦ kept (sym (rw blocked refl) ∙ e)
        | inr unblocked ↦ elim (Bool-cases (at_capacity fl texts router now draw invoke w topic)) [
          | inl full ↦
              flush_worker-IsWithin (record w { batch_state = backpressure }) w' v
                (sym (rw (unblocked, full) refl) ∙ e)
          | inr room ↦ kept (sym (rw (unblocked, room) refl) ∙ e)
        ]
      ]

  handle_message-IsWithin :
      (w : BatchWorker fl.F64 Sender) (at : ℕ) (msg : OwnedMessage) (w' : BatchWorker fl.F64 Sender)
      → IsWithin w.accumulator
      → handle_message fl texts router now draw invoke w at msg ≡ some w'
      → IsWithin w'.accumulator
  unfolding handle_message Batch.add
  handle_message-IsWithin w at msg w' v e =
      let (w1, h1, e1) = >>=-eq-some (relieve fl texts router now draw invoke w msg.topic) _ e in
      let (w2, h2, e2) =
        >>=-eq-some (flush_full fl texts router now draw invoke w1 msg.partition) _ e1 in
      let v1 = relieve-IsWithin w msg.topic w1 v h1 in
      let v2 : IsWithin w2.accumulator =
        subst IsWithin (sym (flush_full-accumulator w1 msg.partition w2 h2))
          (settled w1.accumulator msg.partition v1) in
      subst IsWithin
        (sym (
          flush_full-accumulator (record w2 { accumulator = Batch.add at w2.accumulator msg })
            msg.partition w' e2))
        (settle-IsWithin w2.accumulator msg.partition
          (Buffer.add at (buffer_or_default w2.accumulator msg.partition) msg
            w2.accumulator.max_batch_wait)
          v2)

  -- A round of the loop that does not panic leaves each partition with fewer messages than a batch,
  -- if that held before. The size of a batch is positive.
  pub batch_step-IsWithin :
      (w : BatchWorker fl.F64 Sender) (event : Event) {w' : BatchWorker fl.F64 Sender}
      → IsWithin w.accumulator
      → batch_step fl texts router now draw invoke w event ≡ some w'
      → IsWithin w'.accumulator
  unfolding batch_step
  batch_step-IsWithin w deadline {w'} v e = elim (Bool-cases (Batch.is_empty w.accumulator)) [
    | inl nothing ↦
        subst IsWithin (ap (λ x. x.accumulator) (some-injective w w' (sym (rw nothing refl) ∙ e))) v
    | inr some_in ↦ flush_worker-IsWithin w w' v (sym (rw some_in refl) ∙ e)
  ]
  batch_step-IsWithin w (message at msg) {w'} v e = handle_message-IsWithin w at msg w' v e
  batch_step-IsWithin w channel_closed {w'} v e =
      flush_worker-IsWithin (record w { running = false }) w' v e
  batch_step-IsWithin w cancelled {w'} v e =
      flush_worker-IsWithin (record w { running = false }) w' v e
