-- ===== src/Dispatcher/Send.antt =====
-- `Dispatcher` of src/dispatcher/mod.rs, with the errors and signals of error.rs and
-- backpressure.rs beside it.
pub mod Counters
use kaf_py.Prelude.{
  ℕ, ◌+◌, ◌≡◌, refl, Bool, true, false, Option, none, some, String, ℤ, string_eq, if◌then◌else◌,
  add_usize, sub_usize,
}
use kaf_py.Prelude.Map
use kaf_py.Message.{OwnedMessage}
use kaf_py.Dispatcher.Metadata.{HandlerMetadata, try_acquire_semaphore}
use kaf_py.Dispatcher.Queues.{Mpsc, SendStatus, sent, full, closed, HandlerEntry, QueueManager}

pub data BackpressureAction : Type 0 where
  drop wait : BackpressureAction
  pause_partition resume_partition : String → ℤ → BackpressureAction

unfoldable pub action_topic : BackpressureAction → Option String
action_topic (pause_partition topic _) = some topic
action_topic (resume_partition topic _) = some topic
action_topic _ = none

pub data DispatchError : Type 0 where
  queue_full : String → ℕ → DispatchError
  backpressure : String → String → DispatchError
  unknown_topic : String → String → DispatchError
  handler_not_registered : String → DispatchError
  queue_closed : String → DispatchError

pub record DispatchOutcome : Type 0 where
  pub topic : String
  pub partition : ℤ
  pub offset : ℤ
  pub queue_depth : ℕ

pub data Sent : Type 0 where
  ok : DispatchOutcome → Sent
  err : DispatchError → Sent

-- The counters after `inflight` was raised and `try_send` reported the status.
counted : HandlerMetadata → SendStatus → HandlerMetadata
counted m sent = record m {
  inflight = add_usize m.inflight 1;
  queue_depth = add_usize m.queue_depth 1;
}
counted m full = record m { inflight = sub_usize (add_usize m.inflight 1) 1 }
counted m closed = record m { inflight = sub_usize (add_usize m.inflight 1) 1 }

delivered : OwnedMessage → HandlerMetadata → Sent
delivered msg m = ok (record {
  topic = msg.topic;
  partition = msg.partition;
  offset = msg.offset;
  queue_depth = m.queue_depth;
})

unfoldable pub no_permit : OwnedMessage → Sent
no_permit msg = err (backpressure msg.topic "semaphore permit unavailable")

pause : OwnedMessage → BackpressureAction
pause msg = pause_partition msg.topic msg.partition

-- The `match` of `send` on the result of `try_send`.
report : OwnedMessage → HandlerMetadata → SendStatus → Sent
unfolding delivered
report msg m sent = delivered msg m
report msg m full = err (backpressure msg.topic "queue full")
report msg m closed = err (queue_closed msg.topic)

-- The `match` of `send_with_policy_and_signal`.
report_signal : OwnedMessage → HandlerMetadata → SendStatus → Sent × Option BackpressureAction
unfolding delivered pause
report_signal msg m sent = (delivered msg m, none)
report_signal msg m full = (err (backpressure msg.topic "queue full"), some (pause msg))
report_signal msg m closed = (err (queue_closed msg.topic), none)

module _ (mpsc : Mpsc) where
  -- `inflight` is raised, and the message is offered to the channel.
  enqueue :
      HandlerEntry mpsc.Sender
      → HandlerMetadata
      → OwnedMessage
      → HandlerEntry mpsc.Sender × SendStatus
  unfolding counted
  enqueue e m msg =
      let (sender, status) = mpsc.try_send e.sender msg in
      (record { sender = sender; metadata = counted m status }, status)

  -- An entry's part of `send`.
  unfoldable pub send_entry :
      HandlerEntry mpsc.Sender → OwnedMessage → HandlerEntry mpsc.Sender × Sent
  unfolding enqueue report no_permit try_acquire_semaphore
  send_entry e msg =
      let (m, permit) = try_acquire_semaphore e.metadata in
      let (e', status) = enqueue e m msg in
      if permit
      then (e', report msg e'.metadata status)
      else (record e { metadata = m }, no_permit msg)

  -- An entry's part of `send_with_policy_and_signal`.
  unfoldable pub send_entry_signal :
      HandlerEntry mpsc.Sender
      → OwnedMessage
      → HandlerEntry mpsc.Sender × Sent × Option BackpressureAction
  unfolding enqueue report_signal no_permit pause try_acquire_semaphore
  send_entry_signal e msg =
      let (m, permit) = try_acquire_semaphore e.metadata in
      let (e', status) = enqueue e m msg in
      let (outcome, signal) = report_signal msg e'.metadata status in
      if permit
      then (e', outcome, signal)
      else (record e { metadata = m }, no_permit msg, some (pause msg))

  unfoldable pub send : QueueManager mpsc.Sender → OwnedMessage → QueueManager mpsc.Sender × Sent
  send q msg = elim (Map.get msg.topic q) [
    | none ↦ (q, err (handler_not_registered msg.topic))
    | some e ↦ let (e', outcome) = send_entry e msg in (Map.insert msg.topic e' q, outcome)
  ]

  unfoldable pub send_with_policy_and_signal :
      QueueManager mpsc.Sender
      → OwnedMessage
      → QueueManager mpsc.Sender × Sent × Option BackpressureAction
  send_with_policy_and_signal q msg = elim (Map.get msg.topic q) [
    | none ↦ (q, err (handler_not_registered msg.topic), none)
    | some e ↦
        let (e', outcome, signal) = send_entry_signal e msg in
        (Map.insert msg.topic e' q, outcome, signal)
  ]
