-- ===== src/Dispatcher/Consumer/Small.antt =====
-- What src/dispatcher/consumer_dispatcher.rs does with a refused message, and with a topic whose queue
-- is small.
use kaf_py.Prelude.{
  ℕ, ◌+◌, ◌≤◌, ◌<◌, ◌≡◌, sym, ◌∙◌, ap, Option, some, String, if◌then◌else◌, string_eq, arith,
  usize_mod,
}
use kaf_py.Prelude.Map
use kaf_py.Message.{OwnedMessage}
use kaf_py.Dispatcher.Queues.{Mpsc, HandlerEntry, QueueManager, get_capacity}
use kaf_py.Dispatcher.Metadata.{try_acquire_semaphore}
use kaf_py.Dispatcher.Send.{
  BackpressureAction, DispatchError, Sent, ok, err, send_entry_signal, send_with_policy_and_signal,
}
use kaf_py.Dispatcher.Send.Counters.{signal_for, send_with_policy_and_signal_lem}
use kaf_py.Dispatcher.Consumer.{
  Client, Dispatching, message, threshold, pause_partition, refresh_partitions, pause_topic,
  on_outcome, on_item,
}
use kaf_py.Dispatcher.Consumer.Pausing.{IsPaused, check_resume-deep, on_error-IsPaused}

-- The message was sent with a depth that counts it.
Counted : Sent → Type 0
Counted (ok o) = 1 ≤ o.queue_depth
Counted (err e) = Unit

module _ (mpsc : Mpsc) where
  send_entry_signal-Counted :
      (e : HandlerEntry mpsc.Sender) (msg : OwnedMessage)
      → e.metadata.queue_depth + 1 < usize_mod
      → Counted (send_entry_signal mpsc e msg).1
        × ((send_entry_signal mpsc e msg).0.metadata.capacity ≡ e.metadata.capacity)
  unfolding Counted send_entry_signal try_acquire_semaphore
  send_entry_signal-Counted e msg room = ground arith

  send_signal-Counted :
      (q : QueueManager mpsc.Sender) (msg : OwnedMessage) (e : HandlerEntry mpsc.Sender)
      → Map.get msg.topic q ≡ some e
      → e.metadata.queue_depth + 1 < usize_mod
      → Counted (send_with_policy_and_signal mpsc q msg).1
        × (get_capacity (send_with_policy_and_signal mpsc q msg).0 msg.topic
            ≡ some e.metadata.capacity)
  unfolding send_with_policy_and_signal get_capacity
  send_signal-Counted q msg e found room =
      let r = send_entry_signal-Counted e msg room in
      let e' = (send_entry_signal mpsc e msg).0 in
      rw (send_with_policy_and_signal, found)
        (r.0, rw (get_capacity, Map.get-insert_self msg.topic e' q) (ap some r.1))

module _ (client : Client) (mpsc : Mpsc) where
  on_outcome-small :
      (s : Dispatching client mpsc) (topic : String) (capacity : ℕ) (outcome : Sent)
      (signal : Option BackpressureAction)
      → get_capacity s.dispatcher topic ≡ some capacity
      → capacity ≤ 3
      → Counted outcome
      → IsPaused client mpsc s topic
      → IsPaused client mpsc (on_outcome client mpsc s topic outcome signal) topic
  unfolding on_outcome Counted threshold
  on_outcome-small s topic capacity (ok o) signal found small counted h =
      rw
        (check_resume-deep client mpsc s topic capacity o.queue_depth found
          (omega (arith, small, counted)))
        h
  on_outcome-small s topic capacity (err e) signal found small counted h =
      on_error-IsPaused client mpsc s topic topic e signal h

  -- A topic whose queue has room for at most three messages is never resumed by a message of its own: after any message to it,
  -- queued or refused, it is still paused. For a handler whose depth has room for one more.
  pub small-IsPaused :
      (s : Dispatching client mpsc) (msg : OwnedMessage) (e : HandlerEntry mpsc.Sender)
      → Map.get msg.topic s.dispatcher ≡ some e
      → e.metadata.capacity ≤ 3
      → e.metadata.queue_depth + 1 < usize_mod
      → IsPaused client mpsc s msg.topic
      → IsPaused client mpsc (on_item client mpsc s (message msg)) msg.topic
  unfolding on_item IsPaused
  small-IsPaused s msg e found small room h =
      let sent = send_signal-Counted mpsc s.dispatcher msg e found room in
      on_outcome-small _ msg.topic e.metadata.capacity _ _ sent.1 small sent.0 h

  refresh_partitions-some :
      (s : Dispatching client mpsc) (topic : String) (tpl : client.TopicPartitionList)
      → Map.get topic s.partition_handles ≡ some tpl
      → refresh_partitions client mpsc s ≡ s
  unfolding refresh_partitions Map.get
  refresh_partitions-some s topic tpl handle = ground arith

  pause_topic-some :
      (s : Dispatching client mpsc) (topic : String) (tpl : client.TopicPartitionList)
      → Map.get topic s.partition_handles ≡ some tpl
      → let s' = pause_topic client mpsc s topic in
        (s'.runner ≡ (client.pause s.runner tpl).0)
        × (Map.get topic s'.paused_topics
            ≡ (if (client.pause s.runner tpl).1 then some tt else Map.get topic s.paused_topics))
  unfolding pause_topic pause_partition
  pause_topic-some s topic tpl handle = ground (
    arith,
    refresh_partitions-some s topic tpl handle,
    Map.get-insert_self topic tt s.paused_topics,
  )

  -- A message that meets backpressure makes the client pause the topic, and the topic is in the set of paused ones
  -- exactly if it was or the client accepts. For a topic with handles.
  pub backpressure-pauses :
      (s : Dispatching client mpsc) (msg : OwnedMessage) (name reason : String)
      (tpl : client.TopicPartitionList)
      → (send_with_policy_and_signal mpsc s.dispatcher msg).1
        ≡ err (DispatchError.backpressure name reason)
      → Map.get msg.topic s.partition_handles ≡ some tpl
      → let s' = on_item client mpsc s (message msg) in
        (s'.runner ≡ (client.pause s.runner tpl).0)
        × (Map.get msg.topic s'.paused_topics ≡ (
            if (client.pause s.runner tpl).1 then some tt else Map.get msg.topic s.paused_topics))
  unfolding on_item on_outcome pause_topic pause_partition refresh_partitions
  backpressure-pauses s msg name reason tpl refused handle =
      let same = send_with_policy_and_signal_lem mpsc s.dispatcher msg in
      let signal : (send_with_policy_and_signal mpsc s.dispatcher msg).2
          ≡ some (BackpressureAction.pause_partition msg.topic msg.partition) =
        same.2 ∙ ap (signal_for msg) (sym same.1 ∙ refused) in
      let s' : Dispatching client mpsc = record s {
        dispatcher = (send_with_policy_and_signal mpsc s.dispatcher msg).0;
      } in
      rw (refused, signal) (pause_topic-some s' msg.topic tpl handle)
