-- ===== src/Dispatcher/Consumer/Pausing.antt =====
-- Which topics src/dispatcher/consumer_dispatcher.rs keeps paused, and when it resumes them.
use kaf_py.Prelude.{
  ℕ, ◌/◌, ◌≤◌, ◌<◌, ◌≡◌, ◌∙◌, false, Option, none, some, String, List, [], ◌∷◌, inl, inr, string_eq,
  ◌==◌, arith, All, Bool-cases, beq_refl,
}
use kaf_py.Prelude.Map
use kaf_py.Dispatcher.Queues.{Mpsc, get_capacity}
use kaf_py.Dispatcher.Send.{BackpressureAction, DispatchError, Sent, ok, err}
use kaf_py.Dispatcher.Consumer.{
  Client, Dispatching, message, consumer_error, Event, item, acknowledged, populate_partitions,
  pause_partition, resume_partition, take_paused, threshold, check_resume, refresh_partitions,
  pause_topic, on_outcome, on_item, on_event, loop,
}

module _ (client : Client) (mpsc : Mpsc) where
  unfoldable pub IsPaused : Dispatching client mpsc → String → Type 0
  IsPaused s topic = Map.get topic s.paused_topics ≡ some tt

  populate_partitions-paused_topics :
      (s : Dispatching client mpsc)
      → (populate_partitions client mpsc s).0.paused_topics ≡ s.paused_topics
  unfolding populate_partitions
  populate_partitions-paused_topics s = ground arith

  refresh_partitions-paused_topics :
      (s : Dispatching client mpsc)
      → (refresh_partitions client mpsc s).paused_topics ≡ s.paused_topics
  unfolding refresh_partitions
  refresh_partitions-paused_topics s = ground (arith, populate_partitions-paused_topics s)

  pause_partition-paused_topics :
      (s : Dispatching client mpsc) (topic : String)
      → (pause_partition client mpsc s topic).0.paused_topics ≡ s.paused_topics
  unfolding pause_partition
  pause_partition-paused_topics s topic = ground arith

  resume_partition-paused_topics :
      (s : Dispatching client mpsc) (topic : String)
      → (resume_partition client mpsc s topic).0.paused_topics ≡ s.paused_topics
  unfolding resume_partition
  resume_partition-paused_topics s topic = ground arith

  insert_paused :
      (topic paused : String) (m : Map.Map String (Unit {0}))
      → Map.get topic m ≡ some tt
      → Map.get topic (Map.insert paused tt m) ≡ some tt
  insert_paused topic paused m h = ground (arith, Map.get-insert topic paused tt m)

  pause_topic-IsPaused :
      (s : Dispatching client mpsc) (topic paused : String)
      → IsPaused s topic
      → IsPaused (pause_topic client mpsc s paused) topic
  unfolding IsPaused pause_topic
  pause_topic-IsPaused s topic paused h =
      let s₁ = refresh_partitions client mpsc s in
      let kept = pause_partition-paused_topics s₁ paused ∙ refresh_partitions-paused_topics s in
      let still : IsPaused (pause_partition client mpsc s₁ paused).0 topic = rw kept h in
      elim (Bool-cases (pause_partition client mpsc s₁ paused).1) [
        | inl done ↦ rw (pause_topic, done) (insert_paused topic paused _ still)
        | inr failed ↦ rw (pause_topic, failed) still
      ]

  take_paused-IsPaused :
      (s : Dispatching client mpsc) (topic other : String)
      → (other == topic) ≡ false
      → IsPaused s topic
      → IsPaused (take_paused client mpsc s other).0 topic
  unfolding IsPaused take_paused
  take_paused-IsPaused s topic other ne h =
      ground (arith, Map.get-remove topic other s.paused_topics)

  resume_partition-IsPaused :
      (s : Dispatching client mpsc) (topic other : String)
      → IsPaused s topic
      → IsPaused (resume_partition client mpsc s other).0 topic
  unfolding IsPaused
  resume_partition-IsPaused s topic other h = rw (resume_partition-paused_topics s other) h

  check_resume-IsPaused :
      (s : Dispatching client mpsc) (topic other : String) (depth : ℕ)
      → (other == topic) ≡ false
      → IsPaused s topic
      → IsPaused (check_resume client mpsc s other depth) topic
  unfolding check_resume
  check_resume-IsPaused s topic other depth ne h =
      let taken = take_paused-IsPaused s topic other ne h in
      let resumed =
        resume_partition-IsPaused (take_paused client mpsc s other).0 topic other taken in
      ground (arith, taken, resumed, h)

  -- `check_resume` at a depth of at least half of the capacity does nothing.
  pub check_resume-deep :
      (s : Dispatching client mpsc) (topic : String) (capacity depth : ℕ)
      → get_capacity s.dispatcher topic ≡ some capacity
      → threshold client mpsc capacity ≤ depth
      → check_resume client mpsc s topic depth ≡ s
  unfolding check_resume
  check_resume-deep s topic capacity depth found deep = ground arith

  pub on_error-IsPaused :
      (s : Dispatching client mpsc) (topic other : String) (e : DispatchError)
      (signal : Option BackpressureAction)
      → IsPaused s topic
      → IsPaused (on_outcome client mpsc s other (err e) signal) topic
  unfolding on_outcome
  on_error-IsPaused s topic other (DispatchError.backpressure q r) none h = h
  on_error-IsPaused s topic other (DispatchError.backpressure q r) (some BackpressureAction.drop)
        h =
      h
  on_error-IsPaused s topic other (DispatchError.backpressure q r) (some BackpressureAction.wait)
        h =
      h
  on_error-IsPaused s topic other (DispatchError.backpressure q r)
        (some (BackpressureAction.pause_partition paused p)) h =
      pause_topic-IsPaused s topic paused h
  on_error-IsPaused s topic other (DispatchError.backpressure q r)
        (some (BackpressureAction.resume_partition t p)) h =
      h
  on_error-IsPaused s topic other (DispatchError.queue_full q n) signal h = h
  on_error-IsPaused s topic other (DispatchError.unknown_topic t r) signal h = h
  on_error-IsPaused s topic other (DispatchError.handler_not_registered t) signal h = h
  on_error-IsPaused s topic other (DispatchError.queue_closed q) signal h = h

  -- An outcome of a message to another topic.
  on_outcome-IsPaused :
      (s : Dispatching client mpsc) (topic other : String) (outcome : Sent)
      (signal : Option BackpressureAction)
      → (other == topic) ≡ false
      → IsPaused s topic
      → IsPaused (on_outcome client mpsc s other outcome signal) topic
  unfolding on_outcome
  on_outcome-IsPaused s topic other (ok o) signal ne h =
      check_resume-IsPaused s topic other o.queue_depth ne h
  on_outcome-IsPaused s topic other (err e) signal ne h = on_error-IsPaused s topic other e signal h

  -- The event is no message of the topic.
  abbrev pub Spares : String → Event → Type 0
  Spares topic (item (message msg)) = (msg.topic == topic) ≡ false
  Spares topic (item consumer_error) = Unit
  Spares topic (acknowledged t count) = Unit

  on_event-IsPaused :
      (s : Dispatching client mpsc) (topic : String) (event : Event)
      → Spares topic event
      → IsPaused s topic
      → IsPaused (on_event client mpsc s event) topic
  unfolding on_event on_item IsPaused
  on_event-IsPaused s topic (item (message msg)) ne h =
      on_outcome-IsPaused _ topic msg.topic _ _ ne h
  on_event-IsPaused s topic (item consumer_error) ne h = h
  on_event-IsPaused s topic (acknowledged t count) ne h = h

  -- A paused topic stays paused until a message of that topic arrives, however much of its queue is acknowledged
  -- meanwhile, whatever the other topics receive, and whatever the client answers.
  pub loop-IsPaused :
      (s : Dispatching client mpsc) (topic : String) (events : List Event)
      → All (Spares topic) events
      → IsPaused s topic
      → IsPaused (loop client mpsc s events) topic
  unfolding loop
  loop-IsPaused s topic [] spared h = h
  loop-IsPaused s topic (event ∷ events) spared h =
      loop-IsPaused (on_event client mpsc s event) topic events spared.1
        (on_event-IsPaused s topic event spared.0 h)

  -- A depth below half of the capacity takes a paused topic out of the set and resumes its partitions. The topic has left
  -- the set also when the client refuses. For a topic with a handler and with handles.
  check_resume-get :
      (s : Dispatching client mpsc) (topic : String) (capacity depth : ℕ)
      (tpl : client.TopicPartitionList)
      → get_capacity s.dispatcher topic ≡ some capacity
      → depth < capacity / 2
      → Map.get topic s.partition_handles ≡ some tpl
      → IsPaused s topic
      → ((check_resume client mpsc s topic depth).runner ≡ (client.resume s.runner tpl).0)
        × (Map.get topic (check_resume client mpsc s topic depth).paused_topics ≡ none)
  unfolding check_resume take_paused resume_partition threshold IsPaused
  check_resume-get s topic capacity depth tpl found low handle paused =
      ground (arith, Map.get-remove topic topic s.paused_topics, beq_refl topic)
