-- ===== src/Dispatcher/Send/Counters.antt =====
-- What a send does to the counters of its handler (src/dispatcher/mod.rs).
use kaf_py.Prelude.{
  ℕ, ◌+◌, ◌≤◌, ◌<◌, ◌≡◌, ◌≢◌, refl, ◌∙◌, inl, inr, false, Option, none, some, String, List, [], ◌∷◌,
  arith, string_eq, ◌==◌, usize_mod, Option-cases, length, min,
}
use kaf_py.Prelude.Map
use kaf_py.Message.{OwnedMessage}
use kaf_py.Dispatcher.Metadata.{
  HandlerMetadata, IsBalanced, try_acquire_semaphore, try_acquire_semaphore-IsBalanced,
}
use kaf_py.Dispatcher.Metadata
use kaf_py.Dispatcher.Queues.{Mpsc, sent, HandlerEntry, QueueManager}
use kaf_py.Dispatcher.Send.{
  BackpressureAction, Sent, ok, err, backpressure, DispatchOutcome, no_permit, send_entry,
  send_entry_signal, send, send_with_policy_and_signal, pause_partition,
}

-- The pause that goes with a backpressure error.
abbrev pub signal_for : OwnedMessage → Sent → Option BackpressureAction
signal_for msg (err (backpressure _ _)) = some (pause_partition msg.topic msg.partition)
signal_for msg _ = none

module _ (mpsc : Mpsc) where
  -- A send keeps the two counters of its handler equal and the permits within their limit, whether
  -- the message is queued, refused or finds no permit. `inflight` has room for one more. The
  -- counters were so before.
  pub send_entry-IsBalanced :
      (e : HandlerEntry mpsc.Sender) (msg : OwnedMessage)
      → IsBalanced e.metadata
      → e.metadata.inflight + 1 < usize_mod
      → IsBalanced (send_entry mpsc e msg).0.metadata
  unfolding send_entry
  send_entry-IsBalanced e msg v h = ground arith

  -- `send_with_policy_and_signal` leaves the same queues and gives the same result as `send`, and
  -- its signal is a pause of the topic and partition of the message exactly on a backpressure error.
  pub send_with_policy_and_signal_lem :
      (q : QueueManager mpsc.Sender) (msg : OwnedMessage)
      → ((send_with_policy_and_signal mpsc q msg).0 ≡ (send mpsc q msg).0)
        × ((send_with_policy_and_signal mpsc q msg).1 ≡ (send mpsc q msg).1)
        × ((send_with_policy_and_signal mpsc q msg).2 ≡ signal_for msg (send mpsc q msg).1)
  unfolding send send_with_policy_and_signal send_entry send_entry_signal
  send_with_policy_and_signal_lem q msg = ground arith

  -- A message that was queued and is acknowledged leaves the counters of its handler as they were.
  -- The counters were equal and in range before, and `inflight` had room for one more.
  pub ack-send_entry :
      (e : HandlerEntry mpsc.Sender) (msg : OwnedMessage) (o : DispatchOutcome)
      → IsBalanced e.metadata
      → e.metadata.inflight + 1 < usize_mod
      → (send_entry mpsc e msg).1 ≡ ok o
      → let m = Metadata.ack (send_entry mpsc e msg).0.metadata 1 in
        (m.queue_depth ≡ e.metadata.queue_depth)
        × (m.inflight ≡ e.metadata.inflight)
        × (m.outstanding_permits ≡ e.metadata.outstanding_permits)
  unfolding send_entry Metadata.ack
  ack-send_entry e msg o v h s = ground arith

  -- A message to a topic goes to no other handler.
  send-get_ne :
      (q : QueueManager mpsc.Sender) (msg : OwnedMessage) (topic : String)
      → (msg.topic == topic) ≡ false
      → Map.get topic (send mpsc q msg).0 ≡ Map.get topic q
  unfolding send
  send-get_ne q msg topic ne = elim (Option-cases (Map.get msg.topic q)) [
    | inl e ↦ rw (e, send)
    | inr (entry, e) ↦
        rw (e, send) (Map.get-insert_ne topic msg.topic (send_entry mpsc entry msg).0 q ne)
  ]

  refused_step :
      (e : HandlerEntry mpsc.Sender) (msg : OwnedMessage) (free : ℕ)
      → ((mpsc.try_send e.sender msg).1 ≢ sent)
      → IsBalanced e.metadata
      → e.metadata.inflight + 1 < usize_mod
      → e.metadata.semaphore ≡ some free
      → let m = (send_entry mpsc e msg).0.metadata in
        (m.outstanding_permits
          ≡ min (e.metadata.outstanding_permits + 1) e.metadata.semaphore_limit)
        × (m.inflight ≡ e.metadata.inflight)
        × (m.semaphore ≡ some free)
        × (m.semaphore_limit ≡ e.metadata.semaphore_limit)
  unfolding send_entry
  refused_step e msg free r v h s = ground arith

  unfoldable pub send_each : HandlerEntry mpsc.Sender → List OwnedMessage → HandlerEntry mpsc.Sender
  send_each e [] = e
  send_each e (msg ∷ msgs) = send_each (send_entry mpsc e msg).0 msgs

  -- While the channel refuses what it is offered, each send keeps the permit that it took: after as
  -- many sends as there were permits left, all permits are out and no message is in flight that was
  -- not before. The handler has a semaphore, its counters were equal and in range, and `inflight`
  -- had room for one more.
  pub refused_sends_exhaust :
      (refuses : (s : mpsc.Sender) (m : OwnedMessage) → (mpsc.try_send s m).1 ≢ sent)
      (e : HandlerEntry mpsc.Sender) (msgs : List OwnedMessage) (free : ℕ)
      → IsBalanced e.metadata
      → e.metadata.inflight + 1 < usize_mod
      → e.metadata.semaphore ≡ some free
      → e.metadata.semaphore_limit ≤ e.metadata.outstanding_permits + length msgs
      → ((send_each e msgs).metadata.outstanding_permits ≡ e.metadata.semaphore_limit)
        × ((send_each e msgs).metadata.inflight ≡ e.metadata.inflight)
  unfolding send_each
  refused_sends_exhaust refuses e [] free v h s enough = (omega (arith, v.limited), refl)
  refused_sends_exhaust refuses e (msg ∷ msgs) free v h s enough =
      let (o, i, s', l) = refused_step e msg free (refuses e.sender msg) v h s in
      let (x, y) =
        refused_sends_exhaust refuses (send_entry mpsc e msg).0 msgs free
          (send_entry-IsBalanced e msg v h) (omega arith) s' (omega (arith, v.limited)) in
      (x ∙ l, y ∙ i)

-- With all permits out a send is refused before the channel is asked, whatever room it has. The
-- handler has a semaphore.
exhausted_refuses :
    (mpsc : Mpsc) (e : HandlerEntry mpsc.Sender) (msg : OwnedMessage) (free : ℕ)
    → e.metadata.semaphore ≡ some free
    → e.metadata.outstanding_permits ≡ e.metadata.semaphore_limit
    → send_entry mpsc e msg ≡ (e, no_permit msg)
unfolding send_entry
exhausted_refuses mpsc e msg free s o = ground arith
