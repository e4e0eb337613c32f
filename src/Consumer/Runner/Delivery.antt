-- ===== src/Consumer/Runner/Delivery.antt =====
-- The messages that go through the loop of src/consumer/runner.rs.
use mathlib.Core.List.{append-nil, append_assoc}
use kaf_py.Prelude.{
  ◌≤◌, ◌≡◌, refl, sym, ap, ◌∙◌, Bool, true, false, List, [], ◌∷◌, ◌++◌, arith, ltb, length,
  length-append, ltb→lt, Bool-cases, inl, inr,
}
use kaf_py.Message.{OwnedMessage}
use kaf_py.Consumer.Runner.{
  Loop, Phase, receiving, sending, sleeping, ended, Received, Action, signals, proceeds, takes,
  drops, delivers, signal, receive, deliver, try_send, proceed, take_next, drop_receiver, act,
  act_all, capacity, new_loop, message, message_consumption, other_error,
}

-- The messages that the loop gets from the client in an action.
abbrev pub got_of : Phase → Bool → Received → List OwnedMessage
got_of receiving false (message m) = m ∷ []
got_of phase signalled r = []

abbrev pub got_by : Action → Loop → List OwnedMessage
got_by signals l = []
got_by proceeds l = []
got_by takes l = []
got_by drops l = []
got_by (delivers r) l = got_of l.phase l.signalled r

abbrev pub got : Loop → List Action → List OwnedMessage
got l [] = []
got l (a ∷ actions) = got_by a l ++ got (act l a) actions

-- What may be missing in the channel.
abbrev pub Missing : Phase → List OwnedMessage → Type 0
Missing receiving missing = missing ≡ []
Missing (sending m) missing = missing ≡ m ∷ []
Missing (sleeping ms) missing = missing ≡ []
Missing ended missing = length missing ≤ 1

abbrev pub Delivered : List OwnedMessage → Loop → Type 0
Delivered messages l =
    (missing : List OwnedMessage) × (messages ≡ (l.taken ++ l.channel) ++ missing)
    × Missing l.phase missing
    × (length l.channel ≤ capacity)

abbrev loop : Phase → Bool → List OwnedMessage → List OwnedMessage → Bool → Loop
loop phase signalled channel taken has_receiver = record {
  phase = phase;
  signalled = signalled;
  channel = channel;
  taken = taken;
  has_receiver = has_receiver;
}

-- The missing message joins the channel.
rejoin :
    (messages taken channel : List OwnedMessage) (m : OwnedMessage)
    → messages ≡ (taken ++ channel) ++ m ∷ []
    → messages ≡ (taken ++ (channel ++ m ∷ [])) ++ []
rejoin messages taken channel m e =
    e ∙ append_assoc taken channel (m ∷ []) ∙ sym (append-nil (taken ++ (channel ++ m ∷ [])))

proceed-Delivered :
    (phase : Phase) (signalled : Bool) (channel taken : List OwnedMessage) (has_receiver : Bool)
    (messages : List OwnedMessage)
    → Delivered messages (loop phase signalled channel taken has_receiver)
    → Delivered messages (proceed (loop phase signalled channel taken has_receiver))
unfolding proceed try_send
proceed-Delivered receiving true channel taken has_receiver messages (missing, e, none, room) =
    (missing, e, rw none (omega arith), room)
proceed-Delivered receiving false channel taken has_receiver messages d = d
proceed-Delivered (sending m) true channel taken has_receiver messages (missing, e, one, room) =
    (missing, e, rw one (omega arith), room)
proceed-Delivered (sending m) false channel taken false messages (missing, e, one, room) =
    (missing, e, rw one (omega arith), room)
proceed-Delivered (sending m) false channel taken true messages (missing, e, one, room) =
    elim (Bool-cases (ltb (length channel) capacity)) [
      | inl below ↦ rw below (
        [],
        rejoin messages taken channel m (rw one at e),
        refl,
        omega (arith, length-append channel (m ∷ []), ltb→lt (length channel) capacity below),
      )
      | inr full ↦ rw full (missing, e, one, room)
    ]
proceed-Delivered (sleeping ms) signalled channel taken has_receiver messages d = d
proceed-Delivered ended signalled channel taken has_receiver messages d = d

deliver-Delivered :
    (phase : Phase) (signalled : Bool) (channel taken : List OwnedMessage) (has_receiver : Bool)
    (r : Received) (messages : List OwnedMessage)
    → Delivered messages (loop phase signalled channel taken has_receiver)
    → Delivered
        (messages ++ got_of phase signalled r)
        (deliver (loop phase signalled channel taken has_receiver) r)
unfolding deliver receive
deliver-Delivered receiving true channel taken has_receiver r messages (missing, e, none, room) =
    (missing, append-nil messages ∙ e, rw none (omega arith), room)
deliver-Delivered receiving false channel taken has_receiver (message m) messages
      (missing, e, none, room) =
    (m ∷ [], ap (λ ms. ms ++ m ∷ []) (rw none at e ∙ append-nil (taken ++ channel)), refl, room)
deliver-Delivered receiving false channel taken has_receiver message_consumption messages
      (missing, e, none, room) =
    (missing, append-nil messages ∙ e, none, room)
deliver-Delivered receiving false channel taken has_receiver other_error messages
      (missing, e, none, room) =
    (missing, append-nil messages ∙ e, none, room)
deliver-Delivered (sending m) signalled channel taken has_receiver r messages
      (missing, e, one, room) =
    (missing, append-nil messages ∙ e, one, room)
deliver-Delivered (sleeping ms) signalled channel taken has_receiver r messages
      (missing, e, none, room) =
    (missing, append-nil messages ∙ e, none, room)
deliver-Delivered ended signalled channel taken has_receiver r messages (missing, e, few, room) =
    (missing, append-nil messages ∙ e, few, room)

take_next-Delivered :
    (phase : Phase) (signalled : Bool) (channel taken : List OwnedMessage) (has_receiver : Bool)
    (messages : List OwnedMessage)
    → Delivered messages (loop phase signalled channel taken has_receiver)
    → Delivered messages (take_next (loop phase signalled channel taken has_receiver))
unfolding take_next
take_next-Delivered phase signalled [] taken has_receiver messages d = d
take_next-Delivered phase signalled (m ∷ ms) taken false messages d = d
take_next-Delivered phase signalled (m ∷ ms) taken true messages (missing, e, miss, room) = (
  missing,
  e ∙ ap (λ front. front ++ missing) (sym (append_assoc taken (m ∷ []) ms)),
  miss,
  omega arith,
)

act-Delivered :
    (l : Loop) (a : Action) (messages : List OwnedMessage)
    → Delivered messages l
    → Delivered (messages ++ got_by a l) (act l a)
unfolding act signal drop_receiver
act-Delivered l signals messages d = rw (append-nil messages) d
act-Delivered l proceeds messages d =
    rw (append-nil messages)
      (proceed-Delivered l.phase l.signalled l.channel l.taken l.has_receiver messages d)
act-Delivered l takes messages d =
    rw (append-nil messages)
      (take_next-Delivered l.phase l.signalled l.channel l.taken l.has_receiver messages d)
act-Delivered l drops messages d = rw (append-nil messages) d
act-Delivered l (delivers r) messages d =
    deliver-Delivered l.phase l.signalled l.channel l.taken l.has_receiver r messages d

act_all-Delivered :
    (l : Loop) (actions : List Action) (messages : List OwnedMessage)
    → Delivered messages l
    → Delivered (messages ++ got l actions) (act_all l actions)
unfolding act_all
act_all-Delivered l [] messages d = rw (append-nil messages) d
act_all-Delivered l (a ∷ actions) messages d =
    rw (← append_assoc messages (got_by a l) (got (act l a) actions))
      (act_all-Delivered (act l a) actions (messages ++ got_by a l) (act-Delivered l a messages d))

-- For every order of the turns: what the stream took, then what waits in the channel, then at most one
-- message, are the messages that the loop got from the client, in their order. That one message is missing
-- only while the loop waits to send it or after the loop has ended, and the channel holds at most 1000.
pub act_all-new_loop :
    (actions : List Action)
    → let l = act_all new_loop actions in
      (missing : List OwnedMessage) × (got new_loop actions ≡ (l.taken ++ l.channel) ++ missing)
      × Missing l.phase missing
      × (length l.channel ≤ capacity)
unfolding new_loop
act_all-new_loop actions = act_all-Delivered new_loop actions [] ([], refl, refl, omega arith)
