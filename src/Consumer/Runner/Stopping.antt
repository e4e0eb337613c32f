-- ===== src/Consumer/Runner/Stopping.antt =====
-- The end of the loop of src/consumer/runner.rs.
use mathlib.Core.List.{append_assoc}
use kaf_py.Prelude.{
  ℕ, ◌+◌, ◌-◌, ◌≤◌, ◌≡◌, refl, sym, subst, ◌∙◌, Bool, true, false, List, [], ◌∷◌, ◌++◌, arith,
}
use kaf_py.Message.{OwnedMessage}
use kaf_py.Consumer.Runner.{
  Loop, Phase, receiving, sending, sleeping, ended, Received, Action, signals, proceeds, takes,
  drops, delivers, signal, try_send, proceed, deliver, take_next, drop_receiver, act, act_all,
}

-- The turns that the loop still needs once it is signalled.
abbrev pub pending : Phase → ℕ
pending receiving = 1
pending (sending m) = 1
pending (sleeping ms) = 2
pending ended = 0

abbrev pub contents : Loop → List OwnedMessage
contents l = l.taken ++ l.channel

abbrev pub cost : Action → ℕ
cost proceeds = 1
cost signals = 0
cost takes = 0
cost drops = 0
cost (delivers r) = 0

-- How many of the actions are turns of the loop.
abbrev pub turns : List Action → ℕ
turns [] = 0
turns (a ∷ actions) = cost a + turns actions

abbrev loop : Phase → List OwnedMessage → List OwnedMessage → Bool → Loop
loop phase channel taken has_receiver = record {
  phase = phase;
  signalled = true;
  channel = channel;
  taken = taken;
  has_receiver = has_receiver;
}

abbrev Closes : ℕ → Loop → Loop → Type 0
Closes turn l l' =
    (l'.signalled ≡ true) × (pending l'.phase ≤ pending l.phase - turn) × (contents l' ≡ contents l)

proceed-Closes :
    (phase : Phase) (channel taken : List OwnedMessage) (has_receiver : Bool)
    → Closes 1
        (loop phase channel taken has_receiver)
        (proceed (loop phase channel taken has_receiver))
unfolding proceed try_send
proceed-Closes receiving channel taken has_receiver = (refl, omega arith, refl)
proceed-Closes (sending m) channel taken has_receiver = (refl, omega arith, refl)
proceed-Closes (sleeping ms) channel taken has_receiver = (refl, omega arith, refl)
proceed-Closes ended channel taken has_receiver = (refl, omega arith, refl)

deliver-Closes :
    (phase : Phase) (channel taken : List OwnedMessage) (has_receiver : Bool) (r : Received)
    → Closes 0
        (loop phase channel taken has_receiver)
        (deliver (loop phase channel taken has_receiver) r)
unfolding deliver
deliver-Closes receiving channel taken has_receiver r = (refl, omega arith, refl)
deliver-Closes (sending m) channel taken has_receiver r = (refl, omega arith, refl)
deliver-Closes (sleeping ms) channel taken has_receiver r = (refl, omega arith, refl)
deliver-Closes ended channel taken has_receiver r = (refl, omega arith, refl)

take_next-Closes :
    (phase : Phase) (channel taken : List OwnedMessage) (has_receiver : Bool)
    → Closes 0
        (loop phase channel taken has_receiver)
        (take_next (loop phase channel taken has_receiver))
unfolding take_next
take_next-Closes phase [] taken has_receiver = (refl, omega arith, refl)
take_next-Closes phase (m ∷ ms) taken true = (refl, omega arith, append_assoc taken (m ∷ []) ms)
take_next-Closes phase (m ∷ ms) taken false = (refl, omega arith, refl)

act-Closes :
    (phase : Phase) (channel taken : List OwnedMessage) (has_receiver : Bool) (a : Action)
    → Closes
        (cost a)
        (loop phase channel taken has_receiver)
        (act (loop phase channel taken has_receiver) a)
unfolding act signal drop_receiver
act-Closes phase channel taken has_receiver signals = (refl, omega arith, refl)
act-Closes phase channel taken has_receiver proceeds =
    proceed-Closes phase channel taken has_receiver
act-Closes phase channel taken has_receiver takes =
    take_next-Closes phase channel taken has_receiver
act-Closes phase channel taken has_receiver drops = (refl, omega arith, refl)
act-Closes phase channel taken has_receiver (delivers r) =
    deliver-Closes phase channel taken has_receiver r

step-Closes : (l : Loop) (a : Action) → l.signalled ≡ true → Closes (cost a) l (act l a)
step-Closes l a e =
    let same : loop l.phase l.channel l.taken l.has_receiver ≡ l =
      λ i. record l { signalled = sym e i } in
    subst (λ l'. Closes (cost a) l' (act l' a)) same
      (act-Closes l.phase l.channel l.taken l.has_receiver a)

act_all-Closes :
    (l : Loop) (actions : List Action)
    → l.signalled ≡ true
    → (pending (act_all l actions).phase ≤ pending l.phase - turns actions)
      × (contents (act_all l actions) ≡ contents l)
unfolding act_all
act_all-Closes l [] e = (omega arith, refl)
act_all-Closes l (a ∷ actions) e =
    let (signalled, fewer, same) = step-Closes l a e in
    let (rest, same') = act_all-Closes (act l a) actions signalled in (omega arith, same' ∙ same)

pending-ended : (phase : Phase) → pending phase ≤ 0 → phase ≡ ended
pending-ended receiving h = absurd (omega arith)
pending-ended (sending m) h = absurd (omega arith)
pending-ended (sleeping ms) h = absurd (omega arith)
pending-ended ended h = refl

pending-le : (phase : Phase) → pending phase ≤ 2
pending-le receiving = omega arith
pending-le (sending m) = omega arith
pending-le (sleeping ms) = omega arith
pending-le ended = omega arith

-- Whatever the loop waits for when the signal comes, room in a full channel included, and whatever else
-- goes on: after two turns of the loop it has ended, and since the signal no message has joined those
-- that the stream took or may still take.
pub signal-ended :
    (l : Loop) (actions : List Action)
    → 2 ≤ turns actions
    → ((act_all (signal l) actions).phase ≡ ended)
      × (contents (act_all (signal l) actions) ≡ contents l)
unfolding signal
signal-ended l actions h =
    let (none_left, same) = act_all-Closes (signal l) actions refl in
    let most = pending-le l.phase in
    (pending-ended (act_all (signal l) actions).phase (omega arith), same)
