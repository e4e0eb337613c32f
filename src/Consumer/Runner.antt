-- ===== src/Consumer/Runner.antt =====
-- `ConsumerRunner` of src/consumer/runner.rs: the loop that `run` spawns and the signal of `stop`. The tasks
-- that run at the same time take turns: an action is one turn. What the client delivers and when the
-- receiver takes a message are part of the actions.
pub mod Delivery
pub mod Stopping
pub mod Startup
use kaf_py.Prelude.{
  ℕ, Bool, true, false, Option, none, some, String, concat, ℤ, List, [], ◌∷◌, ◌++◌, ltb, length,
  if◌then◌else◌, string_eq, ◌>>=◌,
}
use kaf_py.Prelude.Map
use kaf_py.Prelude.Map.{Map}
use kaf_py.Message.{OwnedMessage}
use kaf_py.Shutdown.{ShutdownCoordinator, begin_draining}

-- What `recv` of the client returns.
pub data Received : Type 0 where
  message : OwnedMessage → Received
  message_consumption other_error : Received

-- Where the loop waits: for the client or the signal, for room in the channel or the signal, for the end of
-- a sleep of so many milliseconds, or nowhere any more.
pub data Phase : Type 0 where
  receiving : Phase
  sending : OwnedMessage → Phase
  sleeping : ℕ → Phase
  ended : Phase

-- `signalled` is a value in the loop's receiver of the shutdown channel; `channel` holds what the stream has
-- not taken yet, and `taken` what it has.
pub record Loop : Type 0 where
  pub phase : Phase
  pub signalled : Bool
  pub channel : List OwnedMessage
  pub taken : List OwnedMessage
  pub has_receiver : Bool

pub record ConsumerRunner : Type 0 where
  pub loop : Option Loop
  pub coordinator : Option ShutdownCoordinator

abbrev pub capacity : ℕ
capacity = 1000

unfoldable pub new_loop : Loop
new_loop = record {
  phase = receiving;
  signalled = false;
  channel = [];
  taken = [];
  has_receiver = true;
}

unfoldable pub signal : Loop → Loop
signal l = record l { signalled = true }

unfoldable pub receive : Received → Phase
receive (message m) = sending m
receive message_consumption = sleeping 100
receive other_error = sleeping 500

-- The client delivers; the signal goes first.
unfoldable pub deliver : Loop → Received → Loop
unfolding receive
deliver l r = elim l.phase [
  | receiving ↦ if l.signalled then record l { phase = ended } else record l { phase = receive r }
  | sending m ↦ l
  | sleeping ms ↦ l
  | ended ↦ l
]

-- A turn of the loop at the send: the signal, a receiver that is gone, or room.
unfoldable pub try_send : Loop → OwnedMessage → Loop
try_send l m =
    if l.signalled
    then record l { phase = ended }
    else if l.has_receiver
    then (if ltb (length l.channel) capacity
        then record l { phase = receiving; channel = l.channel ++ m ∷ [] }
        else l)
    else record l { phase = ended }

-- A turn of the loop in which the client delivers nothing. A sleep that is over ends, signal or not.
unfoldable pub proceed : Loop → Loop
unfolding try_send
proceed l = elim l.phase [
  | receiving ↦ if l.signalled then record l { phase = ended } else l
  | sending m ↦ try_send l m
  | sleeping ms ↦ record l { phase = receiving }
  | ended ↦ l
]

-- The stream takes the next message.
unfoldable pub take_next : Loop → Loop
take_next l = elim l.channel [
  | [] ↦ l
  | m ∷ ms ↦ if l.has_receiver then record l { channel = ms; taken = l.taken ++ m ∷ [] } else l
]

unfoldable pub drop_receiver : Loop → Loop
drop_receiver l = record l { has_receiver = false }

-- An action on the loop.
pub data Action : Type 0 where
  signals proceeds takes drops : Action
  delivers : Received → Action

unfoldable pub act : Loop → Action → Loop
unfolding signal deliver proceed take_next drop_receiver
act l signals = signal l
act l proceeds = proceed l
act l takes = take_next l
act l drops = drop_receiver l
act l (delivers r) = deliver l r

unfoldable pub act_all : Loop → List Action → Loop
unfolding act
act_all l [] = l
act_all l (a ∷ actions) = act_all (act l a) actions

-- `subscribe` comes before the loop is spawned.
unfoldable pub run : ConsumerRunner → ConsumerRunner
unfolding new_loop
run r = record r { loop = some new_loop }

unfoldable pub send_shutdown : ConsumerRunner → ConsumerRunner
unfolding signal
send_shutdown r = elim r.loop [ none ↦ r | some l ↦ record r { loop = some (signal l) } ]

-- `none` is a panic of the coordinator. A signal without a receiver is lost.
unfoldable pub stop : ConsumerRunner → Option ConsumerRunner
unfolding send_shutdown
stop r = elim r.coordinator [
  | none ↦ some (send_shutdown r)
  | some coord ↦ begin_draining coord >>= λ drained.
      some (send_shutdown (record r { coordinator = some drained.0 }))
]

-- `pause_state` after `pause_partition` and `resume_partition`, with whether the client accepted the
-- partition and the call; `false` is an error.
unfoldable pub pause_partition :
    (ℤ → String) → Map String Bool → String → ℤ → Bool → Bool → Map String Bool × Bool
pause_partition show_int pause_state topic partition added paused =
    if added
    then (if paused
        then (Map.insert (concat topic (concat "-" (show_int partition))) true pause_state, true)
        else (pause_state, false))
    else (pause_state, false)

unfoldable pub resume_partition :
    (ℤ → String) → Map String Bool → String → ℤ → Bool → Bool → Map String Bool × Bool
resume_partition show_int pause_state topic partition added resumed =
    if added
    then (if resumed
        then (Map.remove (concat topic (concat "-" (show_int partition))) pause_state, true)
        else (pause_state, false))
    else (pause_state, false)

-- The loop of `ConsumerTask::spawn` over the stream, in which `run` puts no errors: the messages that `process` was called with.
unfoldable pub process_stream : (OwnedMessage → Bool) → List OwnedMessage → List OwnedMessage
process_stream process [] = []
process_stream process (m ∷ ms) =
    let rest = process_stream process ms in if process m then m ∷ rest else m ∷ []
