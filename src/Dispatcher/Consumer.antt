-- ===== src/Dispatcher/Consumer.antt =====
-- `ConsumerDispatcher` of src/dispatcher/consumer_dispatcher.rs: the loop between the consumer and
-- the queues of the handlers. The Kafka client is an interface; the errors that are only logged leave
-- no trace. A set of topics is a map to the unit type.
pub mod Pausing
pub mod Small
use kaf_py.Prelude.{
  ℕ, ◌+◌, ◌/◌, ◌≡◌, Bool, true, false, Option, none, some, String, ℤ, List, [], ◌∷◌, ◌++◌, ltb,
  if◌then◌else◌, string_eq, ◌>>=◌,
}
use kaf_py.Prelude.Map
use kaf_py.Prelude.Map.{Map}
use kaf_py.Message.{OwnedMessage}
use kaf_py.Dispatcher.Queues.{
  Mpsc, HandlerEntry, QueueManager, get_capacity, register_handler_with_semaphore,
}
use kaf_py.Dispatcher.Queues
use kaf_py.Dispatcher.Send.{
  BackpressureAction, DispatchError, Sent, ok, err, send_with_policy_and_signal,
}

pub record TopicPartitionListElem : Type 0 where
  pub topic : String
  pub partition : ℤ
  pub offset : ℤ

-- The client behind the runner. `pause` and `resume` say whether they succeeded;
-- `add_partition_offset` is `none` on an error.
pub record Client : Type 1 where
  pub State : Type 0
  pub TopicPartitionList : Type 0
  pub empty : TopicPartitionList
  pub add_partition_offset : TopicPartitionList → String → ℤ → ℤ → Option TopicPartitionList
  pub assignment : State → Option (List TopicPartitionListElem)
  pub pause : State → TopicPartitionList → State × Bool
  pub resume : State → TopicPartitionList → State × Bool

-- An item of the consumer's stream.
pub data Item : Type 0 where
  message : OwnedMessage → Item
  consumer_error : Item

-- While `run` waits for an item, the workers acknowledge messages of a topic.
pub data Event : Type 0 where
  item : Item → Event
  acknowledged : String → ℕ → Event

pub record ConsumerDispatcher (State TopicPartitionList Sender : Type 0) : Type 0 where
  pub runner : State
  pub dispatcher : QueueManager Sender
  pub partition_handles : Map String TopicPartitionList
  pub paused_topics : Map String (Unit {0})

module _ (client : Client) (mpsc : Mpsc) where
  abbrev pub Dispatching : Type 0
  Dispatching = ConsumerDispatcher client.State client.TopicPartitionList mpsc.Sender

  unfoldable pub new : client.State → Dispatching
  new runner = record {
    runner = runner;
    dispatcher = [];
    partition_handles = [];
    paused_topics = [];
  }

  unfoldable pub register_handler : Dispatching → String → ℕ → Option ℕ → Dispatching
  register_handler s topic capacity max_concurrency = record s {
    dispatcher = register_handler_with_semaphore mpsc s.dispatcher topic capacity max_concurrency;
  }

  unfoldable pub or_empty : Option client.TopicPartitionList → client.TopicPartitionList
  or_empty none = client.empty
  or_empty (some tpl) = tpl

  -- The loop over the elements of the assignment.
  unfoldable pub by_topic :
      Map String client.TopicPartitionList
      → List TopicPartitionListElem
      → Option (Map String client.TopicPartitionList)
  unfolding or_empty
  by_topic handles [] = some handles
  by_topic handles (elem ∷ elems) = do
    tpl ←
        client.add_partition_offset (or_empty (Map.get elem.topic handles)) elem.topic
          elem.partition elem.offset
    by_topic (Map.insert elem.topic tpl handles) elems

  -- With whether it succeeded.
  unfoldable pub populate_partitions : Dispatching → Dispatching × Bool
  unfolding by_topic
  populate_partitions s = elim (client.assignment s.runner) [
    | none ↦ (s, false)
    | some elems ↦ elim (by_topic [] elems) [
      | none ↦ (s, false)
      | some handles ↦ (record s { partition_handles = handles }, true)
    ]
  ]

  unfoldable pub pause_partition : Dispatching → String → Dispatching × Bool
  pause_partition s topic = elim (Map.get topic s.partition_handles) [
    | none ↦ (s, false)
    | some tpl ↦
        let (runner, paused) = client.pause s.runner tpl in (record s { runner = runner }, paused)
  ]

  unfoldable pub resume_partition : Dispatching → String → Dispatching × Bool
  resume_partition s topic = elim (Map.get topic s.partition_handles) [
    | none ↦ (s, false)
    | some tpl ↦
        let (runner, resumed) = client.resume s.runner tpl in
        (record s { runner = runner }, resumed)
  ]

  -- `remove` of the set of paused topics, with whether the topic was there.
  unfoldable pub take_paused : Dispatching → String → Dispatching × Bool
  take_paused s topic = elim (Map.get topic s.paused_topics) [
    | none ↦ (s, false)
    | some u ↦ (record s { paused_topics = Map.remove topic s.paused_topics }, true)
  ]

  -- Half of the capacity, which is exact in double precision below 2 ^ 53.
  unfoldable pub threshold : ℕ → ℕ
  threshold capacity = capacity / 2

  unfoldable pub check_resume : Dispatching → String → ℕ → Dispatching
  unfolding take_paused resume_partition threshold
  check_resume s topic current_depth = elim (get_capacity s.dispatcher topic) [
    | none ↦ s
    | some capacity ↦
        let (s', was_paused) = take_paused s topic in
        if ltb current_depth (threshold capacity)
        then (if was_paused then (resume_partition s' topic).0 else s')
        else s
  ]

  -- The handles are fetched when there are none.
  unfoldable pub refresh_partitions : Dispatching → Dispatching
  unfolding populate_partitions
  refresh_partitions s = elim s.partition_handles [ [] ↦ (populate_partitions s).0 | p ∷ ps ↦ s ]

  unfoldable pub pause_topic : Dispatching → String → Dispatching
  unfolding refresh_partitions pause_partition
  pause_topic s topic =
      let (s', paused) = pause_partition (refresh_partitions s) topic in
      if paused then record s' { paused_topics = Map.insert topic tt s'.paused_topics } else s'

  unfoldable pub on_outcome : Dispatching → String → Sent → Option BackpressureAction → Dispatching
  unfolding check_resume pause_topic
  on_outcome s topic (ok outcome) signal = check_resume s topic outcome.queue_depth
  on_outcome s topic (err (DispatchError.backpressure q reason)) signal = elim signal [
    | some (BackpressureAction.pause_partition paused partition) ↦ pause_topic s paused
    | _ ↦ s
  ]
  on_outcome s topic (err _) signal = s

  unfoldable pub on_item : Dispatching → Item → Dispatching
  unfolding on_outcome
  on_item s (message msg) =
      let (q, outcome, signal) = send_with_policy_and_signal mpsc s.dispatcher msg in
      on_outcome (record s { dispatcher = q }) msg.topic outcome signal
  on_item s consumer_error = s

  unfoldable pub on_event : Dispatching → Event → Dispatching
  unfolding on_item
  on_event s (item i) = on_item s i
  on_event s (acknowledged topic count) = record s {
    dispatcher = Queues.ack s.dispatcher topic count;
  }

  unfoldable pub loop : Dispatching → List Event → Dispatching
  unfolding on_event
  loop s [] = s
  loop s (event ∷ events) = loop (on_event s event) events

  unfoldable pub run : Dispatching → List Event → Dispatching
  unfolding populate_partitions loop
  run s events = loop (populate_partitions s).0 events
