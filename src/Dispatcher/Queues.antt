-- ===== src/Dispatcher/Queues.antt =====
-- `QueueManager` of src/dispatcher/queue_manager.rs: the handlers by topic. The bounded channel of
-- a handler is an interface.
use kaf_py.Prelude.{ℕ, Option, none, some, String, map, string_eq}
use kaf_py.Prelude.Map
use kaf_py.Prelude.Map.{Map}
use kaf_py.Message.{OwnedMessage}
use kaf_py.Dispatcher.Metadata
use kaf_py.Dispatcher.Metadata.{HandlerMetadata}

-- What `try_send` of a tokio channel reports.
pub data SendStatus : Type 0 where
  sent full closed : SendStatus

-- The sending half of a channel.
pub record Mpsc : Type 1 where
  pub Sender : Type 0
  pub channel : ℕ → Sender
  pub try_send : Sender → OwnedMessage → Sender × SendStatus

pub record HandlerEntry (Sender : Type 0) : Type 0 where
  pub sender : Sender
  pub metadata : HandlerMetadata

abbrev pub QueueManager : Type 0 → Type 0
QueueManager Sender = Map String (HandlerEntry Sender)

limit_of : Option ℕ → ℕ
limit_of none = 0
limit_of (some permits) = permits

unfoldable pub register_handler_with_semaphore :
    (mpsc : Mpsc) → QueueManager mpsc.Sender → String → ℕ → Option ℕ → QueueManager mpsc.Sender
unfolding limit_of
register_handler_with_semaphore mpsc q topic capacity semaphore =
    Map.insert topic
      (record {
        sender = mpsc.channel capacity;
        metadata = Metadata.new capacity semaphore (limit_of semaphore);
      })
      q

module _ {Sender : Type 0} where
  unfoldable pub get_capacity : QueueManager Sender → String → Option ℕ
  get_capacity q topic = elim (Map.get topic q) [ none ↦ none | some e ↦ some e.metadata.capacity ]

  unfoldable pub get_inflight : QueueManager Sender → String → Option ℕ
  get_inflight q topic = elim (Map.get topic q) [
    | none ↦ none
    | some e ↦ some (Metadata.get_inflight e.metadata)
  ]

  -- (queue_depth, inflight)
  unfoldable pub queue_snapshots : QueueManager Sender → Map String (ℕ × ℕ)
  queue_snapshots q = map (λ p. (p.0, (p.1.metadata.queue_depth, p.1.metadata.inflight))) q

  unfoldable pub ack : QueueManager Sender → String → ℕ → QueueManager Sender
  ack q topic count = elim (Map.get topic q) [
    | none ↦ q
    | some e ↦ Map.insert topic (record e { metadata = Metadata.ack e.metadata count }) q
  ]
