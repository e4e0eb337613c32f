-- ===== src/Dlq/Channel.antt =====
-- `SharedDlqProducer` of src/dlq/produce.rs: the channel between the workers and the task that
-- produces to the broker. The head of the queue is the oldest message.
use kaf_py.Prelude.{
  ℕ, suc, ◌+◌, ◌-◌, ◌≤◌, ◌<◌, ◌≡◌, ℤ, Option, none, some, String, List, [], ◌∷◌, ◌++◌, arith, ltb,
  take, zero, sym, ◌∙◌, length, length-append, if◌then◌else◌,
}
use mathlib.Core.List.{append-nil, append_assoc}
use kaf_py.Dlq.{DlqMetadata, TopicPartition, metadata_to_headers}

-- DLQ_CHANNEL_CAPACITY
abbrev pub dlq_channel_capacity : ℕ
dlq_channel_capacity = 100

-- A payload or key is the list of its bytes.
pub record DlqMessage : Type 0 where
  pub topic : String
  pub original_topic : String
  pub partition : ℤ
  pub payload : List ℕ
  pub key : Option (List ℕ)
  pub headers : List (String × String)

-- How the envelope is written: the texts of numbers and times.
pub record Texts : Type 0 where
  pub show_int : ℤ → String
  pub show_u32 : ℕ → String
  pub rfc3339 : ℕ → String

abbrev pub DlqQueue : Type 0
DlqQueue = List DlqMessage

unfoldable pub dlq_message :
    Texts → TopicPartition → List ℕ → Option (List ℕ) → DlqMetadata → DlqMessage
dlq_message t to payload key metadata = record {
  topic = to.topic;
  original_topic = metadata.original.topic;
  partition = to.partition;
  payload = payload;
  key = key;
  headers = metadata_to_headers t.show_int t.show_u32 t.rfc3339 metadata;
}

-- `try_send` on the bounded channel; a message that does not fit is dropped.
unfoldable pub try_send : DlqQueue → DlqMessage → DlqQueue
try_send q m = if ltb (length q) dlq_channel_capacity then q ++ m ∷ [] else q

unfoldable pub produce_async :
    Texts → DlqQueue → TopicPartition → List ℕ → Option (List ℕ) → DlqMetadata → DlqQueue
produce_async t q to payload key metadata = try_send q (dlq_message t to payload key metadata)

-- The background task takes the oldest message.
unfoldable pub recv : DlqQueue → Option (DlqMessage × DlqQueue)
recv [] = none
recv (m ∷ q) = some (m, q)

unfoldable pub send_all : DlqQueue → List DlqMessage → DlqQueue
send_all q [] = q
send_all q (m ∷ ms) = send_all (try_send q m) ms

pub try_send-fits :
    (q : DlqQueue) (m : DlqMessage) → length q < dlq_channel_capacity → try_send q m ≡ q ++ m ∷ []
unfolding try_send
try_send-fits q m h = ground arith

try_send-full : (q : DlqQueue) (m : DlqMessage) → dlq_channel_capacity ≤ length q → try_send q m ≡ q
unfolding try_send
try_send-full q m h = ground arith

send_all-room :
    (room : ℕ) (q : DlqQueue) (ms : List DlqMessage)
    → room + length q ≡ dlq_channel_capacity
    → send_all q ms ≡ q ++ take room ms
unfolding send_all
send_all-room zero q [] h = sym (append-nil q)
send_all-room zero q (m ∷ ms) h = rw (try_send-full q m (omega arith)) (send_all-room zero q ms h)
send_all-room (suc room) q [] h = sym (append-nil q)
send_all-room (suc room) q (m ∷ ms) h = rw (try_send-fits q m (omega arith)) (
    send_all-room room (q ++ m ∷ []) ms (omega (arith, length-append q (m ∷ [])))
    ∙ append_assoc q (m ∷ []) (take room ms))

-- Messages that are sent while nothing is received go to the end of the channel in their order,
-- as many as there is room for; all later ones are lost, and nothing that waits is displaced.
pub send_all-take :
    (q : DlqQueue) (ms : List DlqMessage)
    → length q ≤ dlq_channel_capacity
    → send_all q ms ≡ q ++ take (dlq_channel_capacity - length q) ms
send_all-take q ms h = send_all-room (dlq_channel_capacity - length q) q ms (omega arith)
