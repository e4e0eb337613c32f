-- ===== src/Examples/Dispatches.antt =====
-- Sends on concrete channels.
use kaf_py.Prelude.{ℕ, ◌≡◌, ◌≢◌, refl, some, [], ◌∷◌, arith, string_eq}
use kaf_py.Message.{OwnedMessage}
use kaf_py.Dispatcher.Metadata.{HandlerMetadata, IsBalanced}
use kaf_py.Dispatcher.Queues.{Mpsc, sent, full, HandlerEntry, QueueManager}
use kaf_py.Dispatcher.Send.Counters.{send_each, refused_sends_exhaust}
use kaf_py.Examples.{order}

abbrev stuck : Mpsc
stuck = record { Sender = ℕ; channel = λ n. n; try_send = λ s m. (s, full) }

stuck_refuses : (s : ℕ) (m : OwnedMessage) → (stuck.try_send s m).1 ≢ sent
stuck_refuses s m = λ e. cc e

abbrev pub limited : HandlerMetadata
limited = record {
  capacity = 4;
  queue_depth = 1;
  inflight = 1;
  semaphore = some 2;
  outstanding_permits = 1;
  semaphore_limit = 2;
}

limited-IsBalanced : IsBalanced limited
limited-IsBalanced = record {
  same = refl;
  in_range = omega arith;
  limited = omega arith;
  limit_in_range = omega arith;
}

abbrev pub entry : HandlerEntry ℕ
entry = record { sender = 0; metadata = limited }

abbrev pub queues : QueueManager ℕ
queues = ("orders", entry) ∷ ("payments", entry) ∷ []

refused_sends_exhaust_example :
    ((send_each stuck entry (order ∷ [])).metadata.outstanding_permits ≡ 2)
    × ((send_each stuck entry (order ∷ [])).metadata.inflight ≡ 1)
refused_sends_exhaust_example =
    refused_sends_exhaust stuck stuck_refuses entry (order ∷ []) 2 limited-IsBalanced (omega arith)
      refl (omega arith)
