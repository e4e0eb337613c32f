-- ===== src/Examples/Producers.antt =====
-- A client that refuses the topic "closed".
use kaf_py.Prelude.{ℕ, ◌+◌, ◌≡◌, refl, none, String, pos, [], ◌∷◌, string_eq, ◌==◌, if◌then◌else◌}
use kaf_py.Configuration.Producers.{ProducerConfig, default_fields}
use kaf_py.Producer
use kaf_py.Producer.{Thread, new}
use kaf_py.Producer.Tasks.{Client, Answer, FutureRecord}
use kaf_py.Producer.Delivery.{send_all, deliver_all, ready, send_all-deliver_all}

-- Its state counts the messages.
abbrev counting : Client
counting = record {
  Producer = ℕ;
  create = λ settings. Answer.ok 0;
  send = λ n m timeout.
      (n + 1, if m.topic == "closed" then Answer.err "UnknownTopic" else Answer.ok (pos 0, pos n));
  flush = λ n timeout. (n, Answer.ok tt);
  in_flight_count = λ n. pos 0;
}

abbrev config : ProducerConfig
config = record { brokers = "broker:9092"; fields = default_fields }

abbrev to : String → FutureRecord
to topic = record { topic = topic; key = none; payload = none; partition = none; headers = none }

send_all-deliver_all_example :
    send_all counting
      (λ n. "n")
      (Producer.init counting (λ n. "n") (new config) Thread.runs).0
      (to "orders" ∷ to "closed" ∷ [])
    ≡ (
      ready counting (λ n. "n") config 2,
      (deliver_all counting (λ n. "n") 0 (to "orders" ∷ to "closed" ∷ [])).1,
    )
send_all-deliver_all_example =
    send_all-deliver_all counting (λ n. "n") config 0 (to "orders" ∷ to "closed" ∷ []) refl
