-- ===== src/Producer/Tasks.antt =====
-- The tasks of the producer's worker thread, src/producer/runtime.rs. The Kafka client is the interface
-- `Client`: each call returns the new client.
use kaf_py.Prelude.{ℕ, Option, none, some, String, concat, ℤ, List, [], ◌∷◌, ◌++◌}
use kaf_py.Configuration.Producers.{ProducerConfig}
use kaf_py.Consumer.Config.{show_bool, setting}

pub record FutureRecord : Type 0 where
  pub topic : String
  pub key : Option (List ℕ)
  pub payload : Option (List ℕ)
  pub partition : Option ℤ
  pub headers : Option (List (String × List ℕ))

-- What the client answers: a value, or the error's text.
pub data Answer (A : Type 0) : Type 0 where
  ok : A → Answer A
  err : String → Answer A

pub record Client : Type 1 where
  pub Producer : Type 0
  pub create : List (String × String) → Answer Producer
  -- It waits for the delivery, `ok (partition, offset)`, for so many milliseconds.
  pub send : Producer → FutureRecord → ℕ → Producer × Answer (ℤ × ℤ)
  pub flush : Producer → ℕ → Producer × Answer (Unit {0})
  pub in_flight_count : Producer → ℤ

pub data ProducerTask : Type 0 where
  init : ProducerTask
  send :
      String
      → Option (List ℕ)
      → Option (List ℕ)
      → Option ℤ
      → Option (List (String × List ℕ))
      → ProducerTask
  flush : ℕ → ProducerTask
  in_flight_count : ProducerTask

-- The result of a method: its value, or a `PyRuntimeError` with its text.
pub data Reply : Type 0 where
  done : Reply
  delivered : ℤ → ℤ → Reply
  count : ℤ → Reply
  runtime_error : String → Reply

-- The settings of `create_producer`, in the order of the calls of `set`.
unfoldable pub client_config : (ℕ → String) → ProducerConfig → List (String × String)
unfolding show_bool setting
client_config show_nat c =
    let f = c.fields in
    (("bootstrap.servers", c.brokers)
      ∷ ("message.timeout.ms", show_nat f.message_timeout_ms)
      ∷ ("queue.buffering.max.messages", show_nat f.queue_buffering_max_messages)
      ∷ ("queue.buffering.max.kbytes", show_nat f.queue_buffering_max_kbytes)
      ∷ ("batch.num.messages", show_nat f.batch_num_messages)
      ∷ ("compression.type", f.compression_type)
      ∷ ("linger.ms", show_nat f.linger_ms)
      ∷ ("request.timeout.ms", show_nat f.request_timeout_ms)
      ∷ ("retry.backoff.ms", show_nat f.retry_backoff_ms)
      ∷ ("retries", show_nat f.retries)
      ∷ ("max.in.flight.requests.per.connection", show_nat f.max_in_flight)
      ∷ ("enable.idempotence", show_bool f.enable_idempotence)
      ∷ ("acks", f.acks)
      ∷ [])
    ++ setting "security.protocol" f.security_protocol
    ++ setting "sasl.mechanism" f.sasl_mechanism
    ++ setting "sasl.username" f.sasl_username
    ++ setting "sasl.password" f.sasl_password

unfoldable pub delivery : Answer (ℤ × ℤ) → Reply
delivery (Answer.ok (partition, offset)) = delivered partition offset
delivery (Answer.err e) = runtime_error (concat "Failed to deliver message: " e)

flushed : Answer (Unit {0}) → Reply
flushed (Answer.ok _) = done
flushed (Answer.err e) = runtime_error (concat "Failed to flush producer: " e)

module _ (client : Client) (show_nat : ℕ → String) where
  unfoldable pub do_send : Option client.Producer → FutureRecord → Option client.Producer × Reply
  unfolding delivery
  do_send none message = (none, runtime_error "Producer not initialized")
  do_send (some p) message =
      let (p', result) = client.send p message 30000 in (some p', delivery result)

  unfoldable pub do_flush : Option client.Producer → ℕ → Option client.Producer × Reply
  unfolding flushed
  do_flush none timeout_ms = (none, runtime_error "Producer not initialized")
  do_flush (some p) timeout_ms =
      let (p', result) = client.flush p timeout_ms in (some p', flushed result)

  unfoldable pub do_in_flight_count : Option client.Producer → Reply
  do_in_flight_count none = runtime_error "Producer not initialized"
  do_in_flight_count (some p) = count (client.in_flight_count p)

  -- A round of the worker's loop. A failed `init` keeps the producer that there was.
  unfoldable pub run_task :
      ProducerConfig → Option client.Producer → ProducerTask → Option client.Producer × Reply
  unfolding client_config do_send do_flush do_in_flight_count
  run_task config producer ProducerTask.init =
      elim (client.create (client_config show_nat config)) [
        | Answer.ok p ↦ (some p, done)
        | Answer.err e ↦ (producer, runtime_error e)
      ]
  run_task config producer (ProducerTask.send topic key payload partition headers) =
      do_send producer (record {
        topic = topic;
        key = key;
        payload = payload;
        partition = partition;
        headers = headers;
      })
  run_task config producer (ProducerTask.flush timeout_ms) = do_flush producer timeout_ms
  run_task config producer ProducerTask.in_flight_count = (producer, do_in_flight_count producer)
