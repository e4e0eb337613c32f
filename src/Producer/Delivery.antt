-- ===== src/Producer/Delivery.antt =====
-- What a sequence of calls on `PyProducer` of src/producer/runtime.rs comes to.
use kaf_py.Prelude.{
  ℕ, ℤ, concat, ◌≡◌, refl, sym, subst, Bool, true, false, none, some, String, List, [], ◌∷◌, All,
}
use kaf_py.Configuration.Producers.{ProducerConfig}
use kaf_py.Producer.Tasks.{
  Client, ProducerTask, Reply, FutureRecord, Answer, client_config, run_task, do_send, do_flush,
  do_in_flight_count, delivery,
}
use kaf_py.Producer
use kaf_py.Producer.{PyProducer, Thread, new, send, submit}

-- A call of a method; the flush, the sends and the count are the tasks.
pub data Method : Type 0 where
  init : Thread → Method
  task : ProducerTask → Method

module _ (client : Client) (show_nat : ℕ → String) where
  abbrev pub method : PyProducer client.Producer → Method → PyProducer client.Producer × Reply
  method s (Method.init thread) = kaf_py.Producer.init client show_nat s thread
  method s (Method.task t) = submit client show_nat s t

  abbrev pub replies : PyProducer client.Producer → List Method → List Reply
  replies s [] = []
  replies s (m ∷ ms) = (method s m).1 ∷ replies (method s m).0 ms

  -- Messages that are sent one after the other.
  abbrev pub send_all :
      PyProducer client.Producer → List FutureRecord → PyProducer client.Producer × List Reply
  send_all s [] = (s, [])
  send_all s (m ∷ ms) =
      let (s', reply) = send client show_nat s m.topic m.key m.payload m.partition m.headers in
      let (s'', rest) = send_all s' ms in (s'', reply ∷ rest)

  -- The client's answer as Python gets it.
  abbrev pub reply_of : Answer (ℤ × ℤ) → Reply
  reply_of (Answer.ok place) = Reply.delivered place.0 place.1
  reply_of (Answer.err text) = Reply.runtime_error (concat "Failed to deliver message: " text)

  reply_of-delivery : (answer : Answer (ℤ × ℤ)) → delivery answer ≡ reply_of answer
  unfolding delivery
  reply_of-delivery (Answer.ok (partition, offset)) = refl
  reply_of-delivery (Answer.err text) = refl

  -- The client alone, with the time-out of 30 seconds.
  abbrev pub deliver_all : client.Producer → List FutureRecord → client.Producer × List Reply
  deliver_all p [] = (p, [])
  deliver_all p (m ∷ ms) =
      let (p', result) = client.send p m 30000 in
      let (p'', rest) = deliver_all p' ms in (p'', reply_of result ∷ rest)

  -- The state once an `init` has succeeded.
  abbrev pub ready : ProducerConfig → client.Producer → PyProducer client.Producer
  ready config p = record { producer = some p; config = config; task_tx = true; has_worker = true }

  init-ready :
      (config : ProducerConfig) (p : client.Producer)
      → client.create (client_config show_nat config) ≡ Answer.ok p
      → kaf_py.Producer.init client show_nat (new config) Thread.runs ≡ (ready config p, Reply.done)
  unfolding kaf_py.Producer.init new
  init-ready config p e = rw (run_task, e) refl

  send_all-ready :
      (config : ProducerConfig) (p : client.Producer) (messages : List FutureRecord)
      → let (p', rest) = deliver_all p messages in
        send_all (ready config p) messages ≡ (ready config p', rest)
  unfolding send
  send_all-ready config p [] = refl
  send_all-ready config p (m ∷ ms) =
      rw
        (
          send_all-ready config (client.send p m 30000).0 ms,
          reply_of-delivery (client.send p m 30000).1,
        )
        refl

  -- After an `init` that creates a client, the replies to messages that are sent one after the other
  -- are the partition and the offset of each delivery, or the text of its failure, as the client answers, in the order of the messages, and the client is left as by these
  -- sends alone.
  pub send_all-deliver_all :
      (config : ProducerConfig) (p : client.Producer) (messages : List FutureRecord)
      → client.create (client_config show_nat config) ≡ Answer.ok p
      → let (p', rest) = deliver_all p messages in
        send_all (kaf_py.Producer.init client show_nat (new config) Thread.runs).0 messages
        ≡ (ready config p', rest)
  send_all-deliver_all config p messages e =
      rw (init-ready config p e) (send_all-ready config p messages)

  abbrev pub IsError : Reply → Type 0
  IsError reply = (text : String) × (reply ≡ Reply.runtime_error text)

  task-IsError :
      (config : ProducerConfig) (t : ProducerTask) (error : String)
      → client.create (client_config show_nat config) ≡ Answer.err error
      → ((run_task client show_nat config none t).0 ≡ none)
        × IsError (run_task client show_nat config none t).1
  unfolding run_task do_send do_flush do_in_flight_count
  task-IsError config ProducerTask.init error e =
      (rw (run_task, e) refl, (error, rw (run_task, e) refl))
  task-IsError config (ProducerTask.send topic key payload partition headers) error e =
      (refl, (_, refl))
  task-IsError config (ProducerTask.flush ms) error e = (refl, (_, refl))
  task-IsError config ProducerTask.in_flight_count error e = (refl, (_, refl))

  -- A state without a client.
  abbrev unready : ProducerConfig → Bool → Bool → PyProducer client.Producer
  unready config tx worker = record {
    producer = none;
    config = config;
    task_tx = tx;
    has_worker = worker;
  }

  submit-unready :
      (config : ProducerConfig) (t : ProducerTask) (error : String) (tx worker : Bool)
      → client.create (client_config show_nat config) ≡ Answer.err error
      → ((submit client show_nat (unready config tx worker) t).0 ≡ unready config tx worker)
        × IsError (submit client show_nat (unready config tx worker) t).1
  unfolding submit
  submit-unready config t error true true e =
      let h = task-IsError config t error e in (rw (h.0) refl, h.1)
  submit-unready config t error true false e = (refl, (_, refl))
  submit-unready config t error false worker e = (refl, (_, refl))

  init-unready :
      (config : ProducerConfig) (thread : Thread) (error : String) (tx worker : Bool)
      → client.create (client_config show_nat config) ≡ Answer.err error
      → let (s', reply) = kaf_py.Producer.init client show_nat (unready config tx worker) thread in
        (tx' : Bool) × (worker' : Bool) × (s' ≡ unready config tx' worker') × IsError reply
  unfolding kaf_py.Producer.init
  init-unready config Thread.runs error tx worker e =
      let h = submit-unready config ProducerTask.init error true true e in (true, true, h.0, h.1)
  init-unready config Thread.ended_before error tx worker e = (true, false, refl, (_, refl))
  init-unready config Thread.ended_after error tx worker e = (true, false, refl, (_, refl))

  method-unready :
      (config : ProducerConfig) (m : Method) (error : String) (tx worker : Bool)
      → client.create (client_config show_nat config) ≡ Answer.err error
      → (tx' : Bool) × (worker' : Bool) × ((method (unready config tx worker) m).0
          ≡ unready config tx' worker')
        × IsError (method (unready config tx worker) m).1
  method-unready config (Method.init thread) error tx worker e =
      init-unready config thread error tx worker e
  method-unready config (Method.task t) error tx worker e =
      let h = submit-unready config t error tx worker e in (tx, worker, h.0, h.1)

  replies-unready :
      (config : ProducerConfig) (methods : List Method) (error : String) (tx worker : Bool)
      → client.create (client_config show_nat config) ≡ Answer.err error
      → All IsError (replies (unready config tx worker) methods)
  replies-unready config [] error tx worker e = tt
  replies-unready config (m ∷ ms) error tx worker e =
      let (tx', worker', same, failed) = method-unready config m error tx worker e in
      (
        failed,
        subst (λ s. All IsError (replies s ms)) (sym same)
            (replies-unready config ms error tx' worker' e),
      )

  -- As long as the client cannot be created from the configuration, every call on a new producer ends
  -- with an error, in any order of the calls, and wherever the thread of an `init` ends.
  pub replies-IsError :
      (config : ProducerConfig) (methods : List Method) (error : String)
      → client.create (client_config show_nat config) ≡ Answer.err error
      → All IsError (replies (new config) methods)
  unfolding new
  replies-IsError config methods error e = replies-unready config methods error false false e
