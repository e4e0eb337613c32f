-- ===== src/Producer.antt =====
-- `PyProducer` of src/producer/runtime.rs: the methods that Python calls, each of which waits for the
-- worker thread to do its task.
pub mod Tasks
pub mod Delivery
use kaf_py.Prelude.{ℕ, Bool, true, false, Option, none, some, String, ℤ, List, if◌then◌else◌}
use kaf_py.Configuration.Producers.{ProducerConfig}
use kaf_py.Producer.Tasks.{Client, ProducerTask, Reply, runtime_error, run_task}

-- `has_worker` while the worker thread takes tasks.
pub record PyProducer (Producer : Type 0) : Type 0 where
  pub producer : Option Producer
  pub config : ProducerConfig
  pub task_tx : Bool
  pub has_worker : Bool

unfoldable pub new : {Producer : Type 0} → ProducerConfig → PyProducer Producer
new config = record { producer = none; config = config; task_tx = false; has_worker = false }

-- The drop of the object closes the channel and joins the thread.
unfoldable pub drop : {Producer : Type 0} → PyProducer Producer → PyProducer Producer
drop s = record s { task_tx = false; has_worker = false }

-- How `init` finds the thread that it spawns: it took the task, or it ended, for want of a runtime,
-- before or after the task was sent.
pub data Thread : Type 0 where
  runs ended_before ended_after : Thread

module _ (client : Client) (show_nat : ℕ → String) where
  -- A task that is sent to the worker and waited for. The channel of a thread that ended is closed.
  unfoldable pub submit :
      PyProducer client.Producer → ProducerTask → PyProducer client.Producer × Reply
  unfolding run_task
  submit s task =
      if s.task_tx
      then (if s.has_worker
          then (
            record s { producer = (run_task client show_nat s.config s.producer task).0 },
            (run_task client show_nat s.config s.producer task).1,
          )
          else (s, runtime_error "channel closed"))
      else (s, runtime_error "Producer not initialized")

  unfoldable pub init : PyProducer client.Producer → Thread → PyProducer client.Producer × Reply
  unfolding submit
  init s runs = submit (record s { task_tx = true; has_worker = true }) ProducerTask.init
  init s ended_before =
      (record s { task_tx = true; has_worker = false }, runtime_error "Worker channel closed")
  init s ended_after = (
    record s { task_tx = true; has_worker = false },
    runtime_error "Worker thread died during producer init",
  )

  unfoldable pub send :
      PyProducer client.Producer
      → String
      → Option (List ℕ)
      → Option (List ℕ)
      → Option ℤ
      → Option (List (String × List ℕ))
      → PyProducer client.Producer × Reply
  unfolding submit
  send s topic key payload partition headers =
      submit s (ProducerTask.send topic key payload partition headers)

  unfoldable pub flush : PyProducer client.Producer → Option ℕ → PyProducer client.Producer × Reply
  unfolding submit
  flush s timeout_ms =
      submit s (ProducerTask.flush (elim timeout_ms [ none ↦ 10000 | some ms ↦ ms ]))

  unfoldable pub in_flight_count : PyProducer client.Producer → PyProducer client.Producer × Reply
  unfolding submit
  in_flight_count s = submit s ProducerTask.in_flight_count
