-- ===== src/Lib.antt =====
-- KafPy, a Kafka consumer framework for Python handlers: a model of its Rust core.
--
-- The program. The consumer hands each message to the dispatcher (src/dispatcher), which puts it on
-- the bounded channel of the handler of its topic and counts what is in flight. Workers
-- (src/worker_pool/worker.rs) and batch workers (src/worker_pool/batch_loop.rs) take messages from
-- there and run the handler. The result of a run goes to the retry coordinator (src/retry), which
-- decides between another attempt and the dead-letter queue (src/dlq), to the queue manager, which
-- counts the message as done, and to the offset tracker (src/offset/offset_tracker.rs), which knows up
-- to where each partition is acknowledged. A background task (src/offset/commit_task.rs) commits these
-- offsets, and a rebalance commits and seeks by them (src/consumer/context.rs). A message that was
-- handled also goes to the sinks of its handler (src/worker_pool/fan_out.rs). A full queue makes the
-- consumer dispatcher pause the topic. The shutdown coordinator (src/shutdown/shutdown.rs) leads the end of all of them.
--
-- The files.
-- - Prelude: the shared types and lemmas. Machine words wrap as written there: `add_usize`, `sub_usize`
--   at 64 bits, `succ_i64`, `pred_i64` for offsets. A map is an association list whose order stands for
--   the iteration order of the hash map; `Option` with `>>=` is code that may panic.
-- - Failure: src/failure/reason.rs and classifier.rs. Message: src/consumer/message.rs.
-- - Retry: src/retry/policy.rs; Retry/Coordinator: src/retry/retry_coordinator.rs (`record_failure`,
--   `record_success`, `attempt_count`). Double-precision numbers are an interface (Prelude/Float).
-- - Offset/Partition: `PartitionState` (`ack`, `mark_failed`); Offset/Tracker: `OffsetTracker` with
--   `graceful_shutdown`, and `flush_failed_to_dlq` in Offset/Tracker/Flush; Offset/Committer:
--   `OffsetCommitter`.
-- - Dlq: src/dlq/metadata.rs and router.rs; Dlq/Channel: the bounded channel of src/dlq/produce.rs.
-- - Dispatcher/Metadata and Dispatcher/Queues: src/dispatcher/queue_manager.rs; Dispatcher/Send:
--   `send` and `send_with_policy_and_signal` of src/dispatcher/mod.rs. The tokio channel is the
--   interface `Mpsc`.
-- - Shutdown: src/shutdown/shutdown.rs, and the end of `WorkerPool::shutdown`.
-- - Execution: src/execution/execution_result.rs; Execution/Buffer: src/worker_pool/accumulator.rs;
--   Execution/Batch: src/execution/batch.rs.
-- - WorkerPool: `handle_execution_failure` of src/worker_pool/mod.rs on the shared state of retry
--   coordinator, queue manager, offset tracker and dead-letter channel; WorkerPool/Worker:
--   `handle_execution_result` and the rounds of `worker_loop` for one message; WorkerPool/Batch: the
--   batch worker.
-- - WorkerPool/Loop: `worker_loop` as a whole, with the status of the workers
--   (src/observability/runtime_snapshot.rs). WorkerPool/Concurrency: src/worker_pool/concurrency.rs.
-- - FanOut: the types of src/worker_pool/fan_out.rs (`FanOutTracker`, `FanOutSlotManager`,
--   `FanOutConfig`); FanOut/Registry: `CallbackRegistry`; FanOut/Dispatch: the tasks of the sinks and
--   `wait_all`, one atomic operation for each step; FanOut/Routing: what `process_fan_out` of
--   src/worker_pool/worker.rs makes of the results.
-- - Dispatcher/Consumer: src/dispatcher/consumer_dispatcher.rs, over the interface `Client`.
-- - Consumer: src/consumer/context.rs; Consumer/Config: src/consumer/config.rs.
-- - Execution/Handler: src/execution/callback.rs and src/middleware/chain.rs.
-- - Middleware: src/middleware/callback.rs and metrics.rs, and the sink of an invocation in
--   src/execution/callback.rs.
-- - Runtime: the registration of handlers, src/consumer/runtime.rs and src/execution/fan_out.rs, and the
--   handlers, limits and capacities of src/runtime/builder.rs.
-- - Configuration: src/config.rs and the policies of src/bindings.rs; Configuration/Environment: how
--   `from_env` reads the environment, Configuration/Consumers and Configuration/Producers: the builders.
-- - Runtime/Client: the configuration of the client that src/runtime/builder.rs makes of the Python one;
--   Runtime/Workers: its worker pool.
-- - WorkerPool/Pool: `new` and `run` of src/worker_pool/pool.rs, `shutdown` in WorkerPool/Pool/Shutdown. Consumer/Runner: src/consumer/runner.rs,
--   where each turn of the loop, of the stream and of the client is an action. Consumer/Runner/Startup is
--   its `new`.
-- - Producer: src/producer/runtime.rs, with its thread; Producer/Tasks: the tasks over the interface of
--   the client.
-- - Observability/Labels, Observability/Metrics and Observability/Recorders: src/observability/metrics.rs;
--   Observability/Snapshots: src/observability/runtime_snapshot.rs; Observability/Traces:
--   src/observability/tracing.rs and what a worker reads of it.
-- - Examples: the theorems at concrete inputs.
--
-- State. A method that changes its object returns the new state. Methods that hold a lock are single
-- steps. Times, random draws, the texts of numbers and the results of handlers are arguments.
--
-- Bounds and fuel. The loop of `PartitionState::ack` takes one pending offset in each round, so their
-- number is fuel enough. The rounds of a worker on one message run over a list of handler results; as
-- many as the attempts of the policy are enough. Offsets are below i64::MAX where a theorem says so.
--
-- Schedules. Tasks that run at the same time are stages in one state, and a list of actions says which
-- takes its next step; a theorem about every list holds for every interleaving. Only `branch` ids below
-- 256 fit the counters of a fan-out, so that its theorems speak of at most 255 sinks.
--
-- Not modelled: what a Python call does, the client library, the export of metrics, spans and logs,
-- which the processing does not depend on; the start and stop of the consumer from Python, and the
-- tasks that the runtime spawns.
pub mod Prelude
pub mod Failure
pub mod Retry
pub mod Offset
pub mod Dlq
pub mod Message
pub mod Dispatcher
pub mod Shutdown
pub mod Execution
pub mod WorkerPool
pub mod FanOut
pub mod Consumer
pub mod Configuration
pub mod Observability
pub mod Middleware
pub mod Producer
pub mod Runtime
pub mod Examples
