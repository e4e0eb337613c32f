-- ===== src/Examples/Runners.antt =====
-- A pool of two workers, a consumer with three topics and two workers, and a loop of the runner.
use kaf_py.Prelude.{
  ℕ, ◌≤◌, ◌≡◌, true, false, none, some, String, List, [], ◌∷◌, ◌++◌, arith, length, take,
}
use kaf_py.Prelude.Map.{Map, keys}
use kaf_py.Message.{OwnedMessage}
use kaf_py.Execution.Handler.{HandlerMode}
use kaf_py.WorkerPool.Pool.{WorkerTask, new_states}
use kaf_py.WorkerPool.Pool.Topics.{ServesByMode}
use kaf_py.Runtime.{HandlerMetadata, handler_map}
use kaf_py.Runtime.Workers.{workers_of, pool_of, pool_of-Serves}
use kaf_py.Consumer.Runner.{
  Loop, Action, signals, proceeds, takes, delivers, message, other_error, new_loop, signal, act_all,
  ended, capacity, sending,
}
use kaf_py.Consumer.Runner.Delivery.{got, Missing, act_all-new_loop}
use kaf_py.Consumer.Runner.Stopping.{contents, signal-ended}
use kaf_py.Examples.{order}

abbrev meta : ℕ → HandlerMetadata ℕ ℕ
meta callback = record {
  callback = callback;
  mode = HandlerMode.single_sync;
  batch_max_size = none;
  batch_max_wait_ms = none;
  timeout_ms = none;
  concurrency = none;
  middleware = none;
  fan_out_config = none;
}

abbrev three_topics : Map String (HandlerMetadata ℕ ℕ)
three_topics = ("orders", meta 1) ∷ ("payments", meta 2) ∷ ("refunds", meta 3) ∷ []

pool_of-Serves_example :
    (tasks : List WorkerTask) × (pool_of {Policy = ℕ} (some 2) 9 none [] three_topics
      ≡ some (tasks, new_states (workers_of (some 2))))
    × ServesByMode
        (handler_map {Policy = ℕ} 9 none [] three_topics)
        (take (workers_of (some 2)) (keys three_topics))
        tasks
pool_of-Serves_example = pool_of-Serves {Policy = ℕ} (some 2) 9 none [] three_topics

abbrev actions : List Action
actions =
    delivers (message order)
    ∷ proceeds
    ∷ delivers other_error
    ∷ proceeds
    ∷ takes
    ∷ delivers (message order)
    ∷ signals
    ∷ proceeds
    ∷ []

act_all-new_loop_example :
    let l = act_all new_loop actions in
    (missing : List OwnedMessage) × (got new_loop actions ≡ (l.taken ++ l.channel) ++ missing)
    × Missing l.phase missing
    × (length l.channel ≤ capacity)
act_all-new_loop_example = act_all-new_loop actions

abbrev full : Loop
full = record {
  phase = sending order;
  signalled = false;
  channel = order ∷ [];
  taken = [];
  has_receiver = true;
}

signal-ended_example :
    ((act_all (signal full) (proceeds ∷ takes ∷ proceeds ∷ [])).phase ≡ ended)
    × (contents (act_all (signal full) (proceeds ∷ takes ∷ proceeds ∷ [])) ≡ contents full)
signal-ended_example = signal-ended full (proceeds ∷ takes ∷ proceeds ∷ []) (omega arith)
