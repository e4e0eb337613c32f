-- ===== src/Examples/Loops.antt =====
-- A worker that picks up a message, and a handler with two middlewares.
use kaf_py.Prelude.{
  ℕ, ◌≡◌, refl, pos, ◌==◌, string_eq, false, none, some, String, List, [], ◌∷◌, if◌then◌else◌,
}
use kaf_py.Prelude.Map
use kaf_py.Message.{OwnedMessage}
use kaf_py.Dlq.{DlqRouter, route, with_default_prefix}
use kaf_py.Execution.{is_ok}
use kaf_py.Execution.Handler.{
  HandlerMode, PythonHandler, Called, Hook, invoke_mode_with_timeout_override,
}
use kaf_py.Execution.Handler.Invocations.{nested, invoke-nested}
use kaf_py.WorkerPool.Worker.{WorkerState}
use kaf_py.WorkerPool.Loop.{idle, received, Worker, set_active, round, worker_loop}
use kaf_py.WorkerPool.Loop.Status.{Shows, IsShown, worker_loop-IsShown}
use kaf_py.Middleware.{kind_of, invocation_sink}
use kaf_py.Middleware.Sinks.{invocation_sink_lem}
use kaf_py.Examples.{whole, order, plain}
use kaf_py.Examples.Workers.{system}

abbrev router : DlqRouter
router = route with_default_prefix

abbrev resting : Worker ℕ ℕ
resting = record {
  shared = system;
  state = WorkerState.idle;
  pool_state = (0, idle) ∷ [];
  dispatched = [];
  stopped = false;
}

resting-IsShown : IsShown whole plain router 9 0 resting
unfolding IsShown Shows Map.get
resting-IsShown = refl

abbrev working : Worker ℕ ℕ
working = record resting {
  state = WorkerState.processing order;
  pool_state = set_active resting.pool_state 0 "orders" "orders" order.partition order.offset;
}

picked_up : worker_loop whole plain router 9 0 (received order ∷ []) resting ≡ some working
unfolding worker_loop round
picked_up = refl

worker_loop-IsShown_example : IsShown whole plain router 9 0 working
worker_loop-IsShown_example =
    worker_loop-IsShown whole plain router 9 0 (received order ∷ []) resting working resting-IsShown
      picked_up

abbrev handler : PythonHandler ℕ String ℕ ℕ
handler = record {
  callback = 3;
  retry_policy = none;
  mode = HandlerMode.batch_sync;
  batch_policy = none;
  handler_timeout = some 5000000;
  name = "orders";
  middleware = some ("logging" ∷ "metrics" ∷ []);
  fan_out = none;
}

-- Every call returns.
abbrev returns : ℕ → List OwnedMessage → Called
returns callback messages = Called.returned

invoke-nested_example :
    let (result, hooks) = invoke_mode_with_timeout_override returns handler order none 9000000 in
    hooks
    ≡ nested
        (λ m. if is_ok result then Hook.after m else Hook.on_error m)
        ("logging" ∷ "metrics" ∷ [])
invoke-nested_example = invoke-nested returns handler order none 9000000

abbrev type_name : String → String
type_name middleware = if middleware == "metrics" then "Metrics" else "Logging"

-- The handler comes to an end within its five milliseconds.
invocation_sink_lem_example :
    let (result, hooks) = invoke_mode_with_timeout_override returns handler order none 4000000 in
    let counters =
      (invocation_sink type_name "orders" result 4000000 whole
        (λ i. 0)
        (λ n. "n")
        (λ i. "i")
        pos
        hooks).counters in
    (Map.get "kafpy.message.throughput" counters ≡ some 1)
    × (Map.get "kafpy.handler.error" counters ≡ some 0)
unfolding kind_of invoke_mode_with_timeout_override is_ok
invocation_sink_lem_example =
    invocation_sink_lem returns type_name whole (λ i. 0) (λ n. "n") (λ i. "i") pos handler order
      none 4000000
