-- ===== src/Runtime.antt =====
-- The registration of handlers, src/consumer/runtime.rs and src/execution/fan_out.rs, and what
-- src/runtime/builder.rs makes of it. A Python object and a retry policy are values of types that are
-- arguments; the environment variables are arguments of the functions that read them.
pub mod Client
pub mod Sinks
pub mod Limits
pub mod Workers
use kaf_py.Prelude.{
  ℕ, ◌+◌, ◌*◌, ◌%◌, min, Bool, true, false, Option, none, some, String, concat, List, [], ◌∷◌, ltb,
  if◌then◌else◌, string_eq, usize_mod,
}
use kaf_py.Prelude.Map
use kaf_py.Prelude.Map.{Map}
use kaf_py.FanOut.{FanOutConfig}
use kaf_py.Execution.Handler
use kaf_py.Execution.Handler.{HandlerMode, from_opt_str, BatchPolicy, PythonHandler, or_else}
use kaf_py.WorkerPool.Concurrency.{HandlerConcurrency, set_limit}
use kaf_py.WorkerPool.Concurrency

pub record HandlerMetadata (Object Sink : Type 0) : Type 0 where
  pub callback : Object
  pub mode : HandlerMode
  pub batch_max_size : Option ℕ
  pub batch_max_wait_ms : Option ℕ
  pub timeout_ms : Option ℕ
  pub concurrency : Option ℕ
  pub middleware : Option (List Object)
  pub fan_out_config : Option (FanOutConfig Sink)

-- The configuration and the shutdown token, which no registration reads, are left out.
pub record PyConsumer (Object Policy Sink : Type 0) : Type 0 where
  pub handlers : Map String (HandlerMetadata Object Sink)
  pub fan_out_handlers : Map String (PythonHandler Object Object Policy Sink)

-- `Duration::from_millis`, in nanoseconds.
unfoldable pub from_millis : Option ℕ → Option ℕ
from_millis none = none
from_millis (some ms) = some (ms * 1000000)

-- A call of the Python side.
pub data Registration (Object : Type 0) : Type 0 where
  add_handler :
      String
      → Object
      → Option String
      → Option ℕ
      → Option ℕ
      → Option ℕ
      → Option ℕ
      → Option (List Object)
      → Registration Object
  register_fanout : String → List String → Object → Option ℕ → Option ℕ → Registration Object

-- `or` of the given mode and the default one.
unfoldable pub resolved_mode : Option String → Option String → Option String
resolved_mode none default_mode = default_mode
resolved_mode (some mode) default_mode = some mode

unfoldable pub max_or_four : Option ℕ → ℕ
max_or_four none = 4
max_or_four (some n) = min n 64

-- The argument `py_none` is the object None.
module _ {Object Policy Sink : Type 0} (py_none : Object) where
  unfoldable pub add_handler_with_fan_out :
      PyConsumer Object Policy Sink
      → String
      → PythonHandler Object Object Policy Sink
      → FanOutConfig Sink
      → PyConsumer Object Policy Sink
  add_handler_with_fan_out c topic handler config = record {
    handlers =
        Map.insert topic
          (record {
            callback = py_none;
            mode = HandlerMode.single_sync;
            batch_max_size = none;
            batch_max_wait_ms = none;
            timeout_ms = none;
            concurrency = none;
            middleware = none;
            fan_out_config = some config;
          })
          c.handlers;
    fan_out_handlers = Map.insert topic handler c.fan_out_handlers;
  }

  -- The loop over the sink topics.
  unfoldable pub register_sinks :
      String
      → Object
      → HandlerMode
      → Option ℕ
      → ℕ
      → List String
      → PyConsumer Object Policy Sink
      → PyConsumer Object Policy Sink
  unfolding add_handler_with_fan_out from_millis
  register_sinks group callback mode timeout_ms max [] c = c
  register_sinks group callback mode timeout_ms max (topic ∷ topics) c =
      let handler : PythonHandler Object Object Policy Sink =
        Handler.new callback none mode none (from_millis timeout_ms)
          (concat group (concat "[" (concat topic "]"))) none in
      register_sinks group callback mode timeout_ms max topics (
        add_handler_with_fan_out c topic handler
          (record { sinks = []; max_fan_out = max; slot_manager = none }))

  -- The result is the consumer, the group's name and id, and the global counter.
  unfoldable pub register_into_consumer :
      String
      → Object
      → HandlerMode
      → Option ℕ
      → ℕ
      → List String
      → PyConsumer Object Policy Sink
      → ℕ
      → PyConsumer Object Policy Sink × (String × ℕ) × ℕ
  unfolding register_sinks
  register_into_consumer group callback mode timeout_ms max topics c counter = (
    register_sinks group callback mode timeout_ms max topics c,
    (group, counter),
    (counter + 1) % usize_mod,
  )

  unfoldable pub register :
      Option String
      → PyConsumer Object Policy Sink
      → ℕ
      → Registration Object
      → PyConsumer Object Policy Sink × ℕ
  unfolding register_into_consumer resolved_mode max_or_four
  register default_mode c counter
        (add_handler topic callback mode max_size max_wait timeout_ms concurrency middleware) =
      (
        record c {
          handlers =
              Map.insert topic
                (record {
                  callback = callback;
                  mode = from_opt_str (resolved_mode mode default_mode);
                  batch_max_size = max_size;
                  batch_max_wait_ms = max_wait;
                  timeout_ms = timeout_ms;
                  concurrency = concurrency;
                  middleware = middleware;
                  fan_out_config = none;
                })
                c.handlers;
        },
        counter,
      )
  register default_mode c counter (register_fanout group topics callback max_fan_out timeout_ms) =
      let (c', (name, fan_out_id), counter') =
        register_into_consumer group callback (from_opt_str none) timeout_ms
          (max_or_four max_fan_out) topics c counter in
      (c', counter')

  unfoldable pub register_all :
      Option String
      → List (Registration Object)
      → PyConsumer Object Policy Sink
      → ℕ
      → PyConsumer Object Policy Sink × ℕ
  unfolding register
  register_all default_mode [] c counter = (c, counter)
  register_all default_mode (r ∷ rs) c counter =
      let (c', counter') = register default_mode c counter r in
      register_all default_mode rs c' counter'

unfoldable pub new : {Object Policy Sink : Type 0} → PyConsumer Object Policy Sink
new = record { handlers = []; fan_out_handlers = [] }

unfoldable pub batch_policy : Option ℕ → Option ℕ → Option BatchPolicy
batch_policy none wait = none
batch_policy (some size) wait =
    some (record {
      max_batch_size = size;
      max_batch_wait_ms = elim wait [ none ↦ 1000 | some ms ↦ ms ];
    })

module _ {Object Policy Sink : Type 0} where
  -- The handler of a topic that is no sink.
  unfoldable pub plain_handler :
      Policy
      → Option ℕ
      → String
      → HandlerMetadata Object Sink
      → PythonHandler Object Object Policy Sink
  unfolding from_millis batch_policy
  plain_handler policy default_timeout topic meta =
      Handler.new meta.callback (some policy) meta.mode
        (batch_policy meta.batch_max_size meta.batch_max_wait_ms)
        (or_else (from_millis meta.timeout_ms) default_timeout) topic meta.middleware

  -- The handlers by topic; `fan_out_handlers` goes before the metadata.
  unfoldable pub handler_map :
      Policy
      → Option ℕ
      → Map String (PythonHandler Object Object Policy Sink)
      → Map String (HandlerMetadata Object Sink)
      → Map String (PythonHandler Object Object Policy Sink)
  unfolding plain_handler
  handler_map policy default_timeout fan_out [] = []
  handler_map policy default_timeout fan_out ((topic, meta) ∷ metas) =
      let rest = handler_map policy default_timeout fan_out metas in
      elim (Map.get topic fan_out) [
        | some handler ↦ (topic, handler) ∷ rest
        | none ↦ (topic, plain_handler policy default_timeout topic meta) ∷ rest
      ]

-- A limit of zero is no limit of its own.
unfoldable pub set_limits :
    {Object Sink : Type 0}
    → HandlerConcurrency
    → Map String (HandlerMetadata Object Sink)
    → HandlerConcurrency
set_limits hc [] = hc
set_limits hc ((topic, meta) ∷ metas) = elim meta.concurrency [
  | none ↦ set_limits hc metas
  | some limit ↦ set_limits (if ltb 0 limit then set_limit hc topic limit else hc) metas
]

-- The variable KAFPY_HANDLER_CONCURRENCY_DEFAULT, `none` when it is not set or no number.
unfoldable pub default_concurrency : Option ℕ → ℕ
default_concurrency none = 4
default_concurrency (some n) = if ltb 0 n then n else 4

unfoldable pub handler_concurrency :
    {Object Sink : Type 0}
    → Option ℕ
    → Map String (HandlerMetadata Object Sink)
    → HandlerConcurrency
unfolding default_concurrency set_limits
handler_concurrency variable metas =
    set_limits (Concurrency.new (default_concurrency variable)) metas

unfoldable pub queue_capacity : ℕ → ℕ
queue_capacity message_batch_size =
    let burst = message_batch_size * 10 % usize_mod in if ltb burst 1000 then 1000 else burst
