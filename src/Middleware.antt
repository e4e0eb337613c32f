-- ===== src/Middleware.antt =====
-- The middleware of src/middleware: which one an instance of Python becomes (callback.rs), and what the
-- built-in `Metrics` records (metrics.rs). `Logging` only writes to the log, and a custom one calls Python.
pub mod Sinks
use kaf_py.Prelude.{ℕ, String, ℤ, List, [], ◌∷◌, ◌++◌, Float64, ◌==◌, string_eq, if◌then◌else◌}
use kaf_py.Execution.{ExecutionResult, is_ok}
use kaf_py.Execution.Handler.{Hook}
use kaf_py.Observability.Labels.{MetricLabels, insert}
use kaf_py.Observability.Metrics.{PrometheusSink, Recording, perform_all, shared}
use kaf_py.Observability.Recorders.{Recorder, recordings}

pub data Kind : Type 0 where
  logging metrics python : Kind

-- By the name of its type in Python, as `build_middleware_chain` tests it.
unfoldable pub kind_of : String → Kind
kind_of type_name =
    if type_name == "Logging" then logging else if type_name == "Metrics" then metrics else python

unfoldable pub metric_labels : String → MetricLabels
metric_labels topic = insert (insert [] "handler_id" topic) "topic" topic

-- `after` of the metrics.
unfoldable pub record_after : String → ExecutionResult → ℕ → List Recorder
record_after topic result elapsed =
    Recorder.record_latency (metric_labels topic) elapsed
    ∷ (if is_ok result then Recorder.record_throughput topic topic "SingleSync" ∷ [] else [])

-- `on_error` of the metrics.
unfoldable pub record_on_error : String → List Recorder
record_on_error topic = Recorder.record_error (metric_labels topic) ∷ []

-- What the hooks of a kind record.
unfoldable pub after_of : Kind → String → ExecutionResult → ℕ → List Recorder
unfolding record_after
after_of logging topic result elapsed = []
after_of metrics topic result elapsed = record_after topic result elapsed
after_of python topic result elapsed = []

unfoldable pub on_error_of : Kind → String → List Recorder
unfolding record_on_error
on_error_of logging topic = []
on_error_of metrics topic = record_on_error topic
on_error_of python topic = []

module _ {Middleware : Type 0} (type_name : Middleware → String) (topic : String)
    (result : ExecutionResult) (elapsed : ℕ) where
  unfoldable pub hook : Hook Middleware → List Recorder
  unfolding kind_of after_of on_error_of
  hook (Hook.before m) = []
  hook (Hook.after m) = after_of (kind_of (type_name m)) topic result elapsed
  hook (Hook.on_error m) = on_error_of (kind_of (type_name m)) topic

  module _ (fl : Float64) (of_i64 : ℤ → fl.F64) (show_nat : ℕ → String) (show_int : ℤ → String)
      (as_i64 : fl.F64 → ℤ) where
    unfoldable record_all : List Recorder → List (Recording fl.F64)
    record_all [] = []
    record_all (r ∷ rs) = recordings fl of_i64 show_nat show_int r ++ record_all rs

    unfoldable pub record_hooks : List (Hook Middleware) → List (Recording fl.F64)
    unfolding hook record_all
    record_hooks [] = []
    record_hooks (h ∷ hooks) = record_all (hook h) ++ record_hooks hooks

    -- The sink of an invocation, which is new for each of them, after its hooks.
    unfoldable pub invocation_sink : List (Hook Middleware) → PrometheusSink fl.F64
    unfolding record_hooks
    invocation_sink hooks = perform_all as_i64 shared (record_hooks hooks)
