-- ===== src/Execution/Handler.antt =====
-- `PythonHandler` of src/execution/callback.rs and `MiddlewareChain` of src/middleware/chain.rs. A Python
-- callable, a middleware and a retry policy are values of types that are arguments, and what a call of the
-- callable comes to is an argument. A duration is a number of nanoseconds.
pub mod Invocations
use mathlib.Core.List.{reverse}
use kaf_py.Prelude.{
  ℕ, ◌/◌, ◌%◌, Bool, true, false, Option, none, some, String, ℤ, List, [], ◌∷◌, ◌++◌, map, ltb,
  if◌then◌else◌, usize_mod, string_eq, ◌==◌,
}
use kaf_py.Failure.{FailureReason, TerminalKind, classify}
use kaf_py.Message.{OwnedMessage}
use kaf_py.Execution.{ExecutionResult, BatchExecutionResult, all_success, all_failure, is_ok}
use kaf_py.FanOut.{FanOutConfig}

pub data HandlerMode : Type 0 where
  single_sync batch_sync : HandlerMode

unfoldable pub as_str : HandlerMode → String
as_str single_sync = "SingleSync"
as_str batch_sync = "BatchSync"

unfoldable pub from_opt_str : Option String → HandlerMode
from_opt_str none = single_sync
from_opt_str (some s) = if s == "batch_sync" then batch_sync else single_sync

pub record BatchPolicy : Type 0 where
  pub max_batch_size : ℕ
  pub max_batch_wait_ms : ℕ

unfoldable pub default_batch_policy : BatchPolicy
default_batch_policy = record { max_batch_size = 1; max_batch_wait_ms = 0 }

-- The handlers of the sinks are handlers themselves: their type is an argument here.
pub record PythonHandler (Callback Middleware Policy Sink : Type 0) : Type 0 where
  pub callback : Callback
  pub retry_policy : Option Policy
  pub mode : HandlerMode
  pub batch_policy : Option BatchPolicy
  pub handler_timeout : Option ℕ
  pub name : String
  pub middleware : Option (List Middleware)
  pub fan_out : Option (FanOutConfig Sink)

-- What a call of the callable comes to: it returns, it raises an exception with its `{:?}`, its name if it has one and its text,
-- or the task panics.
pub data Called : Type 0 where
  returned : Called
  raised : String → Option String → String → Called
  panicked : Called

unfoldable pub invoke_result : Called → ExecutionResult
invoke_result returned = ExecutionResult.ok
invoke_result (raised repr name text) =
    ExecutionResult.error (classify repr text) (elim name [ none ↦ "Unknown" | some n ↦ n ]) text
invoke_result panicked =
    ExecutionResult.error (FailureReason.terminal TerminalKind.handler_panic) "Panic"
      "spawn_blocking task panicked"

unfoldable pub invoke_batch_result : List OwnedMessage → Called → BatchExecutionResult
invoke_batch_result messages returned = all_success (map (λ m. m.offset) messages)
invoke_batch_result messages (raised repr name text) = all_failure (classify repr text)
invoke_batch_result messages panicked =
    all_failure (FailureReason.terminal TerminalKind.handler_panic)

-- The result of a batch of one message.
unfoldable pub single_result : BatchExecutionResult → ExecutionResult
single_result (all_success offsets) = ExecutionResult.ok
single_result (all_failure reason) =
    ExecutionResult.error reason "BatchHandlerError" "Batch handler failed"

-- A hook of a middleware that is called.
pub data Hook (Middleware : Type 0) : Type 0 where
  before after on_error : Middleware → Hook Middleware

unfoldable pub before_all : {Middleware : Type 0} → List Middleware → List (Hook Middleware)
before_all chain = map before chain

unfoldable pub after_all : {Middleware : Type 0} → List Middleware → List (Hook Middleware)
after_all chain = map after (reverse chain)

unfoldable pub on_error_all : {Middleware : Type 0} → List Middleware → List (Hook Middleware)
on_error_all chain = map on_error (reverse chain)

-- A handler without middleware has no chain.
abbrev pub chain_of : {Middleware : Type 0} → Option (List Middleware) → List Middleware
chain_of none = []
chain_of (some chain) = chain

-- `Option::or`
abbrev pub or_else : Option ℕ → Option ℕ → Option ℕ
or_else none other = other
or_else (some d) other = some d

unfoldable pub new :
    {Callback Middleware Policy Sink : Type 0}
    → Callback
    → Option Policy
    → HandlerMode
    → Option BatchPolicy
    → Option ℕ
    → String
    → Option (List Middleware)
    → PythonHandler Callback Middleware Policy Sink
new callback retry_policy mode batch_policy handler_timeout name middleware = record {
  callback = callback;
  retry_policy = retry_policy;
  mode = mode;
  batch_policy = batch_policy;
  handler_timeout = handler_timeout;
  name = name;
  middleware = middleware;
  fan_out = none;
}

unfoldable pub set_fan_out :
    {Callback Middleware Policy Sink : Type 0}
    → PythonHandler Callback Middleware Policy Sink
    → FanOutConfig Sink
    → PythonHandler Callback Middleware Policy Sink
set_fan_out h config = record h { fan_out = some config }

-- Under a timeout, when the call takes the time `took`.
unfoldable pub within : Option ℕ → ℕ → ExecutionResult → ExecutionResult
within none took result = result
within (some limit) took result =
    if ltb limit took
    then ExecutionResult.timeout
        (record { timeout_ms = limit / 1000000 % usize_mod; last_processed_offset = none })
    else result

-- The argument `call` is what the callable comes to on the messages that it is given.
module _ {Callback Middleware Policy Sink : Type 0}
    (call : Callback → List OwnedMessage → Called) where
  unfoldable pub invoke :
      PythonHandler Callback Middleware Policy Sink → OwnedMessage → ExecutionResult
  unfolding invoke_result
  invoke h msg = invoke_result (call h.callback (msg ∷ []))

  unfoldable pub invoke_batch :
      PythonHandler Callback Middleware Policy Sink → List OwnedMessage → BatchExecutionResult
  unfolding invoke_batch_result
  invoke_batch h msgs = invoke_batch_result msgs (call h.callback msgs)

  unfoldable pub invoke_mode :
      PythonHandler Callback Middleware Policy Sink → OwnedMessage → ExecutionResult
  unfolding invoke invoke_batch single_result
  invoke_mode h msg = elim h.mode [
    | single_sync ↦ invoke h msg
    | batch_sync ↦ single_result (invoke_batch h (msg ∷ []))
  ]

  -- `none` is the panic on a mode that is no batch mode.
  unfoldable pub invoke_mode_batch :
      PythonHandler Callback Middleware Policy Sink
      → List OwnedMessage
      → Option BatchExecutionResult
  unfolding invoke_batch
  invoke_mode_batch h msgs = elim h.mode [
    | single_sync ↦ none
    | batch_sync ↦ some (invoke_batch h msgs)
  ]

  -- With the hooks that are called, in their order.
  unfoldable pub invoke_mode_with_timeout_override :
      PythonHandler Callback Middleware Policy Sink
      → OwnedMessage
      → Option ℕ
      → ℕ
      → ExecutionResult × List (Hook Middleware)
  unfolding invoke_mode within before_all after_all on_error_all
  invoke_mode_with_timeout_override h msg timeout took =
      let chain = chain_of h.middleware in
      let result = within (or_else timeout h.handler_timeout) took (invoke_mode h msg) in
      (result, before_all chain ++ (if is_ok result then after_all chain else on_error_all chain))

  unfoldable pub invoke_mode_with_timeout :
      PythonHandler Callback Middleware Policy Sink
      → OwnedMessage
      → ℕ
      → ExecutionResult × List (Hook Middleware)
  unfolding invoke_mode within before_all after_all on_error_all
  invoke_mode_with_timeout h msg took =
      let chain = chain_of h.middleware in
      let result = within h.handler_timeout took (invoke_mode h msg) in
      (result, before_all chain ++ (if is_ok result then after_all chain else on_error_all chain))
