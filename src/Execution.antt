-- ===== src/Execution.antt =====
-- src/execution/execution_result.rs: the outcome of a handler's run.
pub mod Buffer
pub mod Batch
pub mod Handler
use kaf_py.Prelude.{ℕ, ℤ, Option, String, List, Bool, true, false}
use kaf_py.Failure.{FailureReason}

pub record TimeoutInfo : Type 0 where
  pub timeout_ms : ℕ
  pub last_processed_offset : Option ℤ

-- `error` carries the reason, the exception and the traceback, `rejected` the reason and its text.
pub data ExecutionResult : Type 0 where
  ok : ExecutionResult
  error : FailureReason → String → String → ExecutionResult
  rejected : FailureReason → String → ExecutionResult
  timeout : TimeoutInfo → ExecutionResult

unfoldable pub is_ok : ExecutionResult → Bool
is_ok ok = true
is_ok (error r e t) = false
is_ok (rejected r s) = false
is_ok (timeout i) = false

unfoldable pub is_timeout : ExecutionResult → Bool
is_timeout ok = false
is_timeout (error r e t) = false
is_timeout (rejected r s) = false
is_timeout (timeout i) = true

pub data BatchExecutionResult : Type 0 where
  all_success : List ℤ → BatchExecutionResult
  all_failure : FailureReason → BatchExecutionResult
