-- ===== src/FanOut/Routing.antt =====
-- `process_fan_out` of src/worker_pool/worker.rs around the run of the sinks: what it starts, the
-- contexts of the sinks, and the metrics and dead-letter messages made of the results. Random bytes,
-- the handlers, the texts of numbers, the router and the time of day are arguments.
pub mod Refinement
pub mod Order
use kaf_py.Prelude.{
  ℕ, ◌+◌, ◌/◌, ◌%◌, Bool, Option, none, some, String, concat, ℤ, List, [], ◌∷◌, map, if◌then◌else◌,
  usize_mod, min,
}
use kaf_py.Failure.{FailureReason, TerminalKind}
use kaf_py.Message.{OwnedMessage}
use kaf_py.Dlq.{DlqMetadata, DlqRouter}
use kaf_py.Dlq.Channel.{DlqQueue, Texts, produce_async}
use kaf_py.Execution.{ExecutionResult}
use kaf_py.WorkerPool.{payload_or_default}
use kaf_py.FanOut.{
  BranchResult, BranchResults, SinkConfig, FanOutConfig, FanOutTracker, is_exhausted, new,
}

-- A byte as two hexadecimal digits, by an argument that writes a digit.
unfoldable pub encode_hex : (ℕ → String) → List ℕ → String
encode_hex digit [] = ""
encode_hex digit (byte ∷ bytes) =
    concat (concat (digit (byte / 16)) (digit (byte % 16))) (encode_hex digit bytes)

pub record TraceContext : Type 0 where
  pub trace_id : Option String
  pub span_id : Option String
  pub trace_flags : Option String

pub record BranchContext : Type 0 where
  pub topic : String
  pub partition : ℤ
  pub offset : ℤ
  pub worker_id : ℕ
  pub trace : TraceContext
  pub branch_id : Option ℕ
  pub fan_out_id : Option ℕ
  pub source_topic : String

-- The sixteen bytes are drawn when the message carries no trace, the eight always.
unfoldable pub branch_context :
    (ℕ → String)
    → String
    → OwnedMessage
    → ℕ
    → Option String
    → ℕ
    → ℕ
    → List ℕ
    → List ℕ
    → BranchContext
branch_context digit sink_topic msg worker_id parent branch_id fan_out_id bytes span_id_bytes =
    record {
      topic = sink_topic;
      partition = msg.partition;
      offset = msg.offset;
      worker_id = worker_id;
      trace = record {
        trace_id = some (elim parent [ none ↦ encode_hex digit bytes | some tid ↦ tid ]);
        span_id = some (encode_hex digit span_id_bytes);
        trace_flags = some "01";
      };
      branch_id = some branch_id;
      fan_out_id = some fan_out_id;
      source_topic = "";
    }

unfoldable pub branch_result : ExecutionResult → BranchResult
branch_result ExecutionResult.ok = BranchResult.ok
branch_result (ExecutionResult.error reason exception traceback) =
    BranchResult.error reason exception
branch_result (ExecutionResult.timeout info) = BranchResult.timeout info.timeout_ms
branch_result (ExecutionResult.rejected reason text) =
    BranchResult.error (FailureReason.terminal TerminalKind.handler_panic) "Rejected"

-- What is spawned: the identifier of the fan-out, the tracker, and the topics in the order of the sinks.
pub record Started : Type 0 where
  pub fan_out_id : ℕ
  pub tracker : FanOutTracker
  pub sink_topics : List String

-- The counter is FAN_OUT_COUNTER; `none`: the function returns with nothing spawned.
unfoldable pub begin : {Handler : Type 0} → Option (FanOutConfig Handler) → ℕ → ℕ × Option Started
begin none counter = (counter, none)
begin (some c) counter = if is_exhausted c then (counter, none) else (
  (counter + 1) % usize_mod,
  some (record {
    fan_out_id = counter;
    tracker = new c.max_fan_out;
    sink_topics = map (λ sink. sink.topic) c.sinks;
  }),
)

unfoldable pub outcome_from_result : BranchResult → String
outcome_from_result BranchResult.ok = "ok"
outcome_from_result (BranchResult.error reason exception) = "error"
outcome_from_result (BranchResult.timeout timeout_ms) = "timeout"

-- The calls of `record_branch_completion`: the identifier, the name and the outcome.
unfoldable pub branch_metrics : ℕ → BranchResults → List String → List (ℕ × String × String)
branch_metrics fan_out_id [] topics = []
branch_metrics fan_out_id ((b, result) ∷ results) [] = []
branch_metrics fan_out_id ((b, result) ∷ results) (topic ∷ topics) =
    (fan_out_id, topic, outcome_from_result result) ∷ branch_metrics fan_out_id results topics

-- The text of the failure and the duration for its envelope.
unfoldable pub branch_failure : (ℕ → String) → BranchResult → Option (String × Option ℕ)
branch_failure show_u64 BranchResult.ok = none
branch_failure show_u64 (BranchResult.error reason exception) = some (exception, none)
branch_failure show_u64 (BranchResult.timeout timeout_ms) =
    some (concat (concat "sink timeout after " (show_u64 timeout_ms)) "ms", some timeout_ms)

unfoldable pub branch_metadata : ℕ → ℕ → OwnedMessage → String → ℕ → String → Option ℕ → DlqMetadata
branch_metadata now fan_out_id msg sink_topic branch_id exception timeout = record {
  original = record { topic = sink_topic; partition = msg.partition; offset = msg.offset };
  failure_reason = exception;
  attempt_count = 1;
  first_failure_timestamp = now;
  last_failure_timestamp = now;
  timeout_duration = timeout;
  last_processed_offset = none;
  branch_id = some branch_id;
  fan_out_id = some fan_out_id;
}

module _ (show_u64 : ℕ → String) (texts : Texts) (router : DlqRouter) (now fan_out_id : ℕ)
    (msg : OwnedMessage) where
  unfoldable pub route_branch : DlqQueue → ℕ → BranchResult → String → DlqQueue
  unfolding branch_failure branch_metadata
  route_branch q branch_id result sink_topic = elim (branch_failure show_u64 result) [
    | none ↦ q
    | some (exception, timeout) ↦
        let metadata : DlqMetadata =
          branch_metadata now fan_out_id msg sink_topic branch_id exception timeout in
        produce_async texts q (router metadata) (payload_or_default msg.payload) msg.key metadata
  ]

  -- The results in the order of their completion, beside the topics in the order of the sinks.
  unfoldable pub route_branches : DlqQueue → BranchResults → List String → DlqQueue
  unfolding route_branch
  route_branches q [] topics = q
  route_branches q ((b, result) ∷ results) [] = q
  route_branches q ((b, result) ∷ results) (topic ∷ topics) =
      route_branches (route_branch q b result topic) results topics
