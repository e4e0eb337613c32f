-- ===== src/Observability/Traces.antt =====
-- src/observability/tracing.rs: the trace context of a message, and what the worker of
-- src/worker_pool/worker.rs takes from it. The text of bytes, `from_utf8_lossy`, is an argument.
pub mod Parents
use Prim.Native.Char.{Char, code}
use kaf_py.Prelude.{ℕ, Option, none, some, String, List, [], ◌∷◌, string_eq, eqb, if◌then◌else◌}
use kaf_py.Prelude.Map
use kaf_py.Prelude.Map.{Map}
use kaf_py.FanOut.Routing.{TraceContext}

-- A character before the first part.
abbrev lengthen : Char → List String → List String
lengthen c [] = String.◌∷◌ c String.[] ∷ []
lengthen c (part ∷ parts) = String.◌∷◌ c part ∷ parts

-- `split('-')`
unfoldable pub split_dash : String → List String
split_dash String.[] = String.[] ∷ []
split_dash (String.◌∷◌ c s) =
    let parts = split_dash s in if eqb (code c) b'-' then String.[] ∷ parts else lengthen c parts

unfoldable pub inject_traceparent : Map String String → List String → Map String String
inject_traceparent out (version ∷ trace_id ∷ span_id ∷ flags ∷ []) =
    Map.insert "trace_flags" flags
      (Map.insert "span_id" span_id (Map.insert "trace_id" trace_id out))
inject_traceparent out parts = out

unfoldable pub inject_trace_context : Map String String → Map String String → Map String String
unfolding split_dash inject_traceparent
inject_trace_context headers out =
    let out' : Map String String = elim (Map.get "traceparent" headers) [
      | none ↦ out
      | some traceparent ↦ inject_traceparent out (split_dash traceparent)
    ] in
    elim (Map.get "tracestate" headers) [
      | none ↦ out'
      | some tracestate ↦ Map.insert "tracestate" tracestate out'
    ]

-- The headers that have a value; of two with one name the later stays.
unfoldable pub header_map :
    (List ℕ → String) → Map String String → List (String × Option (List ℕ)) → Map String String
header_map decode map [] = map
header_map decode map ((name, none) ∷ headers) = header_map decode map headers
header_map decode map ((name, some bytes) ∷ headers) =
    header_map decode (Map.insert name (decode bytes) map) headers

-- The trace of the context that the worker makes.
unfoldable pub trace_of : Map String String → TraceContext
unfolding inject_trace_context
trace_of headers =
    let out = inject_trace_context headers [] in
    record {
      trace_id = Map.get "trace_id" out;
      span_id = Map.get "span_id" out;
      trace_flags = Map.get "trace_flags" out;
    }
