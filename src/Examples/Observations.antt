-- ===== src/Examples/Observations.antt =====
-- Labels, a gauge with two partitions, a tracker with two partitions, two runtimes and a trace.
use mathlib.Core.List.{Perm}
use kaf_py.Prelude.{
  ℕ, ◌≡◌, ◌≢◌, refl, true, none, some, String, pos, List, [], ◌∷◌, arith, string_eq,
}
use kaf_py.Prelude.Map
use kaf_py.Prelude.Map.{Map}
use kaf_py.Offset.Partition
use kaf_py.Offset.Tracker.{OffsetTracker, key_eq, offset_snapshots}
use kaf_py.Observability.Labels.Sorting.{IsSorted, insert_all, insert_all-sorts}
use kaf_py.Observability.Metrics.{PrometheusSink, Recording, perform_all}
use kaf_py.Observability.Metrics.Counts.{shown, last_value, perform_all-gauge}
use kaf_py.Observability.Snapshots
use kaf_py.Observability.Snapshots.{
  RuntimeSnapshot, Process, default_snapshot, lag_summary, get_current_snapshot,
}
use kaf_py.Observability.Snapshots.Lags.{IsDistinct, lag_at, or_else, lag_summary_lem}
use kaf_py.Observability.Snapshots.Current.{Happening, happen_all, get_current_snapshot-happen_all}
use kaf_py.Observability.Traces.{trace_of}
use kaf_py.Observability.Traces.Parents.{traceparent, trace_of-traceparent}
use kaf_py.Examples.{orders}

abbrev pairs : List (String × String)
pairs = ("topic", "orders") ∷ ("handler_id", "h1") ∷ ("mode", "BatchSync") ∷ []

insert_all-sorts_example : IsSorted (insert_all [] pairs) × Perm (insert_all [] pairs) pairs
insert_all-sorts_example = insert_all-sorts pairs

abbrev lag_sink : PrometheusSink ℕ
lag_sink = record {
  registry = "kafpy.consumer.lag" ∷ [];
  counters = [];
  histograms = [];
  gauges = ("kafpy.consumer.lag", pos 0) ∷ [];
}

-- The lags of two partitions.
abbrev lags : List (Recording ℕ)
lags =
    Recording.record_gauge "kafpy.consumer.lag" 70 (("partition", "0") ∷ [])
    ∷ Recording.record_gauge "kafpy.consumer.lag" 3 (("partition", "1") ∷ [])
    ∷ []

lag_registered : Map.get "kafpy.consumer.lag" lag_sink.gauges ≡ some (pos 0)
unfolding Map.get
lag_registered = refl

perform_all-gauge_example :
    Map.get "kafpy.consumer.lag" (perform_all (λ n. pos n) lag_sink lags).gauges
    ≡ some (shown (λ n. pos n) (pos 0) (last_value "kafpy.consumer.lag" none lags))
perform_all-gauge_example =
    perform_all-gauge (λ n. pos n) lag_sink "kafpy.consumer.lag" lags (pos 0) lag_registered

abbrev behind : OffsetTracker
behind = record {
  partitions =
      (orders, record Partition.new { committed_offset = pos 7 })
      ∷ (record { topic = "orders"; partition = pos 1 }, Partition.new)
      ∷ [];
  has_runner = true;
  commit_tx = none;
}

behind-IsDistinct : IsDistinct (offset_snapshots behind)
unfolding offset_snapshots Map.get
behind-IsDistinct = (refl, (refl, tt))

lag_summary_lem_example :
    (lag_at (lag_summary behind).per_topic orders
      ≡ or_else none (Map.get orders (offset_snapshots behind)))
    × ((lag_summary behind).total_lag ≡ pos 0)
lag_summary_lem_example = lag_summary_lem behind orders behind-IsDistinct

abbrev old : RuntimeSnapshot
old = record default_snapshot { timestamp = 5 }

abbrev later : RuntimeSnapshot
later = record default_snapshot { timestamp = 90 }

abbrev one_runtime : Process
one_runtime = record { snapshots = old ∷ []; global = some 0; callbacks = [] }

old_shown : Snapshots.lookup one_runtime.snapshots 0 ≡ some old
unfolding Snapshots.lookup
old_shown = refl

one_ne_zero : ◌≢◌ {A = ℕ} 1 0
one_ne_zero = omega arith

get_current_snapshot-happen_all_example :
    get_current_snapshot
      (happen_all one_runtime (Happening.spawned ∷ Happening.ticked 1 later ∷ []))
    ≡ old
get_current_snapshot-happen_all_example =
    get_current_snapshot-happen_all 0 old one_runtime
      (Happening.spawned ∷ Happening.ticked 1 later ∷ []) refl old_shown (tt, (one_ne_zero, tt))

abbrev headers : Map String String
headers = ("traceparent", traceparent "00" "4bf9" "00f0" "01") ∷ ("tracestate", "vendor=1") ∷ []

headers_found : Map.get "traceparent" headers ≡ some (traceparent "00" "4bf9" "00f0" "01")
unfolding Map.get
headers_found = refl

trace_of-traceparent_example :
    trace_of headers
    ≡ record { trace_id = some "4bf9"; span_id = some "00f0"; trace_flags = some "01" }
trace_of-traceparent_example =
    trace_of-traceparent headers "00" "4bf9" "00f0" "01" headers_found (refl, (refl, tt))
      (refl, (refl, (refl, (refl, tt)))) (refl, (refl, (refl, (refl, tt)))) (refl, (refl, tt))
