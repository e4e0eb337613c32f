-- ===== src/Observability/Metrics.antt =====
-- `PrometheusSink` and `SharedPrometheusSink` of src/observability/metrics.rs. A counter is its number, a
-- histogram the values that were observed, the latest first. The registry, which only the export reads,
-- is the list of the names. Doubles are the interface `Float64`; the cast to a whole number is an argument.
pub mod Counts
use kaf_py.Prelude.{
  ℕ, ◌+◌, ◌%◌, Option, none, some, String, ℤ, pos, List, [], ◌∷◌, string_eq, usize_mod,
}
use kaf_py.Prelude.Map
use kaf_py.Prelude.Map.{Map}
use kaf_py.Observability.Labels.{MetricLabels}

pub record PrometheusSink (F64 : Type 0) : Type 0 where
  pub registry : List String
  pub counters : Map String ℕ
  pub histograms : Map String (List F64)
  pub gauges : Map String ℤ

-- A call of a method of `MetricsSink`, with the labels as they are passed.
pub data Recording (F64 : Type 0) : Type 0 where
  record_counter : String → MetricLabels → Recording F64
  record_histogram : String → F64 → MetricLabels → Recording F64
  record_gauge : String → F64 → MetricLabels → Recording F64

module _ {F64 : Type 0} where
  unfoldable pub new : PrometheusSink F64
  new = record { registry = []; counters = []; histograms = []; gauges = [] }

  unfoldable pub register_counter : PrometheusSink F64 → String → PrometheusSink F64
  register_counter s name = elim (Map.get name s.counters) [
    | some _ ↦ s
    | none ↦ record s { registry = name ∷ s.registry; counters = Map.insert name 0 s.counters }
  ]

  unfoldable pub register_histogram : PrometheusSink F64 → String → PrometheusSink F64
  register_histogram s name = elim (Map.get name s.histograms) [
    | some _ ↦ s
    | none ↦ record s { registry = name ∷ s.registry; histograms = Map.insert name [] s.histograms }
  ]

  unfoldable pub register_gauge : PrometheusSink F64 → String → PrometheusSink F64
  register_gauge s name = elim (Map.get name s.gauges) [
    | some _ ↦ s
    | none ↦ record s { registry = name ∷ s.registry; gauges = Map.insert name (pos 0) s.gauges }
  ]

  -- The families of `SharedPrometheusSink::new`.
  unfoldable pub shared : PrometheusSink F64
  unfolding new register_counter register_histogram register_gauge
  shared =
      let s1 = register_counter new "kafpy.message.throughput" in
      let s2 = register_histogram s1 "kafpy.handler.latency" in
      let s3 = register_histogram s2 "kafpy.handler.batch_size" in
      let s4 = register_counter s3 "kafpy.handler.invocation" in
      let s5 = register_counter s4 "kafpy.handler.error" in
      let s6 = register_gauge s5 "kafpy.queue.depth" in
      let s7 = register_gauge s6 "kafpy.consumer.lag" in
      let s8 = register_counter s7 "kafpy.dlq.messages" in
      let s9 = register_counter s8 "kafpy.handler.timeout_total" in
      let s10 = register_counter s9 "kafpy.python.call_total" in
      let s11 = register_histogram s10 "kafpy.python.call_duration_seconds" in
      let s12 = register_histogram s11 "kafpy.python.queue_wait_seconds" in
      let s13 = register_histogram s12 "kafpy.python.batch_size" in
      let s14 = register_counter s13 "kafpy.python.backpressure_total" in
      let s15 = register_histogram s14 "kafpy.fanout.branch_duration_seconds" in
      register_counter s15 "kafpy.fanout.branch_total"

  -- A name that is not registered is passed over, and so are the labels.
  unfoldable pub perform : (F64 → ℤ) → PrometheusSink F64 → Recording F64 → PrometheusSink F64
  perform as_i64 s (Recording.record_counter name labels) = elim (Map.get name s.counters) [
    | none ↦ s
    | some n ↦ record s { counters = Map.insert name ((n + 1) % usize_mod) s.counters }
  ]
  perform as_i64 s (Recording.record_histogram name value labels) =
      elim (Map.get name s.histograms) [
        | none ↦ s
        | some values ↦ record s { histograms = Map.insert name (value ∷ values) s.histograms }
      ]
  perform as_i64 s (Recording.record_gauge name value labels) = elim (Map.get name s.gauges) [
    | none ↦ s
    | some _ ↦ record s { gauges = Map.insert name (as_i64 value) s.gauges }
  ]

  unfoldable pub perform_all :
      (F64 → ℤ) → PrometheusSink F64 → List (Recording F64) → PrometheusSink F64
  unfolding perform
  perform_all as_i64 s [] = s
  perform_all as_i64 s (r ∷ rs) = perform_all as_i64 (perform as_i64 s r) rs
