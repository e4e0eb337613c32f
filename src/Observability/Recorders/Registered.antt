-- ===== src/Observability/Recorders/Registered.antt =====
-- The recorders of src/observability/metrics.rs and the families that `SharedPrometheusSink::new`
-- registers.
use kaf_py.Prelude.{ℕ, ◌≡◌, refl, some, String, ℤ, List, All, Float64, string_eq}
use kaf_py.Prelude.Map
use kaf_py.Observability.Metrics.{
  PrometheusSink, Recording, new, register_counter, register_histogram, register_gauge, shared,
}
use kaf_py.Observability.Recorders.{Recorder, recordings}

-- The sink has a metric of that kind and name.
abbrev IsRegistered : {F64 : Type 0} → PrometheusSink F64 → Recording F64 → Type 0
IsRegistered s (Recording.record_counter name labels) = (n : ℕ) × (Map.get name s.counters ≡ some n)
IsRegistered {F64} s (Recording.record_histogram name value labels) =
    (values : List F64) × (Map.get name s.histograms ≡ some values)
IsRegistered s (Recording.record_gauge name value labels) =
    (v : ℤ) × (Map.get name s.gauges ≡ some v)

-- Every recording of every recorder names a metric, of the recording's kind, that the shared sink has
-- registered, so that none is passed over.
pub recordings-IsRegistered :
    (fl : Float64) (of_i64 : ℤ → fl.F64) (show_nat : ℕ → String) (show_int : ℤ → String)
    (r : Recorder)
    → All (IsRegistered shared) (recordings fl of_i64 show_nat show_int r)
unfolding recordings shared new register_counter register_histogram register_gauge Map.get
    Map.insert
recordings-IsRegistered fl of_i64 show_nat show_int (Recorder.record_invocation labels) =
    ((_, refl), tt)
recordings-IsRegistered fl of_i64 show_nat show_int (Recorder.record_latency labels elapsed) =
    ((_, refl), tt)
recordings-IsRegistered fl of_i64 show_nat show_int (Recorder.record_error labels) = ((_, refl), tt)
recordings-IsRegistered fl of_i64 show_nat show_int (Recorder.record_batch_size labels size) =
    ((_, refl), tt)
recordings-IsRegistered fl of_i64 show_nat show_int (Recorder.record_throughput topic id mode) =
    ((_, refl), tt)
recordings-IsRegistered fl of_i64 show_nat show_int (Recorder.record_lag topic partition lag) =
    ((_, refl), tt)
recordings-IsRegistered fl of_i64 show_nat show_int (Recorder.record_queue_depth id depth) =
    ((_, refl), tt)
recordings-IsRegistered fl of_i64 show_nat show_int (Recorder.record_dlq_message dlq topic) =
    ((_, refl), tt)
recordings-IsRegistered fl of_i64 show_nat show_int
      (Recorder.record_branch_completion id name outcome) =
    ((_, refl), tt)
recordings-IsRegistered fl of_i64 show_nat show_int (Recorder.record_timeout topic name) =
    ((_, refl), tt)
recordings-IsRegistered fl of_i64 show_nat show_int (Recorder.record_call path mode elapsed size) =
    ((_, refl), ((_, refl), ((_, refl), tt)))
recordings-IsRegistered fl of_i64 show_nat show_int (Recorder.record_queue_wait path mode elapsed) =
    ((_, refl), tt)
