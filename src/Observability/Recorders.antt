-- ===== src/Observability/Recorders.antt =====
-- The recorders of src/observability/metrics.rs, as the calls that they make on the sink. The texts of
-- numbers are arguments; a duration is a number of nanoseconds.
pub mod Registered
use kaf_py.Prelude.{ℕ, String, ℤ, List, [], ◌∷◌, Float64}
use kaf_py.Observability.Labels.{MetricLabels, insert}
use kaf_py.Observability.Metrics.{Recording}

-- A call of a recorder, with the names of the functions.
pub data Recorder : Type 0 where
  record_invocation : MetricLabels → Recorder
  record_latency : MetricLabels → ℕ → Recorder
  record_error : MetricLabels → Recorder
  record_batch_size : MetricLabels → ℕ → Recorder
  record_throughput : String → String → String → Recorder
  record_lag : String → ℤ → ℤ → Recorder
  record_queue_depth : String → ℕ → Recorder
  record_dlq_message : String → String → Recorder
  record_branch_completion : ℕ → String → String → Recorder
  record_timeout : String → String → Recorder
  record_call : String → String → ℕ → ℕ → Recorder
  record_queue_wait : String → String → ℕ → Recorder

module _ (fl : Float64) (of_i64 : ℤ → fl.F64) (show_nat : ℕ → String) (show_int : ℤ → String) where
  unfoldable pub recordings : Recorder → List (Recording fl.F64)
  unfolding insert
  recordings (record_invocation labels) =
      Recording.record_counter "kafpy.handler.invocation" labels ∷ []
  recordings (record_latency labels elapsed) =
      Recording.record_histogram "kafpy.handler.latency" (fl.as_secs_f64 elapsed) labels ∷ []
  recordings (record_error labels) = Recording.record_counter "kafpy.handler.error" labels ∷ []
  recordings (record_batch_size labels size) =
      Recording.record_histogram "kafpy.handler.batch_size" (fl.of_usize size) labels ∷ []
  recordings (record_throughput topic handler_id mode) =
      let labels = insert (insert (insert [] "topic" topic) "handler_id" handler_id) "mode" mode in
      Recording.record_counter "kafpy.message.throughput" labels ∷ []
  recordings (record_lag topic partition lag) =
      let labels = insert (insert [] "topic" topic) "partition" (show_int partition) in
      Recording.record_gauge "kafpy.consumer.lag" (of_i64 lag) labels ∷ []
  recordings (record_queue_depth handler_id depth) =
      let labels = insert [] "handler_id" handler_id in
      Recording.record_gauge "kafpy.queue.depth" (fl.of_usize depth) labels ∷ []
  recordings (record_dlq_message dlq_topic original_topic) =
      let labels = insert (insert [] "dlq_topic" dlq_topic) "original_topic" original_topic in
      Recording.record_counter "kafpy.dlq.messages" labels ∷ []
  recordings (record_branch_completion fan_out_id branch_name branch_outcome) =
      let labels =
        insert (insert (insert [] "fan_out_id" (show_nat fan_out_id)) "branch_name" branch_name)
          "branch_outcome" branch_outcome in
      Recording.record_counter "kafpy.fanout.branch_total" labels ∷ []
  recordings (record_timeout topic handler_name) =
      let labels = insert (insert [] "topic" topic) "handler_name" handler_name in
      Recording.record_counter "kafpy.handler.timeout_total" labels ∷ []
  recordings (record_call path mode elapsed batch_size) =
      let labels = insert (insert [] "mode" mode) "path" path in
      Recording.record_counter "kafpy.python.call_total" labels
      ∷ Recording.record_histogram "kafpy.python.call_duration_seconds" (fl.as_secs_f64 elapsed)
          labels
      ∷ Recording.record_histogram "kafpy.python.batch_size" (fl.of_usize batch_size) labels
      ∷ []
  recordings (record_queue_wait path mode elapsed) =
      let labels = insert (insert [] "mode" mode) "path" path in
      Recording.record_histogram "kafpy.python.queue_wait_seconds" (fl.as_secs_f64 elapsed) labels
      ∷ []
