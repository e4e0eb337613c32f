-- ===== src/FanOut/Routing/Refinement.antt =====
-- The loop over the results in `process_fan_out` (src/worker_pool/worker.rs) as one sending of
-- the messages of the failures.
use kaf_py.Prelude.{
  ℕ, ◌-◌, ◌≤◌, ◌≡◌, refl, ◌∙◌, Option, none, some, String, concat, List, [], ◌∷◌, ◌++◌, take,
  length,
}
use kaf_py.Message.{OwnedMessage}
use kaf_py.Dlq.{DlqMetadata, DlqRouter}
use kaf_py.Dlq.Channel.{
  DlqQueue, DlqMessage, Texts, dlq_channel_capacity, dlq_message, produce_async, send_all,
  send_all-take,
}
use kaf_py.WorkerPool.{payload_or_default}
use kaf_py.FanOut.{BranchResult, BranchResults}
use kaf_py.FanOut.Routing.{branch_failure, branch_metadata, route_branch, route_branches}

module _ (show_u64 : ℕ → String) (texts : Texts) (router : DlqRouter) (now fan_out_id : ℕ)
    (msg : OwnedMessage) where
  -- The message of a failure with that text, and a duration if it is a time-out.
  abbrev pub failed_message : ℕ → String → String → Option ℕ → DlqMessage
  failed_message branch_id sink_topic text timeout =
      let metadata : DlqMetadata = record {
        original = record { topic = sink_topic; partition = msg.partition; offset = msg.offset };
        failure_reason = text;
        attempt_count = 1;
        first_failure_timestamp = now;
        last_failure_timestamp = now;
        timeout_duration = timeout;
        last_processed_offset = none;
        branch_id = some branch_id;
        fan_out_id = some fan_out_id;
      } in
      dlq_message texts (router metadata) (payload_or_default msg.payload) msg.key metadata

  -- Those of the results that are an error or a time-out, each with the topic at its own place in the list.
  unfoldable pub failed_messages : BranchResults → List String → List DlqMessage
  failed_messages [] topics = []
  failed_messages ((b, result) ∷ results) [] = []
  failed_messages ((b, BranchResult.ok) ∷ results) (topic ∷ topics) = failed_messages results topics
  failed_messages ((b, BranchResult.error reason exception) ∷ results) (topic ∷ topics) =
      failed_message b topic exception none ∷ failed_messages results topics
  failed_messages ((b, BranchResult.timeout ms) ∷ results) (topic ∷ topics) =
      failed_message b topic (concat (concat "sink timeout after " (show_u64 ms)) "ms") (some ms)
      ∷ failed_messages results topics

  route_branches-send_all :
      (results : BranchResults) (topics : List String) (q : DlqQueue)
      → route_branches show_u64 texts router now fan_out_id msg q results topics
        ≡ send_all q (failed_messages results topics)
  unfolding route_branches route_branch branch_failure branch_metadata failed_messages send_all
      produce_async
  route_branches-send_all [] topics q = refl
  route_branches-send_all ((b, result) ∷ results) [] q = refl
  route_branches-send_all ((b, BranchResult.ok) ∷ results) (topic ∷ topics) q =
      route_branches-send_all results topics q
  route_branches-send_all ((b, BranchResult.error reason exception) ∷ results) (topic ∷ topics) q =
      route_branches-send_all results topics _
  route_branches-send_all ((b, BranchResult.timeout ms) ∷ results) (topic ∷ topics) q =
      route_branches-send_all results topics _

  -- The loop over the results puts one message for each result that is an error or a time-out, with the topic at the same
  -- place in the list of the sinks, at the end of the dead-letter channel, in the order of the results, as many as there is room for; the others are lost. A channel within its capacity is the condition.
  pub route_branches-take :
      (q : DlqQueue) (results : BranchResults) (topics : List String)
      → length q ≤ dlq_channel_capacity
      → route_branches show_u64 texts router now fan_out_id msg q results topics
        ≡ q ++ take (dlq_channel_capacity - length q) (failed_messages results topics)
  route_branches-take q results topics fits =
      route_branches-send_all results topics q
      ∙ send_all-take q (failed_messages results topics) fits
