-- ===== src/FanOut/Routing/Order.antt =====
-- The order of the results against the order of the sinks in `process_fan_out`
-- (src/worker_pool/worker.rs).
use kaf_py.Prelude.{ℕ, ◌≡◌, refl, Option, some, String, List, [], ◌∷◌}
use kaf_py.Message.{OwnedMessage}
use kaf_py.Dlq.{DlqRouter}
use kaf_py.Dlq.Channel.{Texts, dlq_message, produce_async, try_send}
use kaf_py.WorkerPool.{payload_or_default}
use kaf_py.FanOut.{BranchResult, BranchResults, new, register_branch, push_result, count_completed}
use kaf_py.FanOut.Dispatch.{
  Action, branch, wait, returned, initial, spawn_all, stage_at, set_stage, notify_waiters,
  run_branch, run_waiter, step, run,
}
use kaf_py.FanOut.Routing.{branch_failure, branch_metadata, route_branch, route_branches}

abbrev pub second_first : List Action
second_first =
    branch 0 ∷ branch 1 ∷ branch 1 ∷ branch 1 ∷ branch 0 ∷ branch 0 ∷ wait ∷ wait ∷ wait ∷ []

module _ (show_u64 : ℕ → String) (texts : Texts) (router : DlqRouter) (now fan_out_id : ℕ)
    (msg : OwnedMessage) where
  -- When the second of two sinks completes first and fails, and the first sink succeeds, the dead-letter message is
  -- written, and routed, for the topic of the first sink.
  pub second_first-route_branches :
      (outcome : ℕ → BranchResult) (max_fan_out : ℕ) (first second exception : String)
      (timeout : Option ℕ)
      → outcome 0 ≡ BranchResult.ok
      → branch_failure show_u64 (outcome 1) ≡ some (exception, timeout)
      → let metadata = branch_metadata now fan_out_id msg first 1 exception timeout in
        let results : BranchResults = (1, outcome 1) ∷ (0, outcome 0) ∷ [] in
        ((run outcome second_first (initial max_fan_out 2)).waiter ≡ returned results)
        × (route_branches show_u64 texts router now fan_out_id msg [] results (first ∷ second ∷ [])
            ≡ dlq_message texts (router metadata) (payload_or_default msg.payload) msg.key metadata
              ∷ [])
  unfolding run step initial new spawn_all stage_at set_stage run_branch run_waiter notify_waiters
      register_branch push_result count_completed route_branches route_branch branch_failure
      produce_async try_send
  second_first-route_branches outcome max_fan_out first second exception timeout fine failed =
      (refl, rw (fine, route_branch, failed) refl)
