-- ===== src/Examples/FanOuts.antt =====
-- A fan-out to two sinks, of which the second may fail.
use mathlib.Core.List.{Perm}
use kaf_py.Prelude.{
  ℕ, map, ◌≤◌, zero, suc, ◌≡◌, ◌≢◌, ◌-◌, ◌++◌, refl, some, String, List, [], ◌∷◌, take, length,
  arith,
}
use kaf_py.Dlq.{DlqRouter, route, with_default_prefix}
use kaf_py.Dlq.Channel.{dlq_channel_capacity}
use kaf_py.FanOut.{
  BranchResult, BranchResults, new, register_branch, push_result, count_completed, is_last,
}
use kaf_py.FanOut.Dispatch.{
  System, pushed, waiting, Waiter, start, returned, Action, branch, wait, initial, spawn_all,
  stage_at, set_stage, notify_waiters, run_branch, run_waiter, step, run,
}
use kaf_py.FanOut.Dispatch.Counts.{rank, count_from}
use kaf_py.FanOut.Dispatch.Tallies.{IsTallied, initial-IsTallied, run-IsTallied}
use kaf_py.FanOut.Dispatch.Gate.{IsRegistered, last_branch-returned}
use kaf_py.FanOut.Dispatch.Outcomes.{returned-outcomes}
use kaf_py.FanOut.Dispatch.Stuck.{AllNotified, early-returned, missed-notification}
use kaf_py.FanOut.Routing.{route_branches}
use kaf_py.FanOut.Routing.Refinement.{failed_messages, route_branches-take}
use kaf_py.Examples.{order, plain, timeout_reason}

-- The second sink raises an exception.
abbrev second_fails : ℕ → BranchResult
second_fails zero = BranchResult.ok
second_fails (suc i) = BranchResult.error timeout_reason "Boom"

abbrev both : List Action
both = branch 0 ∷ branch 1 ∷ []

abbrev the_rest : List Action
the_rest = branch 0 ∷ branch 0 ∷ branch 1 ∷ branch 1 ∷ wait ∷ wait ∷ wait ∷ []

abbrev two_results : BranchResults
two_results = (0, second_fails 0) ∷ (1, second_fails 1) ∷ []

both-IsRegistered : IsRegistered (run second_fails both (initial 4 2))
unfolding IsRegistered count_from rank run step initial new spawn_all stage_at set_stage run_branch
    register_branch
both-IsRegistered = refl

both_fresh : (run second_fails both (initial 4 2)).waiter ≡ start
unfolding run step initial new spawn_all stage_at set_stage run_branch register_branch
both_fresh = refl

both_returned :
    (run second_fails the_rest (run second_fails both (initial 4 2))).waiter ≡ returned two_results
unfolding run step initial new spawn_all stage_at set_stage run_branch run_waiter notify_waiters
    register_branch push_result count_completed
both_returned = refl

returned-outcomes_example :
    Perm (map (λ entry. entry.1) two_results) (second_fails 0 ∷ second_fails 1 ∷ [])
returned-outcomes_example =
    returned-outcomes second_fails 4 2 both the_rest two_results (omega arith) both-IsRegistered
      both_fresh both_returned

-- The first sink has completed, the waiter has its future, and the second has stored its result.
abbrev before_last : List Action
before_last =
    branch 0
    ∷ branch 1
    ∷ branch 0
    ∷ branch 0
    ∷ branch 0
    ∷ branch 0
    ∷ wait
    ∷ wait
    ∷ wait
    ∷ branch 1
    ∷ []

abbrev at_last : System
at_last = run second_fails before_last (initial 4 2)

at_last-IsTallied : IsTallied at_last
at_last-IsTallied =
    run-IsTallied second_fails before_last (initial 4 2) (initial-IsTallied 4 2 (omega arith))

at_last_facts :
    IsRegistered at_last
    × (at_last.waiter ≡ waiting)
    × (stage_at 1 at_last.branches ≡ some (pushed 1))
    × (suc (count_from 3 at_last.branches) ≡ length at_last.branches)
unfolding IsRegistered count_from rank run step initial new spawn_all stage_at set_stage run_branch
    run_waiter notify_waiters register_branch push_result count_completed is_last
at_last_facts = (refl, refl, refl, refl)

last_branch-returned_example :
    ((run second_fails (branch 1 ∷ branch 1 ∷ branch 1 ∷ wait ∷ wait ∷ wait ∷ []) at_last).waiter
      ≡ returned at_last.tracker.results)
    × (length at_last.tracker.results ≡ length at_last.branches)
last_branch-returned_example =
    last_branch-returned second_fails at_last 1 1 at_last-IsTallied at_last_facts.0 at_last_facts.1
      at_last_facts.2 at_last_facts.3

-- The first sink is counted before the second has registered.
abbrev first_alone : List Action
first_alone = branch 0 ∷ branch 0 ∷ branch 0 ∷ []

abbrev the_second : List Action
the_second = branch 1 ∷ branch 1 ∷ branch 1 ∷ []

first_alone_facts :
    let sys = run second_fails first_alone (initial 4 2) in
    (sys.waiter ≡ start)
    × (count_from 1 sys.branches ≡ count_from 3 sys.branches)
    × (count_from 1 sys.branches ≡ 1)
    × (sys.tracker.results ≡ (0, BranchResult.ok) ∷ [])
unfolding count_from rank run step initial new spawn_all stage_at set_stage run_branch run_waiter
    notify_waiters register_branch push_result count_completed
first_alone_facts = (refl, refl, refl, refl)

early-returned_example :
    let sys = run second_fails first_alone (initial 4 2) in
    ((run second_fails (wait ∷ wait ∷ wait ∷ the_second) sys).waiter ≡ returned sys.tracker.results)
    × (suc (length sys.tracker.results) ≤ 2)
early-returned_example =
    early-returned second_fails 4 2 first_alone the_second (omega arith) first_alone_facts.0
      first_alone_facts.1 (omega (arith, first_alone_facts.2)) (omega (arith, first_alone_facts.2))

-- The only sink completes between the load and the future of the waiter.
abbrev missed : System
missed =
    run second_fails (branch 0 ∷ wait ∷ wait ∷ branch 0 ∷ branch 0 ∷ branch 0 ∷ branch 0 ∷ [])
      (initial 4 1)

missed_facts : (missed.waiter ≡ Waiter.unsatisfied) × AllNotified missed
unfolding AllNotified count_from rank run step initial new spawn_all stage_at set_stage run_branch
    run_waiter notify_waiters register_branch push_result count_completed is_last
missed_facts = (refl, refl)

missed-notification_example :
    (run second_fails (wait ∷ branch 0 ∷ wait ∷ []) missed).waiter
    ≢ returned ((0, BranchResult.ok) ∷ [])
missed-notification_example =
    missed-notification second_fails (wait ∷ branch 0 ∷ wait ∷ []) missed
      ((0, BranchResult.ok) ∷ []) missed_facts.0 missed_facts.1

abbrev router : DlqRouter
router = route with_default_prefix

abbrev show_u64 : ℕ → String
show_u64 n = "n"

abbrev sink_topics : List String
sink_topics = "first" ∷ "second" ∷ []

route_branches-take_example :
    route_branches show_u64 plain router 9 1 order [] two_results sink_topics
    ≡ []
      ++ take
          (dlq_channel_capacity - 0)
          (failed_messages show_u64 plain router 9 1 order two_results sink_topics)
route_branches-take_example =
    route_branches-take show_u64 plain router 9 1 order [] two_results sink_topics (omega arith)
