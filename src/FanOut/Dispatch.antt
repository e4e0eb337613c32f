-- ===== src/FanOut/Dispatch.antt =====
-- `process_fan_out` of src/worker_pool/worker.rs from the spawning of the sinks to the return of
-- `wait_all`: the tasks as stages, one atomic operation for each step, in the order of a schedule.
-- A sink's result is an argument, a function of its position among the sinks.
pub mod Counts
pub mod Tallies
pub mod Gate
pub mod Stuck
pub mod Outcomes
use kaf_py.Prelude.{
  ℕ, zero, suc, Bool, true, false, ◌&&◌, Option, none, some, List, [], ◌∷◌, ltb, leb, if◌then◌else◌,
}
use kaf_py.FanOut.{
  BranchResult, BranchResults, FanOutTracker, new, register_branch, push_result, count_completed,
  is_last, release_slot,
}

-- Where a sink's task is, with its branch_id; `counted` also carries the number that `fetch_add` returned, `tested`
-- whether this branch is to notify.
pub data Stage : Type 0 where
  spawned : Stage
  registered : ℕ → Stage
  pushed : ℕ → Stage
  counted : ℕ → ℕ → Stage
  tested : ℕ → Bool → Stage
  completed : ℕ → Stage
  released : Stage

-- Where `wait_all` is. The future of `notified()` exists from `waiting` on.
pub data Waiter : Type 0 where
  start : Waiter
  loaded : ℕ → Waiter
  unsatisfied : Waiter
  waiting : Waiter
  satisfied : Waiter
  returned : BranchResults → Waiter

pub record System : Type 0 where
  pub tracker : FanOutTracker
  pub branches : List Stage
  pub waiter : Waiter

pub data Action : Type 0 where
  branch : ℕ → Action
  wait : Action

unfoldable pub spawn_all : ℕ → List Stage
spawn_all zero = []
spawn_all (suc n) = spawned ∷ spawn_all n

unfoldable pub initial : ℕ → ℕ → System
initial max_fan_out sinks = record {
  tracker = new max_fan_out;
  branches = spawn_all sinks;
  waiter = start;
}

unfoldable pub stage_at : ℕ → List Stage → Option Stage
stage_at i [] = none
stage_at zero (s ∷ branches) = some s
stage_at (suc i) (s ∷ branches) = stage_at i branches

unfoldable pub set_stage : ℕ → Stage → List Stage → List Stage
set_stage i s' [] = []
set_stage zero s' (s ∷ branches) = s' ∷ branches
set_stage (suc i) s' (s ∷ branches) = s ∷ set_stage i s' branches

-- `notify_waiters`: only a waiter that has its future is woken.
unfoldable pub notify_waiters : Waiter → Waiter
notify_waiters start = start
notify_waiters (loaded done) = loaded done
notify_waiters unsatisfied = unsatisfied
notify_waiters waiting = start
notify_waiters satisfied = satisfied
notify_waiters (returned results) = returned results

-- The next operation of a sink's task, with its tracker and the waiter.
unfoldable pub run_branch :
    BranchResult → FanOutTracker → Waiter → Stage → FanOutTracker × Waiter × Stage
unfolding register_branch push_result count_completed is_last release_slot
run_branch result t w spawned =
    let (t', branch_id) = register_branch t in (t', w, registered branch_id)
run_branch result t w (registered branch_id) = (push_result t branch_id result, w, pushed branch_id)
run_branch result t w (pushed branch_id) =
    let (t', prev) = count_completed t in (t', w, counted branch_id prev)
run_branch result t w (counted branch_id prev) = (t, w, tested branch_id (is_last t prev))
run_branch result t w (tested branch_id last) =
    (t, (if last then notify_waiters w else w), completed branch_id)
run_branch result t w (completed branch_id) = (release_slot t, w, released)
run_branch result t w released = (t, w, released)

-- The next operation of `wait_all`.
unfoldable pub run_waiter : FanOutTracker → Waiter → Waiter
run_waiter t start = loaded t.completed
run_waiter t (loaded done) = if leb t.total done && ltb 0 done then satisfied else unsatisfied
run_waiter t unsatisfied = waiting
run_waiter t waiting = waiting
run_waiter t satisfied = returned t.results
run_waiter t (returned results) = returned results

module _ (outcome : ℕ → BranchResult) where
  unfoldable pub step : Action → System → System
  unfolding stage_at set_stage run_branch run_waiter
  step (branch i) sys = elim (stage_at i sys.branches) [
    | none ↦ sys
    | some s ↦
        let (t', w', s') = run_branch (outcome i) sys.tracker sys.waiter s in
        record { tracker = t'; branches = set_stage i s' sys.branches; waiter = w' }
  ]
  step wait sys = record sys { waiter = run_waiter sys.tracker sys.waiter }

  unfoldable pub run : List Action → System → System
  unfolding step
  run [] sys = sys
  run (action ∷ actions) sys = run actions (step action sys)
