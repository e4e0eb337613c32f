-- ===== src/FanOut/Dispatch/Tallies.antt =====
-- The counters of a `FanOutTracker` (src/worker_pool/fan_out.rs) while the sinks' tasks run.
use kaf_py.Prelude.{
  ℕ, ◌-◌, ◌%◌, ◌≤◌, ◌≡◌, refl, ◌∙◌, some, List, [], ◌∷◌, inl, inr, length, length-append, arith,
  Option-cases,
}
use kaf_py.FanOut.{
  BranchResult, FanOutTracker, new, register_branch, push_result, count_completed, is_last,
  release_slot,
}
use kaf_py.FanOut.Dispatch.{
  Stage, spawned, registered, pushed, counted, tested, completed, released, System, Action, branch,
  wait, initial, stage_at, set_stage, run_branch, step, run,
}
use kaf_py.FanOut.Dispatch.Counts.{
  rank, count_from, count_from_le, length-set_stage, count_from-set_stage, set_stage_same,
  length-spawn_all, count_from-spawn_all,
}

-- `inflight` is what wraps around below zero when the finished tasks are taken off.
unfoldable pub Tallied : FanOutTracker → List Stage → Type 0
Tallied t branches =
    (length branches ≤ 255)
    × (t.total ≡ count_from 1 branches)
    × (length t.results ≡ count_from 2 branches)
    × (t.completed ≡ count_from 3 branches)
    × (t.inflight ≡ (256 - count_from 6 branches) % 256)

abbrev pub IsTallied : System → Type 0
IsTallied sys = Tallied sys.tracker sys.branches

pub initial-IsTallied :
    (max_fan_out sinks : ℕ) → sinks ≤ 255 → IsTallied (initial max_fan_out sinks)
unfolding Tallied initial new
initial-IsTallied max_fan_out sinks few = (
  omega (arith, length-spawn_all sinks),
  omega (arith, count_from-spawn_all 0 sinks),
  omega (arith, count_from-spawn_all 1 sinks),
  omega (arith, count_from-spawn_all 2 sinks),
  omega (arith, count_from-spawn_all 5 sinks),
)

-- A task's operation keeps the tallies, when the list of the stages is brought up to date.
pub run_branch-Tallied :
    (result : BranchResult) (sys : System) (i : ℕ) (s : Stage)
    → IsTallied sys
    → stage_at i sys.branches ≡ some s
    → Tallied
        (run_branch result sys.tracker sys.waiter s).0
        (set_stage i (run_branch result sys.tracker sys.waiter s).2 sys.branches)
unfolding Tallied run_branch register_branch push_result count_completed release_slot rank
run_branch-Tallied result sys i spawned h found =
    let after = set_stage i (registered sys.tracker.total) sys.branches in
    let same = length-set_stage i (registered sys.tracker.total) sys.branches in
    let risen = λ (k : ℕ).
      count_from-set_stage k i spawned (registered sys.tracker.total) sys.branches found refl in
    (
      omega (arith, h.0, same),
      omega (arith, h.1, h.0, same, risen 1, count_from_le 1 after),
      omega (arith, h.2, risen 2),
      omega (arith, h.3, risen 3),
      omega (arith, h.4, risen 6),
    )
run_branch-Tallied result sys i (registered b) h found =
    let same = length-set_stage i (pushed b) sys.branches in
    let risen =
      λ (k : ℕ). count_from-set_stage k i (registered b) (pushed b) sys.branches found refl in
    (
      omega (arith, h.0, same),
      omega (arith, h.1, risen 1),
      omega (arith, h.2, risen 2, length-append sys.tracker.results ((b, result) ∷ [])),
      omega (arith, h.3, risen 3),
      omega (arith, h.4, risen 6),
    )
run_branch-Tallied result sys i (pushed b) h found =
    let after = set_stage i (counted b sys.tracker.completed) sys.branches in
    let same = length-set_stage i (counted b sys.tracker.completed) sys.branches in
    let risen = λ (k : ℕ).
      count_from-set_stage k i (pushed b) (counted b sys.tracker.completed) sys.branches found
        refl in
    (
      omega (arith, h.0, same),
      omega (arith, h.1, risen 1),
      omega (arith, h.2, risen 2),
      omega (arith, h.0, h.3, same, risen 3, count_from_le 3 after),
      omega (arith, h.4, risen 6),
    )
run_branch-Tallied result sys i (counted b prev) h found =
    let same = length-set_stage i (tested b (is_last sys.tracker prev)) sys.branches in
    let risen = λ (k : ℕ).
      count_from-set_stage k i (counted b prev) (tested b (is_last sys.tracker prev)) sys.branches
        found refl in
    (
      omega (arith, h.0, same),
      omega (arith, h.1, risen 1),
      omega (arith, h.2, risen 2),
      omega (arith, h.3, risen 3),
      omega (arith, h.4, risen 6),
    )
run_branch-Tallied result sys i (tested b last) h found =
    let same = length-set_stage i (completed b) sys.branches in
    let risen =
      λ (k : ℕ). count_from-set_stage k i (tested b last) (completed b) sys.branches found refl in
    (
      omega (arith, h.0, same),
      omega (arith, h.1, risen 1),
      omega (arith, h.2, risen 2),
      omega (arith, h.3, risen 3),
      omega (arith, h.4, risen 6),
    )
run_branch-Tallied result sys i (completed b) h found =
    let after = set_stage i released sys.branches in
    let same = length-set_stage i released sys.branches in
    let risen =
      λ (k : ℕ). count_from-set_stage k i (completed b) released sys.branches found refl in
    (
      omega (arith, h.0, same),
      omega (arith, h.1, risen 1),
      omega (arith, h.2, risen 2),
      omega (arith, h.3, risen 3),
      omega (arith, h.0, h.4, same, risen 6, count_from_le 6 after),
    )
run_branch-Tallied result sys i released h found =
    rw (set_stage_same i released sys.branches found) h

module _ (outcome : ℕ → BranchResult) where
  step-IsTallied :
      (action : Action) (sys : System) → IsTallied sys → IsTallied (step outcome action sys)
  unfolding step
  step-IsTallied (branch i) sys h = elim (Option-cases (stage_at i sys.branches)) [
    | inl missing ↦ rw (step, missing) h
    | inr found ↦ rw (step, found.1) (run_branch-Tallied (outcome i) sys i found.0 h found.1)
  ]
  step-IsTallied wait sys h = h

  pub run-IsTallied :
      (actions : List Action) (sys : System) → IsTallied sys → IsTallied (run outcome actions sys)
  unfolding run
  run-IsTallied [] sys h = h
  run-IsTallied (action ∷ actions) sys h =
      run-IsTallied actions (step outcome action sys) (step-IsTallied action sys h)

  step-length :
      (action : Action) (sys : System)
      → length (step outcome action sys).branches ≡ length sys.branches
  unfolding step
  step-length (branch i) sys = elim (Option-cases (stage_at i sys.branches)) [
    | inl missing ↦ rw (step, missing) refl
    | inr found ↦ rw (step, found.1) (length-set_stage i _ sys.branches)
  ]
  step-length wait sys = refl

  pub run_from-length :
      (actions : List Action) (sys : System)
      → length (run outcome actions sys).branches ≡ length sys.branches
  unfolding run
  run_from-length [] sys = refl
  run_from-length (action ∷ actions) sys =
      run_from-length actions (step outcome action sys) ∙ step-length action sys

  pub run-length :
      (max_fan_out n : ℕ) (actions : List Action)
      → length (run outcome actions (initial max_fan_out n)).branches ≡ n
  unfolding initial
  run-length max_fan_out n actions =
      run_from-length actions (initial max_fan_out n) ∙ length-spawn_all n
