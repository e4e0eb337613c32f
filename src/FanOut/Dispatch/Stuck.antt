-- ===== src/FanOut/Dispatch/Stuck.antt =====
-- The schedules of src/worker_pool/fan_out.rs on which `wait_all` returns late, early or never.
use kaf_py.Prelude.{
  ℕ, suc, ◌≤◌, ◌≡◌, ◌≢◌, ◌⊎◌, refl, ◌∙◌, true, false, ltb, leb, List, [], ◌∷◌, inl, inr, length,
  arith, Option-cases,
}
use kaf_py.FanOut.{BranchResult, BranchResults, FanOutTracker}
use kaf_py.FanOut.Dispatch.{
  Stage, spawned, registered, pushed, counted, tested, completed, released, Waiter, start,
  unsatisfied, waiting, returned, System, Action, branch, wait, initial, stage_at, set_stage,
  notify_waiters, run_branch, run_waiter, step, run,
}
use kaf_py.FanOut.Dispatch.Tallies.{Tallied, initial-IsTallied, run-IsTallied}
use kaf_py.FanOut.Dispatch.Counts.{
  rank, count_from, count_from_le, count_from-suc, length-set_stage, count_from_mono, rank-stage_at,
}

run_branch-returned :
    (result : BranchResult) (t : FanOutTracker) (results : BranchResults) (s : Stage)
    → (run_branch result t (returned results) s).1 ≡ returned results
unfolding run_branch notify_waiters
run_branch-returned result t results spawned = refl
run_branch-returned result t results (registered b) = refl
run_branch-returned result t results (pushed b) = refl
run_branch-returned result t results (counted b prev) = refl
run_branch-returned result t results (tested b true) = refl
run_branch-returned result t results (tested b false) = refl
run_branch-returned result t results (completed b) = refl
run_branch-returned result t results released = refl

-- A task past its notification leaves the waiter and its rank alone.
run_branch-waiter :
    (result : BranchResult) (t : FanOutTracker) (w : Waiter) (s : Stage)
    → 5 ≤ rank s
    → ((run_branch result t w s).1 ≡ w) × (rank s ≤ rank (run_branch result t w s).2)
unfolding run_branch rank
run_branch-waiter result t w spawned past = grind arith
run_branch-waiter result t w (registered b) past = grind arith
run_branch-waiter result t w (pushed b) past = grind arith
run_branch-waiter result t w (counted b prev) past = grind arith
run_branch-waiter result t w (tested b last) past = grind arith
run_branch-waiter result t w (completed b) past = (refl, omega arith)
run_branch-waiter result t w released past = (refl, omega arith)

-- Every task is past its notification.
unfoldable pub AllNotified : System → Type 0
unfolding count_from
AllNotified sys = count_from 5 sys.branches ≡ length sys.branches

IsStuck : System → Type 0
unfolding AllNotified
IsStuck sys = ((sys.waiter ≡ unsatisfied) ⊎ (sys.waiter ≡ waiting)) × AllNotified sys

module _ (outcome : ℕ → BranchResult) where
  step-returned :
      (action : Action) (sys : System) (results : BranchResults)
      → sys.waiter ≡ returned results
      → (step outcome action sys).waiter ≡ returned results
  unfolding step run_waiter
  step-returned (branch i) sys results e = elim (Option-cases (stage_at i sys.branches)) [
    | inl missing ↦ rw (step, missing) e
    | inr found ↦
        rw (step, found.1, e) (run_branch-returned (outcome i) sys.tracker results found.0)
  ]
  step-returned wait sys results e = rw (step, e) refl

  run-returned :
      (actions : List Action) (sys : System) (results : BranchResults)
      → sys.waiter ≡ returned results
      → (run outcome actions sys).waiter ≡ returned results
  unfolding run
  run-returned [] sys results e = e
  run-returned (action ∷ actions) sys results e =
      run-returned actions (step outcome action sys) results (step-returned action sys results e)

  step-IsStuck : (action : Action) (sys : System) → IsStuck sys → IsStuck (step outcome action sys)
  unfolding step run_waiter IsStuck AllNotified
  step-IsStuck (branch i) sys h = elim (Option-cases (stage_at i sys.branches)) [
    | inl missing ↦ rw (step, missing) h
    | inr found ↦
        let past = rank-stage_at 5 i found.0 sys.branches found.1 h.1 in
        let kept = run_branch-waiter (outcome i) sys.tracker sys.waiter found.0 past in
        let s' = (run_branch (outcome i) sys.tracker sys.waiter found.0).2 in
        let stuck : IsStuck (record {
          tracker = (run_branch (outcome i) sys.tracker sys.waiter found.0).0;
          branches = set_stage i s' sys.branches;
          waiter = (run_branch (outcome i) sys.tracker sys.waiter found.0).1;
        }) =
          (
            elim h.0 [ inl e ↦ inl (kept.0 ∙ e) | inr e ↦ inr (kept.0 ∙ e) ],
            omega (
              arith,
              h.1,
              count_from_mono 5 i found.0 s' sys.branches found.1 kept.1,
              count_from_le 5 (set_stage i s' sys.branches),
              length-set_stage i s' sys.branches,
            ),
          ) in
        rw (step, found.1) stuck
  ]
  step-IsStuck wait sys h = elim h.0 [
    | inl e ↦ (inr (rw e refl), h.1)
    | inr e ↦ (inr (rw e refl), h.1)
  ]

  run-IsStuck :
      (actions : List Action) (sys : System) → IsStuck sys → IsStuck (run outcome actions sys)
  unfolding run
  run-IsStuck [] sys h = h
  run-IsStuck (action ∷ actions) sys h =
      run-IsStuck actions (step outcome action sys) (step-IsStuck action sys h)

  -- When `wait_all` begins while every branch that has registered has been counted, and at least one has, its
  -- next three operations, in a row, return the results stored so far, and it keeps to them whatever follows: as long as
  -- some of the `n` sinks have not registered, those of at least one sink are missing. For at most 255 sinks, and any operations before.
  pub early-returned :
      (max_fan_out n : ℕ) (before after : List Action)
      → n ≤ 255
      → (run outcome before (initial max_fan_out n)).waiter ≡ start
      → count_from 1 (run outcome before (initial max_fan_out n)).branches
        ≡ count_from 3 (run outcome before (initial max_fan_out n)).branches
      → 1 ≤ count_from 1 (run outcome before (initial max_fan_out n)).branches
      → suc (count_from 1 (run outcome before (initial max_fan_out n)).branches) ≤ n
      → let sys = run outcome before (initial max_fan_out n) in
        ((run outcome (wait ∷ wait ∷ wait ∷ after) sys).waiter ≡ returned sys.tracker.results)
        × (suc (length sys.tracker.results) ≤ n)
  unfolding run step run_waiter Tallied
  early-returned max_fan_out n before after few fresh counted_all some_one short =
      let sys = run outcome before (initial max_fan_out n) in
      let t = sys.tracker in
      let h =
        run-IsTallied outcome before (initial max_fan_out n)
          (initial-IsTallied max_fan_out n few) in
      let last : leb t.total t.completed ≡ true = ground (arith, h.1, h.3, counted_all) in
      let is_some : ltb 0 t.completed ≡ true = ground (arith, h.3, counted_all, some_one) in
      let leaves : (run outcome (wait ∷ wait ∷ wait ∷ []) sys).waiter ≡ returned t.results =
        rw (fresh, last, is_some) refl in
      (
        run-returned after (run outcome (wait ∷ wait ∷ wait ∷ []) sys) t.results leaves,
        omega (arith, h.2, count_from-suc 1 sys.branches, short),
      )

  -- When `wait_all` has found a branch missing and every task has given its notification before the future of
  -- `notified()` exists, `wait_all` never returns, whatever steps follow.
  pub missed-notification :
      (actions : List Action) (sys : System) (results : BranchResults)
      → sys.waiter ≡ unsatisfied
      → AllNotified sys
      → (run outcome actions sys).waiter ≢ returned results
  unfolding IsStuck
  missed-notification actions sys results e all returns =
      elim (run-IsStuck actions sys (inl e, all)).0 [ inl asleep ↦ cc | inr asleep ↦ cc ]
