-- ===== src/FanOut/Dispatch/Gate.antt =====
-- What `wait_all` (src/worker_pool/fan_out.rs) returns once every task has registered its branch,
-- and when it returns.
use kaf_py.Prelude.{
  ℕ, suc, ◌≤◌, ◌≡◌, refl, false, sym, ap, subst, ◌∙◌, true, ◌&&◌, some, List, [], ◌∷◌, inl, inr,
  length, arith, ltb, leb, Bool-cases, Option-cases, add_u8,
}
use kaf_py.FanOut.{BranchResult, BranchResults, FanOutTracker, count_completed, is_last}
use kaf_py.FanOut.Dispatch.{
  Stage, spawned, registered, pushed, counted, tested, completed, released, Waiter, start, loaded,
  unsatisfied, waiting, satisfied, returned, System, Action, branch, wait, initial, stage_at,
  set_stage, notify_waiters, run_branch, run_waiter, step, run,
}
use kaf_py.FanOut.Dispatch.Counts.{
  rank, count_from, count_from_le, count_from-suc, length-set_stage, count_from_mono,
  count_from-set_stage, stage_at-set_stage,
}
use kaf_py.FanOut.Dispatch.Tallies.{
  Tallied, IsTallied, initial-IsTallied, run_branch-Tallied, run-IsTallied, run-length,
}

-- What the waiter knows of the tracker, when there are `n` branches.
unfoldable Knows : ℕ → FanOutTracker → Waiter → Type 0
Knows n t start = Unit
Knows n t (loaded done) = done ≤ t.completed
Knows n t unsatisfied = Unit
Knows n t waiting = Unit
Knows n t satisfied = n ≤ length t.results
Knows n t (returned results) = length results ≡ n

-- Every task has registered its branch.
unfoldable pub IsRegistered : System → Type 0
unfolding count_from
IsRegistered sys = count_from 1 sys.branches ≡ length sys.branches

IsGated : ℕ → System → Type 0
unfolding IsRegistered Knows
IsGated n sys =
    IsTallied sys × IsRegistered sys × (length sys.branches ≡ n) × Knows n sys.tracker sys.waiter

-- The tracker only grows.
Grows : FanOutTracker → FanOutTracker → Type 0
Grows t t' = (t.completed ≤ t'.completed) × (length t.results ≤ length t'.results)

Knows-Grows : (n : ℕ) (t t' : FanOutTracker) (w : Waiter) → Grows t t' → Knows n t w → Knows n t' w
unfolding Grows Knows
Knows-Grows n t t' start g k = tt
Knows-Grows n t t' (loaded done) g k = omega (arith, g.0, k)
Knows-Grows n t t' unsatisfied g k = tt
Knows-Grows n t t' waiting g k = tt
Knows-Grows n t t' satisfied g k = omega (arith, g.1, k)
Knows-Grows n t t' (returned results) g k = k

Knows-notify_waiters :
    (n : ℕ) (t : FanOutTracker) (w : Waiter) → Knows n t w → Knows n t (notify_waiters w)
unfolding Knows notify_waiters
Knows-notify_waiters n t start k = tt
Knows-notify_waiters n t (loaded done) k = k
Knows-notify_waiters n t unsatisfied k = tt
Knows-notify_waiters n t waiting k = tt
Knows-notify_waiters n t satisfied k = k
Knows-notify_waiters n t (returned results) k = k

rank-run_branch :
    (result : BranchResult) (t : FanOutTracker) (w : Waiter) (s : Stage)
    → rank s ≤ rank (run_branch result t w s).2
unfolding rank run_branch
rank-run_branch result t w spawned = omega arith
rank-run_branch result t w (registered b) = omega arith
rank-run_branch result t w (pushed b) = omega arith
rank-run_branch result t w (counted b prev) = omega arith
rank-run_branch result t w (tested b last) = omega arith
rank-run_branch result t w (completed b) = omega arith
rank-run_branch result t w released = omega arith

run_branch-Knows :
    (n : ℕ) (result : BranchResult) (t : FanOutTracker) (w : Waiter) (s : Stage)
    → Grows t (run_branch result t w s).0
    → Knows n t w
    → Knows n (run_branch result t w s).0 (run_branch result t w s).1
unfolding run_branch
run_branch-Knows n result t w spawned g k = Knows-Grows n t _ w g k
run_branch-Knows n result t w (registered b) g k = Knows-Grows n t _ w g k
run_branch-Knows n result t w (pushed b) g k = Knows-Grows n t _ w g k
run_branch-Knows n result t w (counted b prev) g k = k
run_branch-Knows n result t w (tested b true) g k = Knows-notify_waiters n t w k
run_branch-Knows n result t w (tested b false) g k = k
run_branch-Knows n result t w (completed b) g k = Knows-Grows n t _ w g k
run_branch-Knows n result t w released g k = k

run_waiter-Knows :
    (t : FanOutTracker) (branches : List Stage) (w : Waiter)
    → Tallied t branches
    → count_from 1 branches ≡ length branches
    → Knows (length branches) t w
    → Knows (length branches) t (run_waiter t w)
unfolding Knows Tallied run_waiter
run_waiter-Knows t branches start h all k = omega arith
run_waiter-Knows t branches (loaded done) h all k =
    elim (Bool-cases (leb t.total done && ltb 0 done)) [
      | inl done_all ↦
          rw done_all (ground (arith, h.1, h.2, h.3, count_from-suc 2 branches, done_all, all, k))
      | inr more ↦ rw more tt
    ]
run_waiter-Knows t branches unsatisfied h all k = tt
run_waiter-Knows t branches waiting h all k = tt
run_waiter-Knows t branches satisfied h all k =
    omega (arith, h.2, k, count_from-suc 1 branches, count_from_le 1 branches)
run_waiter-Knows t branches (returned results) h all k = k

module _ (outcome : ℕ → BranchResult) (n : ℕ) where
  step_branch-IsGated :
      (sys : System) (i : ℕ) (s : Stage)
      → stage_at i sys.branches ≡ some s
      → IsGated n sys
      → IsGated n (step outcome (branch i) sys)
  unfolding step IsGated IsRegistered Grows Tallied
  step_branch-IsGated sys i s found h =
      let after = run_branch (outcome i) sys.tracker sys.waiter s in
      let branches = set_stage i after.2 sys.branches in
      let rises = λ (k : ℕ).
        count_from_mono k i s after.2 sys.branches found
          (rank-run_branch (outcome i) sys.tracker sys.waiter s) in
      let tallied = run_branch-Tallied (outcome i) sys i s h.0 found in
      let same = length-set_stage i after.2 sys.branches in
      let gated : IsGated n (record { tracker = after.0; branches = branches; waiter = after.1 }) =
        (
          tallied,
          omega (arith, h.1, same, rises 1, count_from_le 1 branches),
          omega (arith, h.2, same),
          run_branch-Knows n (outcome i) sys.tracker sys.waiter s
              (omega (arith, h.0.3, tallied.3, rises 3), omega (arith, h.0.2, tallied.2, rises 2))
              h.3,
        ) in
      rw (step, found) gated

  step-IsGated :
      (action : Action) (sys : System) → IsGated n sys → IsGated n (step outcome action sys)
  unfolding step IsGated IsRegistered
  step-IsGated (branch i) sys h = elim (Option-cases (stage_at i sys.branches)) [
    | inl missing ↦ rw (step, missing) h
    | inr found ↦ step_branch-IsGated sys i found.0 found.1 h
  ]
  step-IsGated wait sys h = (
    h.0,
    h.1,
    h.2,
    subst (λ m. Knows m sys.tracker (run_waiter sys.tracker sys.waiter)) h.2
        (run_waiter-Knows sys.tracker sys.branches sys.waiter h.0 h.1
          (subst (λ m. Knows m sys.tracker sys.waiter) (sym h.2) h.3)),
  )

  run-IsGated :
      (actions : List Action) (sys : System) → IsGated n sys → IsGated n (run outcome actions sys)
  unfolding run
  run-IsGated [] sys h = h
  run-IsGated (action ∷ actions) sys h =
      run-IsGated actions (step outcome action sys) (step-IsGated action sys h)

  -- When every task has registered its branch before `wait_all` is called, a list of results that
  -- `wait_all` returns has one result for each of the `n` sinks, for at most 255 sinks and in any order of the
  -- tasks' operations before and after.
  pub returned-length :
      (max_fan_out : ℕ) (before after : List Action) (results : BranchResults)
      → n ≤ 255
      → IsRegistered (run outcome before (initial max_fan_out n))
      → (run outcome before (initial max_fan_out n)).waiter ≡ start
      → (run outcome after (run outcome before (initial max_fan_out n))).waiter ≡ returned results
      → length results ≡ n
  unfolding IsGated Knows
  returned-length max_fan_out before after results few all fresh e =
      let sys = run outcome before (initial max_fan_out n) in
      let tallied =
        run-IsTallied outcome before (initial max_fan_out n)
          (initial-IsTallied max_fan_out n few) in
      let final = run-IsGated after sys (
        tallied,
        all,
        run-length outcome max_fan_out n before,
        subst (Knows n sys.tracker) (sym fresh) tt,
      ) in
      subst (Knows n (run outcome after sys).tracker) e final.3

module _ (outcome : ℕ → BranchResult) where
  -- The notification of the last branch wakes a waiter that has its future, and the next three steps
  -- of `wait_all` return the results of all the sinks. For at most 255 sinks, when the last branch has stored
  -- its result and all the others have been counted.
  pub last_branch-returned :
      (sys : System) (i b : ℕ)
      → IsTallied sys
      → IsRegistered sys
      → sys.waiter ≡ waiting
      → stage_at i sys.branches ≡ some (pushed b)
      → suc (count_from 3 sys.branches) ≡ length sys.branches
      → ((run outcome (branch i ∷ branch i ∷ branch i ∷ wait ∷ wait ∷ wait ∷ []) sys).waiter
          ≡ returned sys.tracker.results)
        × (length sys.tracker.results ≡ length sys.branches)
  unfolding run step run_branch run_waiter notify_waiters count_completed is_last Tallied
      IsRegistered
  last_branch-returned sys i b h all w found rest =
      let t = sys.tracker in
      let l1 = set_stage i (counted b t.completed) sys.branches in
      let l2 = set_stage i (tested b true) l1 in
      let risen = λ (k : ℕ).
        count_from-set_stage k i (pushed b) (counted b t.completed) sys.branches found refl in
      let done : add_u8 t.completed 1 ≡ length sys.branches = omega (arith, h.0, h.3, rest) in
      let last : leb t.total (add_u8 t.completed 1) ≡ true = ground (arith, done, h.1, all) in
      let is_some : ltb 0 (add_u8 t.completed 1) ≡ true = ground (arith, done, rest) in
      let t' : FanOutTracker = record t { completed = add_u8 t.completed 1 } in
      let sys1 : System = record { tracker = t'; branches = l1; waiter = waiting } in
      let sys2 : System = record { tracker = t'; branches = l2; waiter = waiting } in
      let sys3 : System = record {
        tracker = t';
        branches = set_stage i (completed b) l2;
        waiter = start;
      } in
      let at1 = stage_at-set_stage i (pushed b) (counted b t.completed) sys.branches found in
      let at2 = stage_at-set_stage i (counted b t.completed) (tested b true) l1 at1 in
      let step1 : step outcome (branch i) sys ≡ sys1 = rw (step, found, w) refl in
      let step2 : step outcome (branch i) sys1 ≡ sys2 = rw (step, at1, last) refl in
      let step3 : step outcome (branch i) sys2 ≡ sys3 = rw (step, at2) refl in
      let leaves : (run outcome (wait ∷ wait ∷ wait ∷ []) sys3).waiter ≡ returned t.results =
        rw (last, is_some) refl in
      (
        ap (λ x. (run outcome (branch i ∷ branch i ∷ wait ∷ wait ∷ wait ∷ []) x).waiter) step1
            ∙ (ap (λ x. (run outcome (branch i ∷ wait ∷ wait ∷ wait ∷ []) x).waiter) step2
                ∙ (ap (λ x. (run outcome (wait ∷ wait ∷ wait ∷ []) x).waiter) step3 ∙ leaves)),
        omega (
          arith,
          h.2,
          rest,
          risen 2,
          risen 3,
          count_from-suc 2 l1,
          count_from_le 2 l1,
          length-set_stage i (counted b t.completed) sys.branches,
        ),
      )
