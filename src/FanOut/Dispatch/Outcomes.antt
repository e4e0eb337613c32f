-- ===== src/FanOut/Dispatch/Outcomes.antt =====
-- Whose results `wait_all` (src/worker_pool/fan_out.rs) returns.
use mathlib.Core.List.{Perm, append-nil, append_assoc, map-append, perm_append_singleton}
use mathlib.Core.List.Perm
use kaf_py.Prelude.{
  ℕ, zero, suc, ◌≤◌, ◌≡◌, refl, sym, ap, subst, ◌∙◌, true, false, some, List, [], ◌∷◌, ◌++◌, map,
  inl, inr, length, length-append, arith, leb, ltb, Bool-cases, Option-cases, if◌then◌else◌, ◌&&◌,
}
use mathlib.Core.Option.{some-injective}
use kaf_py.FanOut.{
  BranchResult, BranchResults, FanOutTracker, new, register_branch, push_result, count_completed,
  is_last, release_slot,
}
use kaf_py.FanOut.Dispatch.{
  Stage, spawned, registered, pushed, counted, tested, completed, released, Waiter, start, loaded,
  unsatisfied, waiting, satisfied, returned, System, Action, branch, wait, initial, spawn_all,
  stage_at, set_stage, notify_waiters, run_branch, run_waiter, step, run,
}
use kaf_py.FanOut.Dispatch.Counts.{rank, count_from, count_from_le}
use kaf_py.FanOut.Dispatch.Tallies.{
  Tallied, initial-IsTallied, run-IsTallied, run-length, run_from-length,
}
use kaf_py.FanOut.Dispatch.Gate.{IsRegistered, returned-length}

-- The outcomes of the sinks.
abbrev pub outcomes : (ℕ → BranchResult) → ℕ → List BranchResult
outcomes outcome zero = []
outcomes outcome (suc n) = outcome zero ∷ outcomes (λ i. outcome (suc i)) n

-- Those of the sinks that have stored their result.
stored : (ℕ → BranchResult) → List Stage → List BranchResult
unfolding rank
stored outcome [] = []
stored outcome (s ∷ branches) =
    let rest = stored (λ i. outcome (suc i)) branches in
    if leb 2 (rank s) then outcome zero ∷ rest else rest

stored-spawn_all : (outcome : ℕ → BranchResult) (n : ℕ) → stored outcome (spawn_all n) ≡ []
unfolding stored spawn_all rank
stored-spawn_all outcome zero = refl
stored-spawn_all outcome (suc n) = stored-spawn_all (λ i. outcome (suc i)) n

stored-same :
    (outcome : ℕ → BranchResult) (i : ℕ) (s s' : Stage) (branches : List Stage)
    → stage_at i branches ≡ some s
    → leb 2 (rank s') ≡ leb 2 (rank s)
    → stored outcome (set_stage i s' branches) ≡ stored outcome branches
unfolding stored stage_at set_stage
stored-same outcome i s s' [] found same = cc
stored-same outcome zero s s' (r ∷ branches) found same =
    ap
      (λ b.
        if b
        then outcome zero ∷ stored (λ i. outcome (suc i)) branches
        else stored (λ i. outcome (suc i)) branches)
      (same ∙ ap (λ x. leb 2 (rank x)) (sym (some-injective r s found)))
stored-same outcome (suc i) s s' (r ∷ branches) found same =
    ap (λ rest. if leb 2 (rank r) then outcome zero ∷ rest else rest)
      (stored-same (λ k. outcome (suc k)) i s s' branches found same)

stored-push :
    (outcome : ℕ → BranchResult) (i b : ℕ) (branches : List Stage)
    → stage_at i branches ≡ some (registered b)
    → Perm (stored outcome (set_stage i (pushed b) branches)) (outcome i ∷ stored outcome branches)
unfolding stored stage_at set_stage rank
stored-push outcome i b [] found = cc
stored-push outcome zero b (r ∷ branches) found =
    let rest = stored (λ k. outcome (suc k)) branches in
    subst
      (λ x.
        Perm (outcome zero ∷ rest)
          (outcome zero ∷ (if leb 2 (rank x) then outcome zero ∷ rest else rest)))
      (sym (some-injective r (registered b) found)) (Perm.refl (outcome zero ∷ rest))
stored-push outcome (suc i) b (r ∷ branches) found =
    let rest = stored-push (λ k. outcome (suc k)) i b branches found in
    elim (Bool-cases (leb 2 (rank r))) [
      | inl here ↦ rw here (
          Perm.trans (Perm.cons (outcome zero) rest)
            (Perm.swap (outcome (suc i)) (outcome zero) (stored (λ k. outcome (suc k)) branches)))
      | inr away ↦ rw away rest
    ]

stored-outcomes :
    (outcome : ℕ → BranchResult) (branches : List Stage)
    → count_from 2 branches ≡ length branches
    → stored outcome branches ≡ outcomes outcome (length branches)
unfolding stored count_from
stored-outcomes outcome [] all = refl
stored-outcomes outcome (s ∷ branches) all = elim (Bool-cases (leb 2 (rank s))) [
  | inl here ↦
      let rest : count_from 2 branches ≡ length branches = ground (arith, here, all) in
      rw here (ap (λ l. outcome zero ∷ l) (stored-outcomes (λ i. outcome (suc i)) branches rest))
  | inr away ↦ absurd (ground (arith, away, all, count_from_le 2 branches))
]

-- What was returned is the beginning of what is stored.
unfoldable IsPart : FanOutTracker → Waiter → Type 0
IsPart t start = Unit
IsPart t (loaded done) = Unit
IsPart t unsatisfied = Unit
IsPart t waiting = Unit
IsPart t satisfied = Unit
IsPart t (returned results) = (rest : BranchResults) × (t.results ≡ results ++ rest)

IsPart-notify_waiters : (t : FanOutTracker) (w : Waiter) → IsPart t w → IsPart t (notify_waiters w)
unfolding IsPart notify_waiters
IsPart-notify_waiters t start h = tt
IsPart-notify_waiters t (loaded done) h = tt
IsPart-notify_waiters t unsatisfied h = tt
IsPart-notify_waiters t waiting h = tt
IsPart-notify_waiters t satisfied h = tt
IsPart-notify_waiters t (returned results) h = h

IsPart-Grows :
    (t t' : FanOutTracker) (w : Waiter) (more : BranchResults)
    → t'.results ≡ t.results ++ more
    → IsPart t w
    → IsPart t' w
unfolding IsPart
IsPart-Grows t t' start more e h = tt
IsPart-Grows t t' (loaded done) more e h = tt
IsPart-Grows t t' unsatisfied more e h = tt
IsPart-Grows t t' waiting more e h = tt
IsPart-Grows t t' satisfied more e h = tt
IsPart-Grows t t' (returned results) more e (rest, h) =
    (rest ++ more, e ∙ (ap (λ l. l ++ more) h ∙ append_assoc results rest more))

run_waiter-IsPart : (t : FanOutTracker) (w : Waiter) → IsPart t w → IsPart t (run_waiter t w)
unfolding IsPart run_waiter
run_waiter-IsPart t start h = tt
run_waiter-IsPart t (loaded done) h = elim (Bool-cases (leb t.total done && ltb 0 done)) [
  | inl full ↦ rw full tt
  | inr more ↦ rw more tt
]
run_waiter-IsPart t unsatisfied h = tt
run_waiter-IsPart t waiting h = tt
run_waiter-IsPart t satisfied h = ([], sym (append-nil t.results))
run_waiter-IsPart t (returned results) h = h

abbrev results_of : FanOutTracker → List BranchResult
results_of t = map (λ entry. entry.1) t.results

-- The tracker holds the outcomes of the sinks that have stored their result.
IsTold : (ℕ → BranchResult) → System → Type 0
IsTold outcome sys =
    Perm (results_of sys.tracker) (stored outcome sys.branches) × IsPart sys.tracker sys.waiter

module _ (outcome : ℕ → BranchResult) where
  run_branch-IsTold :
      (sys : System) (i : ℕ) (s : Stage)
      → stage_at i sys.branches ≡ some s
      → IsTold outcome sys
      → let (t', w', s') = run_branch (outcome i) sys.tracker sys.waiter s in
        IsTold outcome
          (record { tracker = t'; branches = set_stage i s' sys.branches; waiter = w' })
  unfolding IsTold run_branch register_branch push_result count_completed is_last release_slot rank
  run_branch-IsTold sys i s found h = go s found
    where
      kept :
          (s s' : Stage)
          → stage_at i sys.branches ≡ some s
          → leb 2 (rank s') ≡ leb 2 (rank s)
          → Perm (results_of sys.tracker) (stored outcome (set_stage i s' sys.branches))
      kept s s' found same =
          subst (Perm (results_of sys.tracker))
            (sym (stored-same outcome i s s' sys.branches found same)) h.0

      grown :
          (t' : FanOutTracker) (more : BranchResults)
          → t'.results ≡ sys.tracker.results ++ more
          → IsPart t' sys.waiter
      grown t' more e = IsPart-Grows sys.tracker t' sys.waiter more e h.1

      results_of-push :
          (b : ℕ)
          → results_of (push_result sys.tracker b (outcome i))
            ≡ results_of sys.tracker ++ outcome i ∷ []
      results_of-push b =
          map-append (λ (entry : ℕ × BranchResult). entry.1) sys.tracker.results
            ((b, outcome i) ∷ [])

      go :
          (s : Stage)
          → stage_at i sys.branches ≡ some s
          → let (t', w', s') = run_branch (outcome i) sys.tracker sys.waiter s in
            IsTold outcome
              (record { tracker = t'; branches = set_stage i s' sys.branches; waiter = w' })
      go spawned found = (
        kept spawned (registered sys.tracker.total) found refl,
        grown _ [] (sym (append-nil sys.tracker.results)),
      )
      go (registered b) found = (
        subst (λ l. Perm l (stored outcome (set_stage i (pushed b) sys.branches)))
            (sym (results_of-push b))
            (Perm.trans (perm_append_singleton (outcome i) (results_of sys.tracker)) (
              Perm.trans (Perm.cons (outcome i) h.0)
                (Perm.symm (stored-push outcome i b sys.branches found)))),
        grown _ ((b, outcome i) ∷ []) refl,
      )
      go (pushed b) found = (
        kept (pushed b) (counted b sys.tracker.completed) found refl,
        grown _ [] (sym (append-nil sys.tracker.results)),
      )
      go (counted b prev) found =
          (kept (counted b prev) (tested b (is_last sys.tracker prev)) found refl, h.1)
      go (tested b true) found = (
        kept (tested b true) (completed b) found refl,
        IsPart-notify_waiters sys.tracker sys.waiter h.1,
      )
      go (tested b false) found = (kept (tested b false) (completed b) found refl, h.1)
      go (completed b) found = (
        kept (completed b) released found refl,
        grown _ [] (sym (append-nil sys.tracker.results)),
      )
      go released found = (kept released released found refl, h.1)

  step-IsTold :
      (action : Action) (sys : System)
      → IsTold outcome sys
      → IsTold outcome (step outcome action sys)
  unfolding step IsTold
  step-IsTold (branch i) sys h = elim (Option-cases (stage_at i sys.branches)) [
    | inl missing ↦ rw (step, missing) h
    | inr found ↦ rw (step, found.1) (run_branch-IsTold sys i found.0 found.1 h)
  ]
  step-IsTold wait sys h = (h.0, run_waiter-IsPart sys.tracker sys.waiter h.1)

  run-IsTold :
      (actions : List Action) (sys : System)
      → IsTold outcome sys
      → IsTold outcome (run outcome actions sys)
  unfolding run
  run-IsTold [] sys h = h
  run-IsTold (action ∷ actions) sys h =
      run-IsTold actions (step outcome action sys) (step-IsTold action sys h)

  initial-IsTold : (max_fan_out n : ℕ) → IsTold outcome (initial max_fan_out n)
  unfolding IsTold initial new IsPart
  initial-IsTold max_fan_out n =
      (subst (Perm []) (sym (stored-spawn_all outcome n)) (Perm.refl []), tt)

  -- A list that is as long as the beginning of it is that beginning.
  whole_part :
      (results rest : BranchResults) {l : BranchResults}
      → l ≡ results ++ rest
      → length l ≤ length results
      → l ≡ results
  whole_part results [] e fits = e ∙ append-nil results
  whole_part results (entry ∷ rest) {l} e fits =
      absurd (omega (arith, fits, ap (λ x. length x) e, length-append results (entry ∷ rest)))

  -- When every task has registered its branch before `wait_all` is called, a list of results that `wait_all` returns
  -- holds the result of each of the `n` sinks, once for each and in some order, and no other. For at most 255 sinks, and in any
  -- order of the tasks' operations before and after.
  pub returned-outcomes :
      (max_fan_out n : ℕ) (before after : List Action) (results : BranchResults)
      → n ≤ 255
      → IsRegistered (run outcome before (initial max_fan_out n))
      → (run outcome before (initial max_fan_out n)).waiter ≡ start
      → (run outcome after (run outcome before (initial max_fan_out n))).waiter ≡ returned results
      → Perm (map (λ entry. entry.1) results) (outcomes outcome n)
  unfolding IsTold IsPart Tallied
  returned-outcomes max_fan_out n before after results few all fresh e =
      let sys = run outcome before (initial max_fan_out n) in
      let final = run outcome after sys in
      let told =
        run-IsTold after sys
          (run-IsTold before (initial max_fan_out n) (initial-IsTold max_fan_out n)) in
      let tallied = run-IsTallied outcome after sys (
        run-IsTallied outcome before (initial max_fan_out n)
          (initial-IsTallied max_fan_out n few)) in
      let sinks : length final.branches ≡ n =
        run_from-length outcome after sys ∙ run-length outcome max_fan_out n before in
      let complete = returned-length outcome n max_fan_out before after results few all fresh e in
      let (rest, part) = subst (IsPart final.tracker) e told.1 in
      let same : final.tracker.results ≡ results =
        whole_part results rest part
          (omega (arith, tallied.2, count_from_le 2 final.branches, sinks, complete)) in
      let full : count_from 2 final.branches ≡ length final.branches =
        omega (arith, tallied.2, sinks, complete, ap (λ x. length x) same) in
      let every : stored outcome final.branches ≡ outcomes outcome n =
        stored-outcomes outcome final.branches full ∙ ap (outcomes outcome) sinks in
      subst (λ l. Perm l (outcomes outcome n)) (ap (map (λ entry. entry.1)) same)
        (subst (Perm (results_of final.tracker)) every told.0)
