-- ===== src/WorkerPool/Concurrency/Limits.antt =====
-- The limit on the executions of a handler (src/worker_pool/concurrency.rs).
use kaf_py.Prelude.{
  ℕ, ◌+◌, ◌≤◌, ◌≡◌, refl, sym, subst, true, false, none, some, String, List, [], ◌∷◌, inl, inr, ltb,
  if◌then◌else◌, string_eq, ◌==◌, arith, Bool-cases, Option-cases,
}
use kaf_py.Prelude.Map
use kaf_py.Prelude.Map.{Map}
use kaf_py.WorkerPool.Concurrency.{
  new, semaphore_of, acquire, Workers, Action, start, finish, permit_at, step, run, running,
}
use kaf_py.WorkerPool.Concurrency.Accounts.{Accounted, IsAccounted}
use kaf_py.WorkerPool.Concurrency.Start.{prepared, prepared_self, start_self, start-ne}
use kaf_py.WorkerPool.Concurrency.Finish.{finish_self, finish-ne}

module _ (limit : ℕ) (handler_id : String) where
  step-IsAccounted :
      (action : Action) (w : Workers)
      → IsAccounted limit handler_id w
      → IsAccounted limit handler_id (step action w)
  unfolding step
  step-IsAccounted (start other) w h = elim (Bool-cases (other == handler_id)) [
    | inl same ↦
        subst (λ x. IsAccounted limit handler_id (step (start x) w))
          (sym ((string_eq.test_iff other handler_id).0 same)) (start_self limit handler_id w h)
    | inr away ↦ start-ne limit handler_id other w away h
  ]
  step-IsAccounted (finish i) w h = elim (Option-cases (permit_at i w.held)) [
    | inl missing ↦ rw (step, missing) h
    | inr (p, found) ↦ elim (Bool-cases (p.handler_id == handler_id)) [
      | inl same ↦
          let e = (string_eq.test_iff p.handler_id handler_id).0 same in
          subst (λ x. IsAccounted limit x (step (finish i) w)) e
            (finish_self limit i w p found (subst (λ x. IsAccounted limit x w) (sym e) h))
      | inr away ↦ finish-ne limit i w p found handler_id away h
    ]
  ]

  run-IsAccounted :
      (actions : List Action) (w : Workers)
      → IsAccounted limit handler_id w
      → IsAccounted limit handler_id (run actions w)
  unfolding run
  run-IsAccounted [] w h = h
  run-IsAccounted (action ∷ actions) w h =
      run-IsAccounted actions (step action w) (step-IsAccounted action w h)

  -- What a state with the accounts right says of `available` and `acquire`.
  IsAccounted-acquire :
      (w : Workers)
      → IsAccounted limit handler_id w
      → (running handler_id w.held ≤ limit)
        × ((acquire w.concurrency handler_id).1 ≡ (
            if ltb (running handler_id w.held) limit
            then some (record {
              handler_id = handler_id;
              identity = (semaphore_of w.concurrency handler_id).1.identity;
            })
            else none))
  unfolding IsAccounted Accounted prepared acquire running
  IsAccounted-acquire w h =
      let s = (semaphore_of w.concurrency handler_id).1 in
      let ready = prepared_self limit handler_id w h in
      let known = subst (λ o. Accounted limit handler_id o w.held) ready.1 ready.0.1 in
      let total : s.free + running handler_id w.held ≡ limit = known.0 in
      elim (Bool-cases (ltb 0 s.free)) [
        | inl free ↦
            let room : ltb (running handler_id w.held) limit ≡ true = ground (arith, total, free) in
            (omega (arith, total), rw (acquire, free, room) refl)
        | inr used ↦
            let full : ltb (running handler_id w.held) limit ≡ false =
              ground (arith, total, used) in
            (omega (arith, total), rw (acquire, used, full) refl)
      ]

-- Workers that share the permits of a default limit run a handler at most that many times at once, and a start of the handler gets
-- its permit exactly while fewer run: it waits for no other handler, and a finished execution gives its permit back. For
-- every order of starts and finishes of all the handlers, with no change of the limits in between.
pub run-acquire :
    (limit : ℕ) (handler_id : String) (actions : List Action)
    → let w = run actions (record { concurrency = new limit; held = [] }) in
      (running handler_id w.held ≤ limit)
      × ((acquire w.concurrency handler_id).1 ≡ (
          if ltb (running handler_id w.held) limit
          then some (record {
            handler_id = handler_id;
            identity = (semaphore_of w.concurrency handler_id).1.identity;
          })
          else none))
unfolding new IsAccounted Accounted running Map.get
run-acquire limit handler_id actions = IsAccounted-acquire limit handler_id _ (
    run-IsAccounted limit handler_id actions (record { concurrency = new limit; held = [] })
      (refl, refl))
