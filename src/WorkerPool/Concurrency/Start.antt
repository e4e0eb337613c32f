-- ===== src/WorkerPool/Concurrency/Start.antt =====
-- The start of an execution under src/worker_pool/concurrency.rs.
use kaf_py.Prelude.{
  ℕ, ◌-◌, ◌<◌, ◌≡◌, refl, subst, false, Option, none, some, String, List, ◌∷◌, inl, inr, ltb,
  if◌then◌else◌, string_eq, ◌==◌, arith, Bool-cases, ltb→lt, Option-cases, beq_refl,
}
use kaf_py.Prelude.Map
use kaf_py.Prelude.Map.{Map}
use kaf_py.WorkerPool.Concurrency.{
  Semaphore, Permit, set_limit, semaphore_of, acquire, Workers, start, step, running,
}
use kaf_py.WorkerPool.Concurrency.Accounts.{Accounted, IsAccounted, Come-running}

-- The workers after `semaphore_of`.
unfoldable pub prepared : String → Workers → Workers
prepared other w = record w { concurrency = (semaphore_of w.concurrency other).0 }

-- The workers after a permit of the semaphore was taken.
taken : String → Semaphore → Workers → Workers
taken other s w = record {
  concurrency = record w.concurrency {
    semaphores = Map.insert other (record s { free = s.free - 1 }) w.concurrency.semaphores;
  };
  held = record { handler_id = other; identity = s.identity } ∷ w.held;
}

step-start :
    (other : String) (w : Workers)
    → let s = (semaphore_of w.concurrency other).1 in
      step (start other) w
      ≡ (if ltb 0 s.free then taken other s (prepared other w) else prepared other w)
unfolding step taken prepared
step-start other w =
    let (hc, s) = semaphore_of w.concurrency other in
    elim (Bool-cases (ltb 0 s.free)) [
      | inl free ↦
          let w' = taken other s (prepared other w) in
          let got : acquire w.concurrency other
              ≡ (w'.concurrency, some (record { handler_id = other; identity = s.identity })) =
            rw (acquire, free) refl in
          rw (step, got, free) refl
      | inr used ↦
          let waits : acquire w.concurrency other ≡ (hc, none) = rw (acquire, used) refl in
          rw (step, waits, used) refl
    ]

module _ (limit : ℕ) (handler_id : String) where
  pub prepared_self :
      (w : Workers)
      → IsAccounted limit handler_id w
      → IsAccounted limit handler_id (prepared handler_id w)
        × (Map.get handler_id (prepared handler_id w).concurrency.semaphores
            ≡ some (semaphore_of w.concurrency handler_id).1)
  unfolding prepared semaphore_of IsAccounted Accounted set_limit
  prepared_self w h = elim (Option-cases (Map.get handler_id w.concurrency.semaphores)) [
    | inl missing ↦
        let idle = subst (λ o. Accounted limit handler_id o w.held) missing h.1 in
        rw (semaphore_of, missing, Map.get-insert_self handler_id _ w.concurrency.semaphores)
          (
            (
              h.0,
              (omega (arith, h.0, idle), Come-running handler_id w.concurrency.made w.held idle),
            ),
            refl,
          )
    | inr found ↦ rw (semaphore_of, found.1) (h, found.1)
  ]

  prepared-ne :
      (other : String) (w : Workers)
      → (other == handler_id) ≡ false
      → IsAccounted limit handler_id w
      → IsAccounted limit handler_id (prepared other w)
  unfolding prepared semaphore_of IsAccounted set_limit
  prepared-ne other w ne h = elim (Option-cases (Map.get other w.concurrency.semaphores)) [
    | inl missing ↦
        rw (semaphore_of, missing, Map.get-insert_ne handler_id other _ w.concurrency.semaphores ne)
          h
    | inr found ↦ rw (semaphore_of, found.1) h
  ]

  taken_self :
      (s : Semaphore) (w : Workers)
      → 0 < s.free
      → Map.get handler_id w.concurrency.semaphores ≡ some s
      → IsAccounted limit handler_id w
      → IsAccounted limit handler_id (taken handler_id s w)
  unfolding taken IsAccounted Accounted running
  taken_self s w free found h =
      let known = subst (λ o. Accounted limit handler_id o w.held) found h.1 in
      rw
        (
          Map.get-insert_self handler_id (record s { free = s.free - 1 }) w.concurrency.semaphores,
          beq_refl handler_id,
        )
        (h.0, (omega (arith, known.0, free), (λ same. refl, known.1)))

  cons-Accounted :
      (o : Option Semaphore) (held : List Permit) (p : Permit)
      → (p.handler_id == handler_id) ≡ false
      → Accounted limit handler_id o held
      → Accounted limit handler_id o (p ∷ held)
  unfolding Accounted running
  cons-Accounted none held p ne h = rw ne (omega (arith, h))
  cons-Accounted (some s) held p ne h =
      (rw ne (omega (arith, h.0)), ((λ same. ground (arith, same, ne)), h.1))

  taken-ne :
      (other : String) (s : Semaphore) (w : Workers)
      → (other == handler_id) ≡ false
      → IsAccounted limit handler_id w
      → IsAccounted limit handler_id (taken other s w)
  unfolding taken IsAccounted
  taken-ne other s w ne h =
      rw (Map.get-insert_ne handler_id other _ w.concurrency.semaphores ne)
        (h.0, cons-Accounted (Map.get handler_id w.concurrency.semaphores) w.held _ ne h.1)

  pub start_self :
      (w : Workers)
      → IsAccounted limit handler_id w
      → IsAccounted limit handler_id (step (start handler_id) w)
  start_self w h =
      let s = (semaphore_of w.concurrency handler_id).1 in
      let ready = prepared_self w h in
      elim (Bool-cases (ltb 0 s.free)) [
        | inl free ↦
            rw (step-start handler_id w, free)
              (taken_self s (prepared handler_id w) (ltb→lt 0 s.free free) ready.1 ready.0)
        | inr used ↦ rw (step-start handler_id w, used) ready.0
      ]

  pub start-ne :
      (other : String) (w : Workers)
      → (other == handler_id) ≡ false
      → IsAccounted limit handler_id w
      → IsAccounted limit handler_id (step (start other) w)
  start-ne other w away h =
      let s = (semaphore_of w.concurrency other).1 in
      let ready = prepared-ne other w away h in
      elim (Bool-cases (ltb 0 s.free)) [
        | inl free ↦ rw (step-start other w, free) (taken-ne other s _ away ready)
        | inr used ↦ rw (step-start other w, used) ready
      ]
