-- ===== src/WorkerPool/Concurrency/Finish.antt =====
-- The finish of an execution under src/worker_pool/concurrency.rs.
use kaf_py.Prelude.{
  ℕ, ◌+◌, ◌≡◌, refl, subst, ◌∙◌, true, false, Option, none, some, String, inl, inr, eqb, string_eq,
  ◌==◌, arith, Bool-cases, Option-cases, beq_refl,
}
use kaf_py.Prelude.Map
use kaf_py.Prelude.Map.{Map}
use kaf_py.WorkerPool.Concurrency.{
  Semaphore, HandlerConcurrency, Permit, release, Workers, finish, permit_at, drop_at, step,
}
use kaf_py.WorkerPool.Concurrency.Accounts.{Accounted, IsAccounted, drop_at-Come, running-drop_at}

-- The workers after a permit of the semaphore was dropped.
dropped : ℕ → String → Semaphore → Workers → Workers
dropped i other s w = record {
  concurrency = record w.concurrency {
    semaphores = Map.insert other (record s { free = s.free + 1 }) w.concurrency.semaphores;
  };
  held = drop_at i w.held;
}

module _ (limit i : ℕ) (w : Workers) (p : Permit) (found : permit_at i w.held ≡ some p) where
  pub finish_self :
      IsAccounted limit p.handler_id w → IsAccounted limit p.handler_id (step (finish i) w)
  unfolding step release IsAccounted Accounted dropped
  finish_self h =
      let counted = running-drop_at p.handler_id i w.held p found in
      let itself = beq_refl p.handler_id in
      elim (Option-cases (Map.get p.handler_id w.concurrency.semaphores)) [
        | inl missing ↦
            let idle = subst (λ o. Accounted limit p.handler_id o w.held) missing h.1 in
            absurd (ground (arith, counted, itself, idle))
        | inr (s, present) ↦
            let known = subst (λ o. Accounted limit p.handler_id o w.held) present h.1 in
            let others = drop_at-Come p.handler_id s.identity i w.held p found known.1 in
            let its : eqb s.identity p.identity ≡ true = ground (arith, others.1 itself) in
            let one : IsAccounted limit p.handler_id (dropped i p.handler_id s w) =
              rw
                (Map.get-insert_self p.handler_id (record s { free = s.free + 1 })
                  w.concurrency.semaphores)
                (h.0, (ground (arith, counted, itself, known.0), others.0)) in
            rw (step, found, release, present, its) one
      ]

  release-get_ne :
      (handler_id : String) (hc : HandlerConcurrency)
      → (p.handler_id == handler_id) ≡ false
      → (Map.get handler_id (release hc p).semaphores ≡ Map.get handler_id hc.semaphores)
        × ((release hc p).default_limit ≡ hc.default_limit)
  unfolding release
  release-get_ne handler_id hc away = elim (Option-cases (Map.get p.handler_id hc.semaphores)) [
    | inl missing ↦ rw (release, missing) (refl, refl)
    | inr (s, present) ↦ elim (Bool-cases (eqb s.identity p.identity)) [
      | inl its ↦
          rw (release, present, its)
            (Map.get-insert_ne handler_id p.handler_id _ hc.semaphores away, refl)
      | inr old ↦ rw (release, present, old) (refl, refl)
    ]
  ]

  drop_at-Accounted :
      (handler_id : String) (o : Option Semaphore)
      → (p.handler_id == handler_id) ≡ false
      → Accounted limit handler_id o w.held
      → Accounted limit handler_id o (drop_at i w.held)
  unfolding Accounted
  drop_at-Accounted handler_id none away h =
      ground (arith, running-drop_at handler_id i w.held p found, away, h)
  drop_at-Accounted handler_id (some s) away h = (
    ground (arith, running-drop_at handler_id i w.held p found, away, h.0),
    (drop_at-Come handler_id s.identity i w.held p found h.1).0,
  )

  pub finish-ne :
      (handler_id : String)
      → (p.handler_id == handler_id) ≡ false
      → IsAccounted limit handler_id w
      → IsAccounted limit handler_id (step (finish i) w)
  unfolding step release IsAccounted Accounted dropped
  finish-ne handler_id away h =
      let kept = release-get_ne handler_id w.concurrency away in
      let after : IsAccounted limit handler_id
          (record { concurrency = release w.concurrency p; held = drop_at i w.held }) =
        (
          kept.1 ∙ h.0,
          rw kept.0
              (drop_at-Accounted handler_id (Map.get handler_id w.concurrency.semaphores) away h.1),
        ) in
      rw (step, found) after
