-- ===== src/WorkerPool/Concurrency.antt =====
-- `HandlerConcurrency` of src/worker_pool/concurrency.rs. A semaphore has its free permits and an
-- identity, since `set_limit` puts another semaphore in its place while permits of the old one are out.
pub mod Accounts
pub mod Start
pub mod Finish
pub mod Limits
use kaf_py.Prelude.{
  ℕ, zero, suc, ◌+◌, ◌-◌, ◌<◌, ◌≡◌, Bool, true, false, Option, none, some, String, List, [], ◌∷◌,
  ltb, eqb, if◌then◌else◌, string_eq, ◌==◌, nat_eq,
}
use kaf_py.Prelude.Map
use kaf_py.Prelude.Map.{Map}

pub record Semaphore : Type 0 where
  pub identity : ℕ
  pub free : ℕ

-- `made` is the identity of the next semaphore.
pub record HandlerConcurrency : Type 0 where
  pub semaphores : Map String Semaphore
  pub default_limit : ℕ
  pub made : ℕ

-- `OwnedSemaphorePermit`: the semaphore that it goes back to, and the handler of that semaphore.
pub record Permit : Type 0 where
  pub handler_id : String
  pub identity : ℕ

unfoldable pub new : ℕ → HandlerConcurrency
new default_limit = record { semaphores = []; default_limit = default_limit; made = 0 }

unfoldable pub with_default_limit : HandlerConcurrency → ℕ → HandlerConcurrency
with_default_limit hc limit = record hc { default_limit = limit }

unfoldable pub set_limit : HandlerConcurrency → String → ℕ → HandlerConcurrency
set_limit hc handler_id limit = record hc {
  semaphores = Map.insert handler_id (record { identity = hc.made; free = limit }) hc.semaphores;
  made = hc.made + 1;
}

-- `or_insert_with` the default limit.
unfoldable pub semaphore_of : HandlerConcurrency → String → HandlerConcurrency × Semaphore
unfolding set_limit
semaphore_of hc handler_id = elim (Map.get handler_id hc.semaphores) [
  | some s ↦ (hc, s)
  | none ↦ (
    set_limit hc handler_id hc.default_limit,
    record { identity = hc.made; free = hc.default_limit },
  )
]

-- `none`: the call waits for a permit.
unfoldable pub acquire : HandlerConcurrency → String → HandlerConcurrency × Option Permit
unfolding semaphore_of
acquire hc handler_id =
    let (hc', s) = semaphore_of hc handler_id in
    if ltb 0 s.free
    then (
      record hc' {
        semaphores = Map.insert handler_id (record s { free = s.free - 1 }) hc'.semaphores;
      },
      some (record { handler_id = handler_id; identity = s.identity }),
    )
    else (hc', none)

-- The drop of a permit. A semaphore that was replaced is nowhere to be read any more.
unfoldable pub release : HandlerConcurrency → Permit → HandlerConcurrency
release hc p = elim (Map.get p.handler_id hc.semaphores) [
  | none ↦ hc
  | some s ↦
      if eqb s.identity p.identity
      then record hc {
        semaphores = Map.insert p.handler_id (record s { free = s.free + 1 }) hc.semaphores;
      }
      else hc
]

unfoldable pub available : HandlerConcurrency → String → Option ℕ
available hc handler_id = elim (Map.get handler_id hc.semaphores) [
  | none ↦ none
  | some s ↦ some s.free
]

-- The workers that share the permits, with the permits that they hold.
pub record Workers : Type 0 where
  pub concurrency : HandlerConcurrency
  pub held : List Permit

-- `finish` drops the permit at a position.
pub data Action : Type 0 where
  start : String → Action
  finish : ℕ → Action

unfoldable pub permit_at : ℕ → List Permit → Option Permit
permit_at i [] = none
permit_at zero (p ∷ held) = some p
permit_at (suc i) (p ∷ held) = permit_at i held

unfoldable pub drop_at : ℕ → List Permit → List Permit
drop_at i [] = []
drop_at zero (p ∷ held) = held
drop_at (suc i) (p ∷ held) = p ∷ drop_at i held

unfoldable pub step : Action → Workers → Workers
unfolding acquire release
step (start handler_id) w =
    let (hc, permit) = acquire w.concurrency handler_id in
    elim permit [
      | none ↦ record w { concurrency = hc }
      | some p ↦ record { concurrency = hc; held = p ∷ w.held }
    ]
step (finish i) w = elim (permit_at i w.held) [
  | none ↦ w
  | some p ↦ record { concurrency = release w.concurrency p; held = drop_at i w.held }
]

unfoldable pub run : List Action → Workers → Workers
unfolding step
run [] w = w
run (action ∷ actions) w = run actions (step action w)

-- The executions of a handler.
unfoldable pub running : String → List Permit → ℕ
running handler_id [] = 0
running handler_id (p ∷ held) =
    (if p.handler_id == handler_id then 1 else 0) + running handler_id held
