-- ===== src/WorkerPool/Concurrency/Accounts.antt =====
-- The permits of one handler of src/worker_pool/concurrency.rs, free and held.
use kaf_py.Prelude.{
  ℕ, zero, suc, ◌+◌, ◌≡◌, sym, ap, subst, true, Option, none, some, String, List, [], ◌∷◌,
  if◌then◌else◌, string_eq, ◌==◌, arith,
}
use mathlib.Core.Option.{some-injective}
use kaf_py.Prelude.Map
use kaf_py.Prelude.Map.{Map}
use kaf_py.WorkerPool.Concurrency.{Semaphore, Permit, Workers, permit_at, drop_at, running}

-- The permits of the handler are those of the semaphore with the identity.
abbrev pub Come : String → ℕ → List Permit → Type 0
Come handler_id identity [] = Unit
Come handler_id identity (p ∷ held) =
    ((p.handler_id == handler_id) ≡ true → p.identity ≡ identity) × Come handler_id identity held

-- What is free and what is held of a handler's semaphore make up the limit.
unfoldable pub Accounted : ℕ → String → Option Semaphore → List Permit → Type 0
Accounted limit handler_id none held = running handler_id held ≡ 0
Accounted limit handler_id (some s) held =
    (s.free + running handler_id held ≡ limit) × Come handler_id s.identity held

unfoldable pub IsAccounted : ℕ → String → Workers → Type 0
unfolding Accounted
IsAccounted limit handler_id w =
    (w.concurrency.default_limit ≡ limit)
    × Accounted limit handler_id (Map.get handler_id w.concurrency.semaphores) w.held

-- Without executions there is nothing to come from another semaphore.
pub Come-running :
    (handler_id : String) (identity : ℕ) (held : List Permit)
    → running handler_id held ≡ 0
    → Come handler_id identity held
unfolding running
Come-running handler_id identity [] none_runs = tt
Come-running handler_id identity (p ∷ held) none_runs =
    (λ same. ground arith, Come-running handler_id identity held (ground arith))

-- The permit that is dropped, and the others.
pub drop_at-Come :
    (handler_id : String) (identity i : ℕ) (held : List Permit) (p : Permit)
    → permit_at i held ≡ some p
    → Come handler_id identity held
    → Come handler_id identity (drop_at i held)
      × ((p.handler_id == handler_id) ≡ true → p.identity ≡ identity)
unfolding permit_at drop_at
drop_at-Come handler_id identity i [] p e c = cc
drop_at-Come handler_id identity zero (q ∷ held) p e c = (
  c.1,
  subst (λ x. (x.handler_id == handler_id) ≡ true → x.identity ≡ identity) (some-injective q p e)
      c.0,
)
drop_at-Come handler_id identity (suc i) (q ∷ held) p e c =
    let r = drop_at-Come handler_id identity i held p e c.1 in ((c.0, r.0), r.1)

pub running-drop_at :
    (handler_id : String) (i : ℕ) (held : List Permit) (p : Permit)
    → permit_at i held ≡ some p
    → (if p.handler_id == handler_id then 1 else 0) + running handler_id (drop_at i held)
      ≡ running handler_id held
unfolding permit_at drop_at running
running-drop_at handler_id i [] p e = cc
running-drop_at handler_id zero (q ∷ held) p e =
    ap (λ x. (if x.handler_id == handler_id then 1 else 0) + running handler_id held)
      (sym (some-injective q p e))
running-drop_at handler_id (suc i) (q ∷ held) p e =
    omega (arith, running-drop_at handler_id i held p e)
