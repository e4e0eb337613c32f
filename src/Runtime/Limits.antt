-- ===== src/Runtime/Limits.antt =====
-- The limits that src/runtime/builder.rs gives the handlers.
use kaf_py.Prelude.{
  ℕ, ◌≡◌, refl, Option, none, some, String, [], ◌∷◌, true, string_eq, inl, inr, ltb, Bool-cases,
  Option-cases,
}
use kaf_py.Prelude.Map
use kaf_py.Prelude.Map.{Map, Values}
use kaf_py.WorkerPool.Concurrency
use kaf_py.WorkerPool.Concurrency.{
  HandlerConcurrency, Semaphore, Permit, set_limit, semaphore_of, acquire,
}
use kaf_py.Runtime.{HandlerMetadata, set_limits, default_concurrency, handler_concurrency}

abbrev IsFree : Semaphore → Type 0
IsFree s = ltb 0 s.free ≡ true

-- Every semaphore has a permit, and those to come have one.
abbrev IsOpen : HandlerConcurrency → Type 0
IsOpen hc = Values IsFree hc.semaphores × (ltb 0 hc.default_limit ≡ true)

set_limit-IsOpen :
    (hc : HandlerConcurrency) (topic : String) (limit : ℕ)
    → IsOpen hc
    → ltb 0 limit ≡ true
    → IsOpen (set_limit hc topic limit)
unfolding set_limit
set_limit-IsOpen hc topic limit h e = (Map.insert-Values IsFree topic _ hc.semaphores h.0 e, h.1)

set_limits-IsOpen :
    {Object Sink : Type 0} (hc : HandlerConcurrency)
    (metas : Map String (HandlerMetadata Object Sink))
    → IsOpen hc
    → IsOpen (set_limits hc metas)
unfolding set_limits
set_limits-IsOpen hc [] h = h
set_limits-IsOpen hc ((topic, meta) ∷ metas) h = elim (Option-cases meta.concurrency) [
  | inl e ↦ rw (set_limits, e) (set_limits-IsOpen hc metas h)
  | inr (limit, e) ↦ elim (Bool-cases (ltb 0 limit)) [
    | inl above ↦
        rw (set_limits, e, above)
          (set_limits-IsOpen (set_limit hc topic limit) metas
            (set_limit-IsOpen hc topic limit h above))
    | inr zero ↦ rw (set_limits, e, zero) (set_limits-IsOpen hc metas h)
  ]
]

default_concurrency-ltb : (variable : Option ℕ) → ltb 0 (default_concurrency variable) ≡ true
unfolding default_concurrency
default_concurrency-ltb none = refl
default_concurrency-ltb (some n) = elim (Bool-cases (ltb 0 n)) [
  | inl above ↦ rw (default_concurrency, above) above
  | inr zero ↦ rw (default_concurrency, zero) refl
]

acquire-IsOpen :
    (hc : HandlerConcurrency) (topic : String)
    → IsOpen hc
    → (acquire hc topic).1
      ≡ some (record { handler_id = topic; identity = (semaphore_of hc topic).1.identity })
unfolding acquire semaphore_of
acquire-IsOpen hc topic h = elim (Option-cases (Map.get topic hc.semaphores)) [
  | inl e ↦ rw (acquire, semaphore_of, e, h.1) refl
  | inr (s, e) ↦
      let free = Map.get-Values IsFree topic hc.semaphores h.0 e in
      rw (acquire, semaphore_of, e, free) refl
]

-- Whatever the variable KAFPY_HANDLER_CONCURRENCY_DEFAULT and the concurrency of the handlers are,
-- zero included: the first execution of a handler, registered or not, gets a permit at once, from
-- the semaphore of its topic.
pub acquire-handler_concurrency :
    {Object Sink : Type 0} (variable : Option ℕ) (metas : Map String (HandlerMetadata Object Sink))
    (topic : String)
    → let hc = handler_concurrency variable metas in
      (acquire hc topic).1
      ≡ some (record { handler_id = topic; identity = (semaphore_of hc topic).1.identity })
unfolding handler_concurrency Concurrency.new
acquire-handler_concurrency variable metas topic = acquire-IsOpen _ topic (
    set_limits-IsOpen (Concurrency.new (default_concurrency variable)) metas
      (tt, default_concurrency-ltb variable))
