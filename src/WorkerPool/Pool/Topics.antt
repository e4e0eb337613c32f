-- ===== src/WorkerPool/Pool/Topics.antt =====
-- Which topics the workers serve that src/worker_pool/pool.rs spawns for the handlers of
-- src/runtime/builder.rs.
use kaf_py.Prelude.{
  ℕ, zero, suc, ◌+◌, ◌≡◌, refl, ap, subst, ◌⊎◌, Bool, true, false, some, String, List, [], ◌∷◌, map,
  take, All, string_eq, ◌==◌, Bool-cases, inl, inr, beq_refl,
}
use kaf_py.Prelude.Map
use kaf_py.Prelude.Map.{Map, keys}
use kaf_py.Execution.Handler.{HandlerMode, PythonHandler}
use kaf_py.Execution.Handler.Invocations.{mode-cases}
use kaf_py.WorkerPool.Pool.{
  WorkerTask, batch_worker, worker, all_batch, is_batch_sync, spawn_workers, new, new_states,
}

abbrev pub topic_of : WorkerTask → String
topic_of (batch_worker worker_id topic) = topic
topic_of (worker worker_id topic) = topic

abbrev pub is_batch_worker : WorkerTask → Bool
is_batch_worker (batch_worker worker_id topic) = true
is_batch_worker (worker worker_id topic) = false

abbrev pub Serves : Bool → List String → List WorkerTask → Type 0
Serves batch topics tasks =
    (map topic_of tasks ≡ topics) × All (λ task. is_batch_worker task ≡ batch) tasks

module _ {Callback Middleware Policy Sink : Type 0} where
  abbrev pub AllBatch : Map String (PythonHandler Callback Middleware Policy Sink) → Type 0
  AllBatch = All (λ entry. entry.1.mode ≡ HandlerMode.batch_sync)

  abbrev pub HasPlain : Map String (PythonHandler Callback Middleware Policy Sink) → Type 0
  HasPlain [] = ⊥
  HasPlain ((topic, handler) ∷ handlers) =
      (handler.mode ≡ HandlerMode.single_sync) ⊎ HasPlain handlers

  -- The workers for the topics, batch workers if all handlers are of the batch mode, plain ones if one is not.
  abbrev pub ServesByMode :
      Map String (PythonHandler Callback Middleware Policy Sink)
      → List String
      → List WorkerTask
      → Type 0
  ServesByMode handlers topics tasks =
      (AllBatch handlers × Serves true topics tasks)
      ⊎ (HasPlain handlers × Serves false topics tasks)

  all_batch-cases :
      (handlers : Map String (PythonHandler Callback Middleware Policy Sink))
      → (AllBatch handlers × (all_batch handlers ≡ true))
        ⊎ (HasPlain handlers × (all_batch handlers ≡ false))
  unfolding all_batch is_batch_sync
  all_batch-cases [] = inl (tt, refl)
  all_batch-cases ((topic, handler) ∷ handlers) = elim (mode-cases handler.mode) [
    | inl single ↦ inr (inl single, rw single refl)
    | inr batch ↦ elim (all_batch-cases handlers) [
      | inl rest ↦ inl ((batch, rest.0), rw (batch, rest.1) refl)
      | inr rest ↦ inr (inr rest.0, rw (batch, rest.1) refl)
    ]
  ]

  -- The map has a handler for the topic.
  abbrev pub HasHandler :
      Map String (PythonHandler Callback Middleware Policy Sink) → String → Type 0
  HasHandler handlers topic =
      (handler : PythonHandler Callback Middleware Policy Sink) × (Map.get topic handlers
        ≡ some handler)

  HasHandler-cons :
      (handlers : Map String (PythonHandler Callback Middleware Policy Sink)) (other : String)
      (handler : PythonHandler Callback Middleware Policy Sink) (topic : String)
      → HasHandler handlers topic
      → HasHandler ((other, handler) ∷ handlers) topic
  unfolding Map.get
  HasHandler-cons handlers other handler topic (found, e) = elim (Bool-cases (other == topic)) [
    | inl same ↦ (handler, rw same refl)
    | inr away ↦ (found, rw away e)
  ]

  All-cons :
      (handlers : Map String (PythonHandler Callback Middleware Policy Sink)) (other : String)
      (handler : PythonHandler Callback Middleware Policy Sink) (topics : List String)
      → All (HasHandler handlers) topics
      → All (HasHandler ((other, handler) ∷ handlers)) topics
  All-cons handlers other handler [] h = tt
  All-cons handlers other handler (topic ∷ topics) h =
      (HasHandler-cons handlers other handler topic h.0, All-cons handlers other handler topics h.1)

  pub keys-HasHandler :
      (handlers : Map String (PythonHandler Callback Middleware Policy Sink))
      → All (HasHandler handlers) (keys handlers)
  unfolding Map.get
  keys-HasHandler [] = tt
  keys-HasHandler ((topic, handler) ∷ handlers) = (
    (handler, rw (beq_refl topic) refl),
    All-cons handlers topic handler (keys handlers) (keys-HasHandler handlers),
  )

  spawn_workers-Serves :
      (handlers : Map String (PythonHandler Callback Middleware Policy Sink)) (batch : Bool)
      (worker_id n : ℕ) (topics : List String)
      → All (HasHandler handlers) topics
      → (tasks : List WorkerTask) × (spawn_workers handlers batch worker_id n topics ≡ some tasks)
        × Serves batch (take n topics) tasks
  unfolding spawn_workers
  spawn_workers-Serves handlers batch worker_id zero topics h = ([], refl, (refl, tt))
  spawn_workers-Serves handlers batch worker_id (suc n) [] h = ([], refl, (refl, tt))
  spawn_workers-Serves handlers true worker_id (suc n) (topic ∷ topics) h =
      let (tasks, done, serves) = spawn_workers-Serves handlers true (worker_id + 1) n topics h.1 in
      (
        batch_worker worker_id topic ∷ tasks,
        rw (h.0.1, done) refl,
        (ap (λ rest. topic ∷ rest) serves.0, (refl, serves.1)),
      )
  spawn_workers-Serves handlers false worker_id (suc n) (topic ∷ topics) h =
      let (tasks, done, serves) =
        spawn_workers-Serves handlers false (worker_id + 1) n topics h.1 in
      (
        worker worker_id topic ∷ tasks,
        rw done refl,
        (ap (λ rest. topic ∷ rest) serves.0, (refl, serves.1)),
      )

  -- When every topic of the receivers has a handler.
  pub new-Serves :
      (n_workers : ℕ) (topics : List String)
      (handlers : Map String (PythonHandler Callback Middleware Policy Sink))
      → All (HasHandler handlers) topics
      → (tasks : List WorkerTask) × (new n_workers topics handlers
          ≡ some (tasks, new_states n_workers))
        × ServesByMode handlers (take n_workers topics) tasks
  unfolding new
  new-Serves n_workers topics handlers h =
      let (tasks, done, serves) =
        spawn_workers-Serves handlers (all_batch handlers) 0 n_workers topics h in
      let by_mode : ServesByMode handlers (take n_workers topics) tasks =
        elim (all_batch-cases handlers) [
          | inl all ↦
              inl (all.0, subst (λ b. Serves b (take n_workers topics) tasks) (all.1) serves)
          | inr plain ↦
              inr (plain.0, subst (λ b. Serves b (take n_workers topics) tasks) (plain.1) serves)
        ] in
      (tasks, rw done refl, by_mode)
