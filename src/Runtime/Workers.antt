-- ===== src/Runtime/Workers.antt =====
-- The worker pool that `RuntimeBuilder::build` of src/runtime/builder.rs makes of the registered handlers.
use kaf_py.Prelude.{
  ℕ, ◌≡◌, refl, ap, subst, Option, none, some, String, List, [], ◌∷◌, All, take, string_eq,
  Option-cases, inl, inr,
}
use kaf_py.Prelude.Map
use kaf_py.Prelude.Map.{Map, keys}
use kaf_py.Execution.Handler.{PythonHandler}
use kaf_py.WorkerPool.Loop.{WorkerPoolState}
use kaf_py.WorkerPool.Pool
use kaf_py.WorkerPool.Pool.{WorkerTask, all_batch, new_states}
use kaf_py.WorkerPool.Pool.Topics.{HasHandler, ServesByMode, keys-HasHandler, new-Serves}
use kaf_py.Runtime.{HandlerMetadata, handler_map}

-- `num_workers`, which is 4 when it is not given.
unfoldable pub workers_of : Option ℕ → ℕ
workers_of none = 4
workers_of (some n) = n

module _ {Object Policy Sink : Type 0} where
  keys-handler_map :
      (policy : Policy) (timeout : Option ℕ)
      (fan_out : Map String (PythonHandler Object Object Policy Sink))
      (metas : Map String (HandlerMetadata Object Sink))
      → keys (handler_map policy timeout fan_out metas) ≡ keys metas
  unfolding handler_map
  keys-handler_map policy timeout fan_out [] = refl
  keys-handler_map policy timeout fan_out ((topic, meta) ∷ metas) =
      let rest = ap (λ ts. topic ∷ ts) (keys-handler_map policy timeout fan_out metas) in
      elim (Option-cases (Map.get topic fan_out)) [
        | inl e ↦ rw (handler_map, e) rest
        | inr (handler, e) ↦ rw (handler_map, e) rest
      ]

  -- The pool over the receivers of the registered topics, in the order of the map.
  unfoldable pub pool_of :
      Option ℕ
      → Policy
      → Option ℕ
      → Map String (PythonHandler Object Object Policy Sink)
      → Map String (HandlerMetadata Object Sink)
      → Option (List WorkerTask × WorkerPoolState)
  unfolding workers_of handler_map Pool.new
  pool_of num_workers policy timeout fan_out metas =
      Pool.new (workers_of num_workers) (keys metas) (handler_map policy timeout fan_out metas)

  -- Whatever handlers are registered: the pool is made without a panic, its workers serve the first
  -- `num_workers` registered topics (four when the number is not given), one worker each, and none of
  -- the topics behind them; the workers are all batch workers if the handlers all are of the batch mode,
  -- and all plain ones if one handler is not.
  pub pool_of-Serves :
      (num_workers : Option ℕ) (policy : Policy) (timeout : Option ℕ)
      (fan_out : Map String (PythonHandler Object Object Policy Sink))
      (metas : Map String (HandlerMetadata Object Sink))
      → (tasks : List WorkerTask) × (pool_of num_workers policy timeout fan_out metas
          ≡ some (tasks, new_states (workers_of num_workers)))
        × ServesByMode
            (handler_map policy timeout fan_out metas)
            (take (workers_of num_workers) (keys metas))
            tasks
  unfolding pool_of
  pool_of-Serves num_workers policy timeout fan_out metas =
      let handlers = handler_map policy timeout fan_out metas in
      new-Serves (workers_of num_workers) (keys metas) handlers (
        subst (All (HasHandler handlers)) (keys-handler_map policy timeout fan_out metas)
          (keys-HasHandler handlers))
