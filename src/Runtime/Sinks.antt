-- ===== src/Runtime/Sinks.antt =====
-- What `process_fan_out` finds in the handlers of the registered topics, src/runtime/builder.rs.
use kaf_py.Prelude.{
  ℕ, ◌≡◌, refl, Option, none, some, String, List, [], ◌∷◌, string_eq, Option-cases, inl, inr,
}
use kaf_py.Prelude.Map
use kaf_py.Prelude.Map.{Map, Values}
use kaf_py.FanOut.Routing.{begin}
use kaf_py.Execution.Handler
use kaf_py.Execution.Handler.{HandlerMode, PythonHandler}
use kaf_py.Runtime.{
  HandlerMetadata, PyConsumer, Registration, register_sinks, register_into_consumer, register,
  register_all, add_handler_with_fan_out, plain_handler, handler_map, new,
}

module _ {Object Policy Sink : Type 0} where
  abbrev NoConfig : PythonHandler Object Object Policy Sink → Type 0
  NoConfig h = h.fan_out ≡ none

  register_sinks-NoConfig :
      (py_none : Object) (group : String) (callback : Object) (mode : HandlerMode)
      (timeout_ms : Option ℕ) (max : ℕ) (topics : List String) (c : PyConsumer Object Policy Sink)
      → Values NoConfig c.fan_out_handlers
      → Values NoConfig
          (register_sinks py_none group callback mode timeout_ms max topics c).fan_out_handlers
  unfolding register_sinks add_handler_with_fan_out Handler.new
  register_sinks-NoConfig py_none group callback mode timeout_ms max [] c h = h
  register_sinks-NoConfig py_none group callback mode timeout_ms max (topic ∷ topics) c h =
      register_sinks-NoConfig py_none group callback mode timeout_ms max topics _
        (Map.insert-Values NoConfig topic _ c.fan_out_handlers h refl)

  register_all-NoConfig :
      (py_none : Object) (default_mode : Option String) (rs : List (Registration Object))
      (c : PyConsumer Object Policy Sink) (counter : ℕ)
      → Values NoConfig c.fan_out_handlers
      → Values NoConfig (register_all py_none default_mode rs c counter).0.fan_out_handlers
  unfolding register_all register register_into_consumer
  register_all-NoConfig py_none default_mode [] c counter h = h
  register_all-NoConfig py_none default_mode
        (Registration.add_handler topic callback mode max_size max_wait timeout_ms limit middleware
          ∷ rs)
        c counter h =
      register_all-NoConfig py_none default_mode rs _ counter h
  register_all-NoConfig py_none default_mode
        (Registration.register_fanout group topics callback max_fan_out timeout_ms ∷ rs) c counter
        h =
      register_all-NoConfig py_none default_mode rs _ _
        (register_sinks-NoConfig py_none group callback _ timeout_ms _ topics c h)

  handler_map-NoConfig :
      (policy : Policy) (timeout : Option ℕ)
      (fan_out : Map String (PythonHandler Object Object Policy Sink))
      (metas : Map String (HandlerMetadata Object Sink))
      → Values NoConfig fan_out
      → Values NoConfig (handler_map policy timeout fan_out metas)
  unfolding handler_map plain_handler Handler.new
  handler_map-NoConfig policy timeout fan_out [] h = tt
  handler_map-NoConfig policy timeout fan_out ((topic, meta) ∷ metas) h =
      elim (Option-cases (Map.get topic fan_out)) [
        | inl e ↦ rw (e, Values) (refl, handler_map-NoConfig policy timeout fan_out metas h)
        | inr (handler, e) ↦
            rw (e, Values)
              (
                Map.get-Values NoConfig topic fan_out h e,
                handler_map-NoConfig policy timeout fan_out metas h,
              )
      ]

  -- Whatever handlers and fan-out groups are registered, in any order, starting from no handlers: for
  -- the handler that the builder gives a topic, `begin` starts no fan-out and leaves the counter of
  -- the fan-outs as it is.
  pub begin-handler_map :
      (py_none : Object) (default_mode : Option String) (rs : List (Registration Object)) (id : ℕ)
      (policy : Policy) (timeout : Option ℕ) (topic : String)
      (handler : PythonHandler Object Object Policy Sink) (counter : ℕ)
      → let c = (register_all {Sink = Sink} py_none default_mode rs new id).0 in
        (Map.get topic (handler_map policy timeout c.fan_out_handlers c.handlers) ≡ some handler)
        → begin handler.fan_out counter ≡ (counter, none)
  unfolding begin new
  begin-handler_map py_none default_mode rs id policy timeout topic handler counter e =
      let c : PyConsumer Object Policy Sink = (register_all py_none default_mode rs new id).0 in
      let no_config =
        Map.get-Values NoConfig topic (handler_map policy timeout c.fan_out_handlers c.handlers)
          (handler_map-NoConfig policy timeout c.fan_out_handlers c.handlers
            (register_all-NoConfig py_none default_mode rs new id tt))
          e in
      rw no_config refl
