-- ===== src/Examples/Registrations.antt =====
-- A consumer with a handler and a fan-out group.
use kaf_py.Prelude.{ℕ, ◌≡◌, refl, none, some, List, [], ◌∷◌, string_eq}
use kaf_py.Prelude.Map
use kaf_py.FanOut.Routing.{begin}
use kaf_py.Execution.Handler
use kaf_py.Execution.Handler.{HandlerMode, PythonHandler, from_opt_str}
use kaf_py.Runtime.{
  Registration, register_sinks, register_into_consumer, register, register_all, max_or_four,
  resolved_mode, add_handler_with_fan_out, from_millis, plain_handler, handler_map, new,
}
use kaf_py.Runtime.Sinks.{begin-handler_map}

abbrev registrations : List (Registration ℕ)
registrations =
    Registration.add_handler "orders" 3 (some "async") none none (some 5) (some 2) none
    ∷ Registration.register_fanout "audit" ("orders" ∷ "log" ∷ []) 7 (some 80) none
    ∷ []

-- The handler of the group takes the place of the topic's own.
abbrev of_group : PythonHandler ℕ ℕ ℕ ℕ
of_group = record {
  callback = 7;
  retry_policy = none;
  mode = HandlerMode.single_sync;
  batch_policy = none;
  handler_timeout = none;
  name = "audit[orders]";
  middleware = none;
  fan_out = none;
}

found :
    let c = (register_all {Object = ℕ} {Policy = ℕ} {Sink = ℕ} 0 none registrations new 1).0 in
    Map.get "orders" (handler_map 9 none c.fan_out_handlers c.handlers) ≡ some of_group
unfolding Map.get Map.insert register_all register register_into_consumer register_sinks max_or_four
    resolved_mode add_handler_with_fan_out from_millis handler_map plain_handler new Handler.new
    from_opt_str
found = refl

begin-handler_map_example : begin {Handler = ℕ} none 5 ≡ (5, none)
begin-handler_map_example =
    begin-handler_map 0 none registrations 1 9 none "orders" of_group 5 found
