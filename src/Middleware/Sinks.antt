-- ===== src/Middleware/Sinks.antt =====
-- What the sink of an invocation shows of the metrics middleware (src/execution/callback.rs).
use kaf_py.Prelude.{
  ℕ, ◌+◌, ◌%◌, ◌≡◌, refl, ap, ◌∙◌, true, Option, some, String, ℤ, List, [], ◌∷◌, ◌++◌, arith,
  Float64, if◌then◌else◌, usize_mod, string_eq, Bool-cases, inl, inr,
}
use kaf_py.Prelude.Map
use kaf_py.Message.{OwnedMessage}
use kaf_py.Execution.{ExecutionResult, is_ok}
use kaf_py.Execution.Handler.{
  Hook, after, on_error, Called, PythonHandler, chain_of, invoke_mode_with_timeout_override,
}
use kaf_py.Execution.Handler.Invocations.{nested, invoke-nested}
use kaf_py.Observability.Metrics.{
  Recording, perform_all, shared, new, register_counter, register_histogram, register_gauge,
}
use kaf_py.Observability.Metrics.Counts.{times, perform_all-counter}
use kaf_py.Observability.Recorders.{Recorder, recordings}
use kaf_py.Middleware.{
  Kind, kind_of, hook, after_of, on_error_of, record_after, record_on_error, record_all,
  record_hooks, invocation_sink,
}

times-append :
    {F64 : Type 0} (name : String) (rs ss : List (Recording F64))
    → times name (rs ++ ss) ≡ times name rs + times name ss
times-append name [] ss = omega arith
times-append name (Recording.record_counter other labels ∷ rs) ss =
    omega (arith, times-append name rs ss)
times-append name (Recording.record_histogram other value labels ∷ rs) ss = times-append name rs ss
times-append name (Recording.record_gauge other value labels ∷ rs) ss = times-append name rs ss

abbrev weight : ℕ → Kind → ℕ
weight w Kind.logging = 0
weight w Kind.metrics = w
weight w Kind.python = 0

module _ {Middleware : Type 0} (type_name : Middleware → String) where
  -- So much for each metrics middleware of the chain.
  abbrev pub per_metrics : ℕ → List Middleware → ℕ
  per_metrics w [] = 0
  per_metrics w (m ∷ chain) = weight w (kind_of (type_name m)) + per_metrics w chain

  module _ (topic : String) (result : ExecutionResult) (elapsed : ℕ) (fl : Float64)
      (of_i64 : ℤ → fl.F64) (show_nat : ℕ → String) (show_int : ℤ → String)
      (as_i64 : fl.F64 → ℤ) where
    -- How often the hooks record the counter.
    abbrev count : String → List (Hook Middleware) → ℕ
    count name hooks =
        times name
          (record_hooks type_name topic result elapsed fl of_i64 show_nat show_int as_i64 hooks)

    abbrev count_hook : String → Hook Middleware → ℕ
    count_hook name h = times name (
        record_all type_name topic result elapsed fl of_i64 show_nat show_int as_i64
          (hook type_name topic result elapsed h))

    count-cons :
        (name : String) (h : Hook Middleware) (hooks : List (Hook Middleware))
        → count name (h ∷ hooks) ≡ count_hook name h + count name hooks
    unfolding record_hooks
    count-cons name h hooks =
        times-append name
          (record_all type_name topic result elapsed fl of_i64 show_nat show_int as_i64
            (hook type_name topic result elapsed h))
          (record_hooks type_name topic result elapsed fl of_i64 show_nat show_int as_i64 hooks)

    count-append :
        (name : String) (hs ks : List (Hook Middleware))
        → count name (hs ++ ks) ≡ count name hs + count name ks
    unfolding record_hooks
    count-append name [] ks = omega arith
    count-append name (h ∷ hs) ks =
        omega (arith, count-cons name h (hs ++ ks), count-cons name h hs, count-append name hs ks)

    count-nested :
        (name : String) (w : ℕ) (close : Middleware → Hook Middleware) (chain : List Middleware)
        → ((m : Middleware) → count_hook name (close m) ≡ weight w (kind_of (type_name m)))
        → count name (nested close chain) ≡ per_metrics w chain
    unfolding nested record_hooks hook record_all
    count-nested name w close [] each = refl
    count-nested name w close (m ∷ chain) each = omega (
      arith,
      count-append name (nested close chain) (close m ∷ []),
      count-cons name (close m) [],
      each m,
      count-nested name w close chain each,
    )

    abbrev close : Middleware → Hook Middleware
    close m = if is_ok result then after m else on_error m

    throughput_hook :
        (m : Middleware)
        → count_hook "kafpy.message.throughput" (close m)
          ≡ weight (if is_ok result then 1 else 0) (kind_of (type_name m))
    unfolding hook record_all recordings after_of on_error_of record_after record_on_error
    throughput_hook m = elim (Bool-cases (is_ok result)) [
      | inl fine ↦ rw fine (fine_of fine (kind_of (type_name m)))
      | inr failed ↦ rw failed (failed_of (kind_of (type_name m)))
    ]
      where
        count_of : List Recorder → ℕ
        count_of rs =
            times "kafpy.message.throughput"
              (record_all type_name topic result elapsed fl of_i64 show_nat show_int as_i64 rs)

        fine_of :
            is_ok result ≡ true
            → (k : Kind) → count_of (after_of k topic result elapsed) ≡ weight 1 k
        fine_of fine Kind.logging = refl
        fine_of fine Kind.metrics = rw fine refl
        fine_of fine Kind.python = refl

        failed_of : (k : Kind) → count_of (on_error_of k topic) ≡ weight 0 k
        failed_of Kind.logging = refl
        failed_of Kind.metrics = refl
        failed_of Kind.python = refl

    error_hook :
        (m : Middleware)
        → count_hook "kafpy.handler.error" (close m)
          ≡ weight (if is_ok result then 0 else 1) (kind_of (type_name m))
    unfolding hook record_all recordings after_of on_error_of record_after record_on_error
    error_hook m = elim (Bool-cases (is_ok result)) [
      | inl fine ↦ rw fine (fine_of fine (kind_of (type_name m)))
      | inr failed ↦ rw failed (failed_of (kind_of (type_name m)))
    ]
      where
        count_of : List Recorder → ℕ
        count_of rs =
            times "kafpy.handler.error"
              (record_all type_name topic result elapsed fl of_i64 show_nat show_int as_i64 rs)

        fine_of :
            is_ok result ≡ true
            → (k : Kind) → count_of (after_of k topic result elapsed) ≡ weight 0 k
        fine_of fine Kind.logging = refl
        fine_of fine Kind.metrics = rw fine refl
        fine_of fine Kind.python = refl

        failed_of : (k : Kind) → count_of (on_error_of k topic) ≡ weight 1 k
        failed_of Kind.logging = refl
        failed_of Kind.metrics = refl
        failed_of Kind.python = refl

module _ {Callback Middleware Policy Sink : Type 0} (call : Callback → List OwnedMessage → Called)
    (type_name : Middleware → String) (fl : Float64) (of_i64 : ℤ → fl.F64) (show_nat : ℕ → String)
    (show_int : ℤ → String) (as_i64 : fl.F64 → ℤ) where
  -- However many messages a handler has had: the sink that its metrics middleware records to in an invocation counts this
  -- one only. It shows one message or one error, modulo 2^64, for each metrics middleware of the handler, as the result
  -- is, and none of the other.
  pub invocation_sink_lem :
      (h : PythonHandler Callback Middleware Policy Sink) (msg : OwnedMessage) (timeout : Option ℕ)
      (took : ℕ)
      → let (result, hooks) = invoke_mode_with_timeout_override call h msg timeout took in
        let counters =
          (invocation_sink type_name msg.topic result took fl of_i64 show_nat show_int as_i64
            hooks).counters in
        let each : ℕ → ℕ = λ w. per_metrics type_name w (chain_of h.middleware) % usize_mod in
        (Map.get "kafpy.message.throughput" counters ≡ some (each (if is_ok result then 1 else 0)))
        × (Map.get "kafpy.handler.error" counters ≡ some (each (if is_ok result then 0 else 1)))
  unfolding invocation_sink shared new register_counter register_histogram register_gauge Map.get
      Map.insert
  invocation_sink_lem h msg timeout took =
      let result = (invoke_mode_with_timeout_override call h msg timeout took).0 in
      let hooks = (invoke_mode_with_timeout_override call h msg timeout took).1 in
      let rs =
        record_hooks type_name msg.topic result took fl of_i64 show_nat show_int as_i64 hooks in
      let counted : (name : String) (w : ℕ)
          → ((m : Middleware)
              → count_hook type_name msg.topic result took fl of_i64 show_nat show_int as_i64 name
                  (close type_name msg.topic result took fl of_i64 show_nat show_int as_i64 m)
                ≡ weight w (kind_of (type_name m)))
          → times name rs ≡ per_metrics type_name w (chain_of h.middleware) =
        λ name w each.
          ap (count type_name msg.topic result took fl of_i64 show_nat show_int as_i64 name)
            (invoke-nested call h msg timeout took)
          ∙ count-nested type_name msg.topic result took fl of_i64 show_nat show_int as_i64 name w
              (close type_name msg.topic result took fl of_i64 show_nat show_int as_i64)
              (chain_of h.middleware) each in
      let shown : (name : String) (n : ℕ)
          → Map.get name (shared {F64 = fl.F64}).counters ≡ some 0
          → times name rs ≡ n
          → Map.get name (perform_all as_i64 shared rs).counters ≡ some (n % usize_mod) =
        λ name n found e.
          let plain : (0 + times name rs) % usize_mod ≡ n % usize_mod = rw e (omega arith) in
          perform_all-counter as_i64 shared name rs 0 found (omega arith) ∙ ap some plain in
      (
        shown "kafpy.message.throughput" _ refl (
            counted "kafpy.message.throughput" _
              (throughput_hook type_name msg.topic result took fl of_i64 show_nat show_int as_i64)),
        shown "kafpy.handler.error" _ refl (
            counted "kafpy.handler.error" _
              (error_hook type_name msg.topic result took fl of_i64 show_nat show_int as_i64)),
      )
