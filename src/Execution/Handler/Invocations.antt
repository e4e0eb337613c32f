-- ===== src/Execution/Handler/Invocations.antt =====
-- What an invocation of a handler comes to, and in which order its middleware is called
-- (src/execution/callback.rs, src/middleware/chain.rs).
use mathlib.Core.List.{reverse, reverse_aux, append_assoc}
use kaf_py.Prelude.{
  ℕ, ◌≡◌, ◌↔◌, ◌⊎◌, ◌≤◌, refl, sym, ap, ◌∙◌, true, Option, none, some, List, [], ◌∷◌, ◌++◌, map,
  inl, inr, ltb, if◌then◌else◌, arith, Bool-cases,
}
use kaf_py.Message.{OwnedMessage}
use kaf_py.Execution.{ExecutionResult, is_ok}
use kaf_py.Execution.Handler.{
  HandlerMode, PythonHandler, Called, returned, raised, panicked, invoke_result,
  invoke_batch_result, single_result, Hook, before, after, on_error, before_all, after_all,
  on_error_all, chain_of, or_else, within, invoke, invoke_batch, invoke_mode,
  invoke_mode_with_timeout, invoke_mode_with_timeout_override,
}

-- The hooks of the chain around each other, as decorators: the first middleware is the outermost.
unfoldable pub nested :
    {Middleware : Type 0}
    → (Middleware → Hook Middleware)
    → List Middleware
    → List (Hook Middleware)
nested close [] = []
nested close (m ∷ chain) = before m ∷ (nested close chain ++ close m ∷ [])

module _ {Middleware : Type 0} where
  map-reverse_aux :
      (close : Middleware → Hook Middleware) (chain acc : List Middleware)
      → map close (reverse_aux chain acc) ≡ map close (reverse_aux chain []) ++ map close acc
  map-reverse_aux close [] acc = refl
  map-reverse_aux close (m ∷ chain) acc =
      map-reverse_aux close chain (m ∷ acc)
      ∙ sym (
          ap (λ l. l ++ map close acc) (map-reverse_aux close chain (m ∷ []))
          ∙ append_assoc (map close (reverse_aux chain [])) (close m ∷ []) (map close acc))

  closing-nested :
      (close : Middleware → Hook Middleware) (chain : List Middleware)
      → before_all chain ++ map close (reverse chain) ≡ nested close chain
  unfolding before_all nested
  closing-nested close [] = refl
  closing-nested close (m ∷ chain) =
      ap (λ l. before m ∷ l)
        (ap (λ l. before_all chain ++ l) (map-reverse_aux close chain (m ∷ []))
          ∙ sym (append_assoc (before_all chain) (map close (reverse chain)) (close m ∷ []))
          ∙ ap (λ l. l ++ close m ∷ []) (closing-nested close chain))

-- The call takes no longer than the timeout, if there is one.
abbrev pub InTime : Option ℕ → ℕ → Type 0
InTime none took = Unit
InTime (some limit) took = took ≤ limit

within-is_ok :
    (timeout : Option ℕ) (took : ℕ) (result : ExecutionResult)
    → (is_ok (within timeout took result) ≡ true) ↔ ((is_ok result ≡ true) × InTime timeout took)
unfolding within is_ok
within-is_ok none took result = (λ h. (h, tt), λ h. h.0)
within-is_ok (some limit) took result = elim (Bool-cases (ltb limit took)) [
  | inl late ↦ rw late (λ h. cc, λ h. ground (arith, late, h.1))
  | inr timely ↦ rw timely (λ h. (h, ground (arith, timely)), λ h. h.0)
]

pub mode-cases : (m : HandlerMode) → (m ≡ HandlerMode.single_sync) ⊎ (m ≡ HandlerMode.batch_sync)
mode-cases HandlerMode.single_sync = inl refl
mode-cases HandlerMode.batch_sync = inr refl

single-is_ok : (c : Called) → (is_ok (invoke_result c) ≡ true) ↔ (c ≡ returned)
unfolding invoke_result is_ok
single-is_ok returned = (λ h. refl, λ h. refl)
single-is_ok (raised repr name text) = (λ h. cc, λ h. cc)
single-is_ok panicked = (λ h. cc, λ h. cc)

batch-is_ok :
    (msgs : List OwnedMessage) (c : Called)
    → (is_ok (single_result (invoke_batch_result msgs c)) ≡ true) ↔ (c ≡ returned)
unfolding invoke_batch_result single_result is_ok
batch-is_ok msgs returned = (λ h. refl, λ h. refl)
batch-is_ok msgs (raised repr name text) = (λ h. cc, λ h. cc)
batch-is_ok msgs panicked = (λ h. cc, λ h. cc)

module _ {Callback Middleware Policy Sink : Type 0}
    (call : Callback → List OwnedMessage → Called) where
  -- The hooks of an invocation are those of nested decorators, the first middleware outermost: each middleware is entered once
  -- and left once, by `after` if the invocation succeeds and by `on_error` if it does not, for any timeout that
  -- overrides the handler's.
  pub invoke-nested :
      (h : PythonHandler Callback Middleware Policy Sink) (msg : OwnedMessage) (timeout : Option ℕ)
      (took : ℕ)
      → let (result, hooks) = invoke_mode_with_timeout_override call h msg timeout took in
        hooks ≡ nested (λ m. if is_ok result then after m else on_error m) (chain_of h.middleware)
  unfolding invoke_mode_with_timeout_override after_all on_error_all
  invoke-nested h msg timeout took =
      let result = (invoke_mode_with_timeout_override call h msg timeout took).0 in
      elim (Bool-cases (is_ok result)) [
        | inl fine ↦ rw fine (closing-nested (λ m. after m) (chain_of h.middleware))
        | inr failed ↦ rw failed (closing-nested (λ m. on_error m) (chain_of h.middleware))
      ]

  invoke_mode-is_ok :
      (h : PythonHandler Callback Middleware Policy Sink) (msg : OwnedMessage)
      → (is_ok (invoke_mode call h msg) ≡ true) ↔ (call h.callback (msg ∷ []) ≡ returned)
  unfolding invoke_mode invoke invoke_batch
  invoke_mode-is_ok h msg = elim (mode-cases h.mode) [
    | inl single ↦ rw (invoke_mode, single) (single-is_ok (call h.callback (msg ∷ [])))
    | inr batch ↦ rw (invoke_mode, batch) (batch-is_ok (msg ∷ []) (call h.callback (msg ∷ [])))
  ]

  -- An invocation succeeds exactly when the callable returns on the message alone and takes no longer than the timeout in force: the
  -- one that overrides, else the handler's, else none. In either mode.
  pub invoke-is_ok :
      (h : PythonHandler Callback Middleware Policy Sink) (msg : OwnedMessage) (timeout : Option ℕ)
      (took : ℕ)
      → (is_ok (invoke_mode_with_timeout_override call h msg timeout took).0 ≡ true) ↔ (
          (call h.callback (msg ∷ []) ≡ returned) × InTime (or_else timeout h.handler_timeout) took)
  unfolding invoke_mode_with_timeout_override
  invoke-is_ok h msg timeout took =
      let w = within-is_ok (or_else timeout h.handler_timeout) took (invoke_mode call h msg) in
      let m = invoke_mode-is_ok h msg in (λ r. (m.0 (w.0 r).0, (w.0 r).1), λ r. w.1 (m.1 r.0, r.1))

  -- An override by nothing is an invocation with the handler's own timeout.
  invoke-none :
      (h : PythonHandler Callback Middleware Policy Sink) (msg : OwnedMessage) (took : ℕ)
      → invoke_mode_with_timeout_override call h msg none took
        ≡ invoke_mode_with_timeout call h msg took
  unfolding invoke_mode_with_timeout_override invoke_mode_with_timeout
  invoke-none h msg took = refl
