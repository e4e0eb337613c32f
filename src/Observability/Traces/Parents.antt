-- ===== src/Observability/Traces/Parents.antt =====
-- The header `traceparent`: what src/observability/tracing.rs reads of it.
use Prim.Native.Char.{code}
use text.Mathlib.TextLemmas.{nil-append, cons-append}
use kaf_py.Prelude.{
  ◌≡◌, refl, false, some, String, concat, [], ◌∷◌, string_eq, eqb, Option-cases, inl, inr,
}
use kaf_py.Prelude.Map
use kaf_py.Prelude.Map.{Map}
use kaf_py.Observability.Traces.{split_dash, inject_traceparent, inject_trace_context, trace_of}

-- No character of the text is a dash.
abbrev pub HasNoDash : String → Type 0
HasNoDash String.[] = Unit
HasNoDash (String.◌∷◌ c s) = (eqb (code c) b'-' ≡ false) × HasNoDash s

split_dash-dash : (rest : String) → split_dash (concat "-" rest) ≡ "" ∷ split_dash rest
unfolding split_dash
split_dash-dash rest = rw (cons-append _ String.[] rest, nil-append rest) refl

-- A text without a dash is the first part.
split_dash-concat :
    (s rest : String) → HasNoDash s → split_dash (concat s (concat "-" rest)) ≡ s ∷ split_dash rest
unfolding split_dash
split_dash-concat String.[] rest h = rw (nil-append (concat "-" rest)) (split_dash-dash rest)
split_dash-concat (String.◌∷◌ c s) rest h =
    rw (cons-append c s (concat "-" rest), h.0, split_dash-concat s rest h.1) refl

split_dash_lem : (s : String) → HasNoDash s → split_dash s ≡ s ∷ []
unfolding split_dash
split_dash_lem String.[] h = refl
split_dash_lem (String.◌∷◌ c s) h = rw (h.0, split_dash_lem s h.1) refl

-- The text that a sender writes.
abbrev pub traceparent : String → String → String → String → String
traceparent version trace_id span_id flags =
    concat version (concat "-" (concat trace_id (concat "-" (concat span_id (concat "-" flags)))))

split_dash-traceparent :
    (version trace_id span_id flags : String)
    → HasNoDash version
    → HasNoDash trace_id
    → HasNoDash span_id
    → HasNoDash flags
    → split_dash (traceparent version trace_id span_id flags)
      ≡ version ∷ trace_id ∷ span_id ∷ flags ∷ []
split_dash-traceparent version trace_id span_id flags a b c d =
    rw
      (
        split_dash-concat version (concat trace_id (concat "-" (concat span_id (concat "-" flags))))
            a,
        split_dash-concat trace_id (concat span_id (concat "-" flags)) b,
        split_dash-concat span_id flags c,
        split_dash_lem flags d,
      )
      refl

-- The entries that the header gives.
abbrev entries : String → String → String → Map String String → Map String String
entries trace_id span_id flags rest =
    ("trace_id", trace_id) ∷ ("span_id", span_id) ∷ ("trace_flags", flags) ∷ rest

module _ (headers : Map String String) (version trace_id span_id flags : String)
    (e : Map.get "traceparent" headers ≡ some (traceparent version trace_id span_id flags))
    (a : HasNoDash version) (b : HasNoDash trace_id) (c : HasNoDash span_id)
    (d : HasNoDash flags) where
  inject_trace_context-traceparent :
      (state : Map String String) × (inject_trace_context headers []
        ≡ entries trace_id span_id flags state)
  unfolding inject_trace_context inject_traceparent Map.insert
  inject_trace_context-traceparent =
      let parts = split_dash-traceparent version trace_id span_id flags a b c d in
      elim (Option-cases (Map.get "tracestate" headers)) [
        | inl none_given ↦ ([], rw (inject_trace_context, none_given, e, parts) refl)
        | inr (state, given) ↦
            (("tracestate", state) ∷ [], rw (inject_trace_context, given, e, parts) refl)
      ]

  -- For a header `traceparent` of four texts without a dash, joined by dashes: the worker's context has
  -- the second as its trace, the third as its span and the fourth as its flags, whatever other headers
  -- there are.
  pub trace_of-traceparent :
      trace_of headers
      ≡ record { trace_id = some trace_id; span_id = some span_id; trace_flags = some flags }
  unfolding trace_of Map.get
  trace_of-traceparent =
      let (state, injected) = inject_trace_context-traceparent in rw (trace_of, injected) refl
