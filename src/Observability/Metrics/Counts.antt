-- ===== src/Observability/Metrics/Counts.antt =====
-- What the metrics of src/observability/metrics.rs show after a sequence of recordings.
use kaf_py.Prelude.{
  ℕ, ◌+◌, ◌%◌, ◌<◌, ◌≡◌, refl, ap, ◌∙◌, Bool, true, false, Option, none, some, String, ℤ, List, [],
  ◌∷◌, arith, string_eq, ◌==◌, usize_mod, if◌then◌else◌, Bool-cases, Option-cases, inl, inr,
}
use kaf_py.Prelude.Map
use kaf_py.Observability.Metrics.{PrometheusSink, Recording, perform, perform_all}

module _ {F64 : Type 0} where
  -- How often the counter was recorded, whatever the labels.
  abbrev pub times : String → List (Recording F64) → ℕ
  times name [] = 0
  times name (Recording.record_counter other labels ∷ rs) =
      (if other == name then 1 else 0) + times name rs
  times name (Recording.record_histogram other value labels ∷ rs) = times name rs
  times name (Recording.record_gauge other value labels ∷ rs) = times name rs

  -- The last value that was recorded for the gauge, whatever the labels.
  abbrev pub last_value : String → Option F64 → List (Recording F64) → Option F64
  last_value name last [] = last
  last_value name last (Recording.record_counter other labels ∷ rs) = last_value name last rs
  last_value name last (Recording.record_histogram other value labels ∷ rs) =
      last_value name last rs
  last_value name last (Recording.record_gauge other value labels ∷ rs) =
      last_value name (if other == name then some value else last) rs

  perform-counter :
      (as_i64 : F64 → ℤ) (s : PrometheusSink F64) (name other : String)
      (labels : List (String × String)) (n : ℕ)
      → Map.get name s.counters ≡ some n
      → Map.get name (perform as_i64 s (Recording.record_counter other labels)).counters
        ≡ some (if other == name then (n + 1) % usize_mod else n)
  unfolding perform
  perform-counter as_i64 s name other labels n found = elim (Bool-cases (other == name)) [
    | inl same ↦
        let there : Map.get other s.counters ≡ some n =
          rw ((string_eq.test_iff other name).0 same) found in
        rw (perform, there, same)
          (rw (Map.get-insert name other ((n + 1) % usize_mod) s.counters, same) refl)
    | inr away ↦ elim (Option-cases (Map.get other s.counters)) [
      | inl e ↦ rw (perform, e, away) found
      | inr (m, e) ↦
          rw (perform, e, away)
            (rw (Map.get-insert_ne name other ((m + 1) % usize_mod) s.counters away) found)
    ]
  ]

  perform-gauge :
      (as_i64 : F64 → ℤ) (s : PrometheusSink F64) (name other : String) (value : F64)
      (labels : List (String × String)) (v : ℤ)
      → Map.get name s.gauges ≡ some v
      → Map.get name (perform as_i64 s (Recording.record_gauge other value labels)).gauges
        ≡ some (if other == name then as_i64 value else v)
  unfolding perform
  perform-gauge as_i64 s name other value labels v found = elim (Bool-cases (other == name)) [
    | inl same ↦
        let there : Map.get other s.gauges ≡ some v =
          rw ((string_eq.test_iff other name).0 same) found in
        rw (perform, there, same)
          (rw (Map.get-insert name other (as_i64 value) s.gauges, same) refl)
    | inr away ↦ elim (Option-cases (Map.get other s.gauges)) [
      | inl e ↦ rw (perform, e, away) found
      | inr (w, e) ↦
          rw (perform, e, away)
            (rw (Map.get-insert_ne name other (as_i64 value) s.gauges away) found)
    ]
  ]

  -- A recording of one kind leaves the metrics of the others.
  counter-others :
      (as_i64 : F64 → ℤ) (s : PrometheusSink F64) (name : String) (labels : List (String × String))
      → (perform as_i64 s (Recording.record_counter name labels)).gauges ≡ s.gauges
  unfolding perform
  counter-others as_i64 s name labels = elim (Option-cases (Map.get name s.counters)) [
    | inl e ↦ rw (perform, e) refl
    | inr (n, e) ↦ rw (perform, e) refl
  ]

  histogram-others :
      (as_i64 : F64 → ℤ) (s : PrometheusSink F64) (name : String) (value : F64)
      (labels : List (String × String))
      → let s' = perform as_i64 s (Recording.record_histogram name value labels) in
        (s'.counters ≡ s.counters) × (s'.gauges ≡ s.gauges)
  unfolding perform
  histogram-others as_i64 s name value labels = elim (Option-cases (Map.get name s.histograms)) [
    | inl e ↦ rw (perform, e) (refl, refl)
    | inr (n, e) ↦ rw (perform, e) (refl, refl)
  ]

  gauge-others :
      (as_i64 : F64 → ℤ) (s : PrometheusSink F64) (name : String) (value : F64)
      (labels : List (String × String))
      → (perform as_i64 s (Recording.record_gauge name value labels)).counters ≡ s.counters
  unfolding perform
  gauge-others as_i64 s name value labels = elim (Option-cases (Map.get name s.gauges)) [
    | inl e ↦ rw (perform, e) refl
    | inr (n, e) ↦ rw (perform, e) refl
  ]

  -- After any recordings in any order, a counter that is registered has grown by the number of those
  -- that name it, whatever their labels are, modulo 2^64.
  pub perform_all-counter :
      (as_i64 : F64 → ℤ) (s : PrometheusSink F64) (name : String) (rs : List (Recording F64))
      (n : ℕ)
      → Map.get name s.counters ≡ some n
      → n < usize_mod
      → Map.get name (perform_all as_i64 s rs).counters ≡ some ((n + times name rs) % usize_mod)
  unfolding perform_all
  perform_all-counter as_i64 s name [] n found h =
      let same : n ≡ (n + 0) % usize_mod = omega arith in found ∙ ap some same
  perform_all-counter as_i64 s name (Recording.record_counter other labels ∷ rs) n found h =
      let step = perform-counter as_i64 s name other labels n found in
      elim (Bool-cases (other == name)) [
        | inl same ↦
            let stepped = rw same at step in
            let rest =
              perform_all-counter as_i64 (perform as_i64 s (Recording.record_counter other labels))
                name rs ((n + 1) % usize_mod) stepped (omega arith) in
            rest ∙ ap some (rw same (omega arith))
        | inr away ↦
            let stepped = rw away at step in
            let rest =
              perform_all-counter as_i64 (perform as_i64 s (Recording.record_counter other labels))
                name rs n stepped h in
            rest ∙ ap some (rw away (omega arith))
      ]
  perform_all-counter as_i64 s name (Recording.record_histogram other value labels ∷ rs) n found h =
      perform_all-counter as_i64 (perform as_i64 s (Recording.record_histogram other value labels))
        name rs n (rw ((histogram-others as_i64 s other value labels).0) found) h
  perform_all-counter as_i64 s name (Recording.record_gauge other value labels ∷ rs) n found h =
      perform_all-counter as_i64 (perform as_i64 s (Recording.record_gauge other value labels)) name
        rs n (rw (gauge-others as_i64 s other value labels) found) h

  -- What a gauge shows.
  abbrev pub shown : (F64 → ℤ) → ℤ → Option F64 → ℤ
  shown as_i64 v none = v
  shown as_i64 v (some value) = as_i64 value

  shown-if :
      (as_i64 : F64 → ℤ) (v : ℤ) (last : Option F64) (value : F64) (b : Bool)
      → (if b then as_i64 value else shown as_i64 v last)
        ≡ shown as_i64 v (if b then some value else last)
  shown-if as_i64 v last value true = refl
  shown-if as_i64 v last value false = refl

  gauge-run :
      (as_i64 : F64 → ℤ) (s : PrometheusSink F64) (name : String) (rs : List (Recording F64))
      (v : ℤ) (last : Option F64)
      → Map.get name s.gauges ≡ some (shown as_i64 v last)
      → Map.get name (perform_all as_i64 s rs).gauges
        ≡ some (shown as_i64 v (last_value name last rs))
  unfolding perform_all
  gauge-run as_i64 s name [] v last found = found
  gauge-run as_i64 s name (Recording.record_counter other labels ∷ rs) v last found =
      gauge-run as_i64 (perform as_i64 s (Recording.record_counter other labels)) name rs v last
        (rw (counter-others as_i64 s other labels) found)
  gauge-run as_i64 s name (Recording.record_histogram other value labels ∷ rs) v last found =
      gauge-run as_i64 (perform as_i64 s (Recording.record_histogram other value labels)) name rs v
        last (rw ((histogram-others as_i64 s other value labels).1) found)
  gauge-run as_i64 s name (Recording.record_gauge other value labels ∷ rs) v last found =
      gauge-run as_i64 (perform as_i64 s (Recording.record_gauge other value labels)) name rs v
        (if other == name then some value else last)
        (perform-gauge as_i64 s name other value labels (shown as_i64 v last) found
          ∙ ap some (shown-if as_i64 v last value (other == name)))

  -- After any recordings in any order, a gauge that is registered shows the last value that was recorded
  -- under its name, whatever the labels are, or the value from before if there is none: it does not
  -- keep a value for each set of labels.
  pub perform_all-gauge :
      (as_i64 : F64 → ℤ) (s : PrometheusSink F64) (name : String) (rs : List (Recording F64))
      (v : ℤ)
      → Map.get name s.gauges ≡ some v
      → Map.get name (perform_all as_i64 s rs).gauges
        ≡ some (shown as_i64 v (last_value name none rs))
  perform_all-gauge as_i64 s name rs v found = gauge-run as_i64 s name rs v none found
