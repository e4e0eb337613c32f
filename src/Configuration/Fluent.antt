-- ===== src/Configuration/Fluent.antt =====
-- A builder whose setters change their object and return a copy of it, as those of src/config.rs do.
use kaf_py.Prelude.{◌≡◌, refl, Bool, true, false, List, [], ◌∷◌, if◌then◌else◌}

module _ {Builder Setter : Type 0} (set : Builder → Setter → Builder) where
  -- The assignments alone, in their order.
  abbrev pub assigned : Builder → List (Bool × Setter) → Builder
  assigned b [] = b
  assigned b ((chained, setter) ∷ rest) = assigned (set b setter) rest

  module _ (clone : Builder → Builder) where
    -- A call of a setter: the object after it, and the copy that it returns.
    abbrev pub call : Builder → Setter → Builder × Builder
    call b setter = (set b setter, clone (set b setter))

    -- Calls in a row. After each, `true` goes on with the copy that it returned, as a chain of calls
    -- does, and `false` with the object that it was called on.
    abbrev pub calls : Builder → List (Bool × Setter) → Builder
    calls b [] = b
    calls b ((chained, setter) ∷ rest) =
        let (object, copy) = call b setter in calls (if chained then copy else object) rest

    pub calls_lem :
        ((b : Builder) → clone b ≡ b)
        → (b : Builder) (steps : List (Bool × Setter)) → calls b steps ≡ assigned b steps
    calls_lem same b [] = refl
    calls_lem same b ((true, setter) ∷ rest) =
        rw (same (set b setter)) (calls_lem same (set b setter) rest)
    calls_lem same b ((false, setter) ∷ rest) = calls_lem same (set b setter) rest
