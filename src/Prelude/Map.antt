-- ===== src/Prelude/Map.antt =====
-- A hash map as an association list. Its order stands for the iteration order of the map, which
-- the program leaves open.
use mathlib.Core.Path.{◌≡◌, refl, sym, subst, ◌∙◌}
use mathlib.Core.Logic.{inl, inr}
use mathlib.Core.Bool.{false}
use mathlib.Core.Option.{Option, none, some, some-injective}
use mathlib.Core.List.{List, [], ◌∷◌, map}
use native.Mathlib.Omega.{arith}
use kaf_py.Prelude.Tests.{if◌then◌else◌, Bool-cases}
use kaf_py.Prelude.Equality.{HasTest, ◌==◌, beq_refl}

abbrev pub Map {ℓ κ} : Type ℓ → Type κ → Type (ℓ ⊔ κ)
Map K V = List (K × V)

module _ {ℓ κ} {K : Type ℓ} {V : Type κ} where
  abbrev pub keys : Map K V → List K
  keys = map (λ p. p.0)

module _ {ℓ κ} {K : Type ℓ} {V : Type κ} ⦃e : HasTest K⦄ where
  unfoldable pub get : K → Map K V → Option V
  get k [] = none
  get k ((j, v) ∷ m) = if j == k then some v else get k m

  unfoldable pub insert : K → V → Map K V → Map K V
  insert k v [] = (k, v) ∷ []
  insert k v ((j, w) ∷ m) = if j == k then (j, v) ∷ m else (j, w) ∷ insert k v m

  unfoldable pub remove : K → Map K V → Map K V
  remove k [] = []
  remove k ((j, w) ∷ m) = let rest = remove k m in if j == k then rest else (j, w) ∷ rest

  pub get-insert :
      (j k : K) (v : V) (m : Map K V) → get j (insert k v m) ≡ (if k == j then some v else get j m)
  unfolding get insert
  get-insert j k v [] = refl
  get-insert j k v ((i, w) ∷ m) =
      ground (arith, e.test_iff k j, e.test_iff i k, e.test_iff i j, get-insert j k v m)

  pub get-remove : (j k : K) (m : Map K V) → get j (remove k m) ≡ (if k == j then none else get j m)
  unfolding get remove
  get-remove j k [] = ground arith
  get-remove j k ((i, w) ∷ m) =
      ground (arith, e.test_iff k j, e.test_iff i k, e.test_iff i j, get-remove j k m)

  pub get-insert_self : (k : K) (v : V) (m : Map K V) → get k (insert k v m) ≡ some v
  get-insert_self k v m = rw (get-insert k k v m, beq_refl k)

  pub get-insert_ne :
      (j k : K) (v : V) (m : Map K V) → (k == j) ≡ false → get j (insert k v m) ≡ get j m
  get-insert_ne j k v m h = rw (get-insert j k v m, h)

  -- A property of every value.
  abbrev pub Values {ι} : (V → Type ι) → Map K V → Type ι
  Values P [] = Unit
  Values P ((k, v) ∷ m) = P v × Values P m

  pub insert-Values {ι} :
      (P : V → Type ι) (k : K) (v : V) (m : Map K V) → Values P m → P v → Values P (insert k v m)
  unfolding insert
  insert-Values P k v [] h p = (p, tt)
  insert-Values P k v ((j, w) ∷ m) h p = elim (Bool-cases (j == k)) [
    | inl here ↦ rw here (p, h.1)
    | inr away ↦ rw away (h.0, insert-Values P k v m h.1 p)
  ]

  pub get-Values {ι} :
      (P : V → Type ι) (k : K) (m : Map K V) {v : V} → Values P m → get k m ≡ some v → P v
  unfolding get
  get-Values P k [] h e = cc
  get-Values P k ((j, w) ∷ m) {v} h e = elim (Bool-cases (j == k)) [
    | inl here ↦
        let found : get k ((j, w) ∷ m) ≡ some w = rw here refl in
        subst P (some-injective w v (sym found ∙ e)) h.0
    | inr away ↦ get-Values P k m h.1 (sym (rw away refl) ∙ e)
  ]

  pub insert-insert : (k : K) (v w : V) (m : Map K V) → insert k v (insert k w m) ≡ insert k v m
  unfolding insert
  insert-insert k v w [] = rw (beq_refl k) refl
  insert-insert k v w ((j, u) ∷ m) = elim (Bool-cases (j == k)) [
    | inl here ↦ rw (here, here) refl
    | inr away ↦ rw (away, away, insert-insert k v w m) refl
  ]
