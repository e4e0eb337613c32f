-- ===== src/Prelude/Equality.antt =====
-- A Boolean test of equality as an interface, for the keys of maps, and its instances.
use Prim.Native.Nat.{ℕ}
use Prim.Native.String.{String}
use mathlib.Core.Path.{◌≡◌, refl}
use mathlib.Core.Logic.{◌↔◌}
use mathlib.Core.Bool.{Bool, true}
use text.Mathlib.Text.{◌==◌ as str_eq}
use text.Mathlib.TextEquality.{eq_iff}
use kaf_py.Prelude.Tests.{eqb, eqb_iff}

-- `test` decides whether two keys are equal.
pub record HasTest {ℓ} (K : Type ℓ) : Type ℓ where
  pub test : K → K → Bool
  pub test_iff : (j k : K) → (test j k ≡ true) ↔ (j ≡ k)

infix 50 ◌==◌
abbrev pub ◌==◌ {κ} : {K : Type κ} ⦃h : HasTest K⦄ (j k : K) → Bool
◌==◌ ⦃h⦄ j k = h.test j k

pub beq_refl {κ} : {K : Type κ} ⦃h : HasTest K⦄ (k : K) → (k == k) ≡ true
beq_refl ⦃h⦄ k = (h.test_iff k k).1 refl

instance abbrev pub string_eq : HasTest String
string_eq = record { test_iff = eq_iff; test = str_eq }

instance abbrev pub nat_eq : HasTest ℕ
nat_eq = record { test_iff = eqb_iff; test = eqb }
