-- ===== src/Prelude/Int.antt =====
-- Signed integers over the native numbers, under the library's names, and the 64-bit successor
-- and predecessor, which wrap around as the release build does.
use Prim.Native.Nat.{ℕ, zero, suc, ◌+◌, ◌≤◌, ◌<◌}
use mathlib.Core.Path.{◌≡◌}
use mathlib.Core.Logic.{◌↔◌}
use mathlib.Core.Bool.{Bool, true}
use native.Mathlib.Omega.{arith}
use kaf_py.Prelude.Tests.{ltb, leb, eqb, if◌then◌else◌}
use kaf_py.Prelude.Equality.{HasTest}

-- `negsuc n` is -(n + 1).
pub data ℤ : Type 0 where
  pos : ℕ → ℤ
  negsuc : ℕ → ℤ

abbrev pub pos_part : ℤ → ℕ
pos_part (pos n) = n
pos_part (negsuc n) = 0

abbrev pub neg_part : ℤ → ℕ
neg_part (pos n) = 0
neg_part (negsuc n) = suc n

infix 50 ◌≤ℤ◌ ◌<ℤ◌
abbrev pub ◌≤ℤ◌ : ℤ → ℤ → Type 0
a ≤ℤ b = pos_part a + neg_part b ≤ pos_part b + neg_part a

abbrev pub ◌<ℤ◌ : ℤ → ℤ → Type 0
a <ℤ b = pos_part a + neg_part b < pos_part b + neg_part a

abbrev pub ltb_ℤ : ℤ → ℤ → Bool
ltb_ℤ a b = ltb (pos_part a + neg_part b) (pos_part b + neg_part a)

abbrev pub leb_ℤ : ℤ → ℤ → Bool
leb_ℤ a b = leb (pos_part a + neg_part b) (pos_part b + neg_part a)

abbrev pub beq_ℤ : ℤ → ℤ → Bool
beq_ℤ a b = eqb (pos_part a + neg_part b) (pos_part b + neg_part a)

pub eq_of_parts : (a b : ℤ) → pos_part a + neg_part b ≡ pos_part b + neg_part a → a ≡ b
eq_of_parts a b h = ground arith

beq_ℤ-refl : (a : ℤ) → beq_ℤ a a ≡ true
beq_ℤ-refl a = ground arith

pub beq_ℤ_iff : (a b : ℤ) → (beq_ℤ a b ≡ true) ↔ (a ≡ b)
beq_ℤ_iff a b = (λ h. eq_of_parts a b (ground arith), λ e. rw e (beq_ℤ-refl b))

instance abbrev pub int_eq : HasTest ℤ
int_eq = record { test_iff = beq_ℤ_iff; test = beq_ℤ }

-- i64::MAX
abbrev pub i64_max : ℕ
i64_max = 9223372036854775807

-- z + 1 on i64
unfoldable pub succ_i64 : ℤ → ℤ
succ_i64 (pos n) = if eqb n i64_max then negsuc i64_max else pos (suc n)
succ_i64 (negsuc zero) = pos 0
succ_i64 (negsuc (suc n)) = negsuc n

-- z - 1 on i64
unfoldable pub pred_i64 : ℤ → ℤ
pred_i64 (pos zero) = negsuc 0
pred_i64 (pos (suc n)) = pos n
pred_i64 (negsuc n) = if eqb n i64_max then pos i64_max else negsuc (suc n)

-- Below the largest value the successor is z + 1.
pub succ_i64_parts :
    (z : ℤ)
    → z <ℤ pos i64_max
    → pos_part (succ_i64 z) + neg_part z ≡ suc (pos_part z + neg_part (succ_i64 z))
unfolding succ_i64
succ_i64_parts (pos n) h = ground arith
succ_i64_parts (negsuc zero) h = omega arith
succ_i64_parts (negsuc (suc n)) h = omega arith

-- From zero up the predecessor is z - 1.
pub pred_i64_parts : (n : ℕ) → suc (pos_part (pred_i64 (pos n))) ≡ n + neg_part (pred_i64 (pos n))
unfolding pred_i64
pred_i64_parts zero = omega arith
pred_i64_parts (suc n) = omega arith
