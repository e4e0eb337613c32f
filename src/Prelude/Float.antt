-- ===== src/Prelude/Float.antt =====
-- The double-precision arithmetic that the program uses, and the conversions of `Duration`, as an
-- interface. A duration is a number of nanoseconds.
use Prim.Native.Nat.{ℕ}
use mathlib.Core.Option.{Option}

pub record Float64 : Type 1 where
  pub F64 : Type 0
  pub one : F64
  pub two : F64
  pub add : F64 → F64 → F64
  pub sub : F64 → F64 → F64
  pub mul : F64 → F64 → F64
  pub fmin : F64 → F64 → F64
  pub powf : F64 → F64 → F64
  pub of_usize : ℕ → F64
  pub as_secs_f64 : ℕ → F64
  -- `none` is the panic on a negative, overflowing or undefined number of seconds.
  pub from_secs_f64 : F64 → Option ℕ
