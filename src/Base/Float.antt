-- ===== src/Base/Float.antt =====
-- Rust's f64, as far as the operator computes with it. The numbers and their rounding are those of the
-- processor: a parameter of what uses them.
use streamline_operator.Base.{ℕ, String, Bool}
use streamline_operator.Base.Int.{ℤ}

pub record Floats : Type 1 where
  pub F64 : Type 0
  -- The literal that is the quotient of two numbers.
  pub literal : ℕ → ℕ → F64
  -- `as f64` of an integer
  pub of_ℤ : ℤ → F64
  -- `==`, `>`, `*` and `/`
  pub eqb : F64 → F64 → Bool
  pub gtb : F64 → F64 → Bool
  pub times : F64 → F64 → F64
  pub over : F64 → F64 → F64
  pub ceil : F64 → F64
  -- `as i32`, which saturates
  pub to_i32 : F64 → ℤ
  -- `{:.1}`, `{:.0}` and `{}` of `format!`
  pub show_one : F64 → String
  pub show_none : F64 → String
  pub show : F64 → String
