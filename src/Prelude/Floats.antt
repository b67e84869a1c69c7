-- ===== src/Prelude/Floats.antt =====
-- The floating-point type of the compiler and the operations that the program applies to it. They
-- are a parameter: no law of the arithmetic is built in.
use Prim.Native.Nat.{ℕ}
use mathlib.Core.Bool.{Bool}

-- `tenths n` is the value of a literal n/10, and `neg_tenths n` of -n/10. The program mixes float
-- and double; both are read at one type, and a conversion to an integer type is an operation.
pub record Floats : Type 1 where
  pub Float : Type 0
  pub lt : Float → Float → Bool
  pub add : Float → Float → Float
  pub sub : Float → Float → Float
  pub mul : Float → Float → Float
  pub div : Float → Float → Float
  pub tenths : ℕ → Float
  pub neg_tenths : ℕ → Float
  pub of_nat : ℕ → Float
  pub to_u32 : Float → ℕ
