-- ===== src/Prelude/Number.antt =====
-- Floating point as the code uses it: the operations on JavaScript numbers, with no law assumed.
-- What is proved over every `Number` holds of IEEE doubles with their rounding and NaN.
use Prim.Native.Nat.{ℕ, ◌+◌, ◌*◌, ◌/◌}
use mathlib.Core.Bool.{Bool}
use repomap_core.Prelude.Tests.{ltb, leb}

pub record Number : Type 1 where
  pub Carrier : Type 0
  pub of_ℕ : ℕ → Carrier
  pub plus : Carrier → Carrier → Carrier
  pub over : Carrier → Carrier → Carrier
  pub times : Carrier → Carrier → Carrier
  -- `a < b` and `a <= b`, which are independent where NaN is about
  pub lt : Carrier → Carrier → Bool
  pub le : Carrier → Carrier → Bool

-- Fixed point with six decimals, the precision of the cost columns, for the examples.
abbrev pub micros : Number
micros = record {
  Carrier = ℕ;
  of_ℕ = λ n. n * 1000000;
  plus = λ a b. a + b;
  over = λ a b. a * 1000000 / b;
  times = λ a b. a * b / 1000000;
  lt = ltb;
  le = leb;
}
