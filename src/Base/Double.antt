-- ===== src/Base/Double.antt =====
-- `double`, which the type theory does not have: a type with the operations that the modelled code
-- uses. A development over it takes one as a section parameter. No law is assumed unless a theorem
-- names it.
use Prim.Native.Nat.{ℕ, ◌+◌, ◌-◌, ◌*◌, ◌/◌, ◌^◌}
use mathlib.Core.Bool.{Bool}
use ipb.Base.Tests.{ltb, leb}
use ipb.Base.Int.{ℤ, pos, pos_part}

pub record Doubles : Type 1 where
  pub Double : Type 0
  pub of_int : ℤ → Double
  -- `decimal m k` is the literal m / 10^k.
  pub decimal : ℕ → ℕ → Double
  pub add : Double → Double → Double
  pub sub : Double → Double → Double
  pub mul : Double → Double → Double
  pub div : Double → Double → Double
  pub lt : Double → Double → Bool
  pub le : Double → Double → Bool
  -- `static_cast<int64_t>`
  pub to_int : Double → ℤ
  -- `std::numeric_limits<double>::max()`
  pub greatest : Double

-- Thousandths of non-negative numbers, to run the models with.
abbrev pub thousandths : Doubles
thousandths = record {
  Double = ℕ;
  of_int = λ a. pos_part a * 1000;
  decimal = λ m k. m * 1000 / 10 ^ k;
  add = λ a b. a + b;
  sub = λ a b. a - b;
  mul = λ a b. a * b / 1000;
  div = λ a b. a * 1000 / b;
  lt = ltb;
  le = leb;
  to_int = λ a. pos (a / 1000);
  greatest = 10 ^ 30;
}
