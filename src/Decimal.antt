-- ===== src/Decimal.antt =====
-- Python's `Decimal`, through its operations. Every operation of `decimal` rounds its exact result
-- to the context's 28 digits, so the model fixes no representation: definitions take the operations
-- as `DecimalOps`, and a theorem that needs an order law takes `DecimalLaws`, whose fields are laws
-- that correctly rounded arithmetic keeps (rounding is monotone). NaN and infinities, which the
-- program's values never are, and the division by zero, which the program tests for, are left out.
pub mod Laws
pub mod Scaled
use agent_trading.Base.{ℕ, Bool, Option, none, some, not, if◌then◌else◌, List, [], ◌∷◌}
use agent_trading.Base.Int.{ℤ, pos}

-- The rounding modes that the program passes to `quantize`.
pub data Rounding : Type 0 where
  half_even round_down : Rounding

pub record DecimalOps : Type 1 where
  pub Num : Type 0
  -- `Decimal(n)` for an int
  pub of_ℤ : ℤ → Num
  -- `n / 10 ** k`, the value of a literal such as `Decimal("0.01")`
  pub literal : ℕ → ℕ → Num
  pub add : Num → Num → Num
  pub sub : Num → Num → Num
  pub mul : Num → Num → Num
  pub div : Num → Num → Num
  pub abs : Num → Num
  -- `a <= b`
  pub leb : Num → Num → Bool
  -- `x.quantize(Decimal(10) ** -k, rounding=r)`
  pub quantize : Rounding → ℕ → Num → Num
  -- `int(x.to_integral_value())`
  pub to_integral : Num → ℤ

module _ (D : DecimalOps) where
  open D use {Num, of_ℤ, leb}

  abbrev pub zero_d : Num
  zero_d = of_ℤ (pos 0)

  abbrev pub one_d : Num
  one_d = of_ℤ (pos 1)

  -- `a < b`
  abbrev pub lt_d : Num → Num → Bool
  lt_d a b = not (leb b a)

  -- `min(a, b)` and `max(a, b)`: the first argument on a tie.
  abbrev pub min_d : Num → Num → Num
  min_d a b = if leb a b then a else b

  abbrev pub max_d : Num → Num → Num
  max_d a b = if leb b a then a else b

  -- `sum(xs, start)`
  abbrev pub sum_d : Num → List Num → Num
  sum_d start [] = start
  sum_d start (x ∷ xs) = sum_d (D.add start x) xs
