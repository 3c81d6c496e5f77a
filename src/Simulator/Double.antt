-- ===== src/Simulator/Double.antt =====
-- The type `double` of the simulator, with the operations and the conversions that the code
-- uses. The checker has no floating-point numbers, so they are a parameter of the model.
use mscs.Common.{Bool, Option}
use mscs.Common.Int.{ℤ}
use mscs.Common.Text.{Text}

pub record Double : Type 1 where
  pub Value : Type 0
  pub zero_value : Value
  pub add : Value → Value → Value
  pub sub : Value → Value → Value
  pub mul : Value → Value → Value
  pub div : Value → Value → Value
  -- `==`, `> 0` and `< 0`
  pub equal : Value → Value → Bool
  pub above_zero : Value → Bool
  pub below_zero : Value → Bool
  -- `int` to `double`, and back, where the truncated value is an `int`
  pub of_int : ℤ → Value
  pub to_int : Value → Option ℤ
  -- `atof`, and the `%f` and the `%g` of `sprintf`
  pub parse : Text → Value
  pub print : Value → Text
  pub print_short : Value → Text
