-- ===== src/Simulator/Arithmetic.antt =====
-- `executeADD`, `executeSUB`, `executeMUL`, `executeDIV`, `executeMOVE` and `executeNOOP`. The four
-- arithmetic handlers are the same text but for the operator, which is an argument here.
pub mod Encode
use mscs.Common.{ℕ, ◌+◌, Bool, true, false, not, if◌then◌else◌, Option, none, some, ◌==◌}
use mscs.Common.Int.{ℤ, pos_part, neg_part, ◌+ℤ◌, ◌-ℤ◌, ◌*ℤ◌, quot, fits_int}
use mscs.Common.Outcome.{Outcome, ok, undefined, ◌>>=◌, ◌>>◌, guard, invalid_register}
use mscs.Common.Text.{Text, contains_text}
use mscs.Simulator.Double.{Double}
use mscs.Simulator.Operand.{next_operand, dot_d}
use mscs.Simulator.Machine.{
  Machine, validate_register, integer_register, float_register, set_integer, set_float, charge,
}

-- A result of `int` arithmetic; overflow is undefined.
unfoldable pub checked_int : ℤ → Outcome ℤ
checked_int v = if fits_int v then ok v else undefined

unfoldable pub add_int : ℤ → ℤ → Outcome ℤ
unfolding checked_int ◌+ℤ◌
add_int a b = checked_int (a +ℤ b)

unfoldable pub sub_int : ℤ → ℤ → Outcome ℤ
unfolding checked_int ◌-ℤ◌
sub_int a b = checked_int (a -ℤ b)

unfoldable pub mul_int : ℤ → ℤ → Outcome ℤ
unfolding checked_int ◌*ℤ◌
mul_int a b = checked_int (a *ℤ b)

unfoldable pub div_int : ℤ → ℤ → Outcome ℤ
unfolding checked_int quot
div_int a b = if pos_part b + neg_part b == 0 then undefined else checked_int (quot a b)

module _ {V : Type 0} where
  -- The loop `while(icount < 3)`: the names of the target and of the two sources.
  unfoldable pub three_registers : Bool → Text → Machine V → Outcome (Text × Text × Text)
  unfolding next_operand validate_register
  three_registers is_double line m = do
    (target, rest) ← next_operand 4 line
    guard (validate_register is_double target m) invalid_register
    (source1, rest') ← next_operand 4 rest
    guard (validate_register is_double source1 m) invalid_register
    (source2, _) ← next_operand 4 rest'
    guard (validate_register is_double source2 m) invalid_register
    ok (target, source1, source2)

  -- The assignment to the target, of `int`s and of `double`s.
  unfoldable pub assign_integer :
      (ℤ → ℤ → Outcome ℤ) → Text × Text × Text → Machine V → Outcome (Machine V)
  unfolding integer_register set_integer
  assign_integer operator (target, source1, source2) m = do
    v ← operator (integer_register source1 m) (integer_register source2 m)
    ok (set_integer target v m)

  unfoldable pub assign_float :
      V → (V → V → V) → Text × Text × Text → Machine V → Outcome (Machine V)
  unfolding float_register set_float
  assign_float zero_value operator (target, source1, source2) m = ok (
      set_float target
        (operator (float_register zero_value source1 m) (float_register zero_value source2 m)) m)

  -- The whole of an arithmetic handler.
  unfoldable pub execute_arithmetic :
      V → (ℤ → ℤ → Outcome ℤ) → (V → V → V) → Text → Text → Machine V → Outcome (Machine V)
  unfolding three_registers assign_integer assign_float charge
  execute_arithmetic zero_value int_operator float_operator op line m = do
    let is_double = contains_text dot_d op
    names ← three_registers is_double line m
    m' ←
        if is_double
        then assign_float zero_value float_operator names m
        else assign_integer int_operator names m
    charge op m'

module _ (D : Double) where
  open D use {Value, zero_value, add, sub, mul, div, of_int, to_int}

  unfoldable pub execute_add : Text → Text → Machine Value → Outcome (Machine Value)
  unfolding execute_arithmetic add_int
  execute_add = execute_arithmetic zero_value add_int add

  unfoldable pub execute_sub : Text → Text → Machine Value → Outcome (Machine Value)
  unfolding execute_arithmetic sub_int
  execute_sub = execute_arithmetic zero_value sub_int sub

  unfoldable pub execute_mul : Text → Text → Machine Value → Outcome (Machine Value)
  unfolding execute_arithmetic mul_int
  execute_mul = execute_arithmetic zero_value mul_int mul

  unfoldable pub execute_div : Text → Text → Machine Value → Outcome (Machine Value)
  unfolding execute_arithmetic div_int
  execute_div = execute_arithmetic zero_value div_int div

  unfoldable pub execute_noop : Text → Text → Machine Value → Outcome (Machine Value)
  unfolding charge
  execute_noop op line m = charge op m

  -- The conversion of `MOVE.D` (the register holds a `double`) and of `MOVE`.
  unfoldable pub convert : Bool → Text → Text → Machine Value → Outcome (Machine Value)
  unfolding set_integer set_float integer_register float_register
  convert true source target m = elim (to_int (float_register zero_value source m)) [
    | none ↦ undefined
    | some v ↦ ok (set_integer target v m)
  ]
  convert false source target m = ok (set_float target (of_int (integer_register source m)) m)

  unfoldable pub execute_move : Text → Text → Machine Value → Outcome (Machine Value)
  unfolding next_operand validate_register convert charge
  execute_move op line m = do
    let is_double = contains_text dot_d op
    (source, rest) ← next_operand 4 line
    guard (validate_register is_double source m) invalid_register
    (target, _) ← next_operand 4 rest
    guard (validate_register (not is_double) target m) invalid_register
    m' ← convert is_double source target m
    charge op m'
