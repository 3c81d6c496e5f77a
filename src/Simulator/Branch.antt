-- ===== src/Simulator/Branch.antt =====
-- `executeBEQ`, `executeBNEQ`, `executeBGTZ` and `executeBLTZ`.
pub mod Taken
use mscs.Common.{ℕ, Bool, true, false, not, if◌then◌else◌, Option, none, some}
use mscs.Common.Int.{ℤ, sub_ℕ, eqb_ℤ, is_positive, is_negative}
use mscs.Common.Outcome.{Outcome, ok, fail, ◌>>=◌, ◌>>◌, guard, invalid_register, invalid_label}
use mscs.Common.Text.{Text, contains_text}
use mscs.Common.Dict.{lookup}
use mscs.Simulator.Double.{Double}
use mscs.Simulator.Operand.{next_operand, dot_d}
use mscs.Simulator.Machine.{Machine, validate_register, integer_register, float_register, charge}

module _ {V : Type 0} where
  -- `programCounter = mlabels[label] - 1`, for the loop to step over.
  unfoldable pub jump : Text → Machine V → Outcome (Machine V)
  unfolding lookup
  jump label m = elim (lookup label m.mlabels) [
    | none ↦ fail invalid_label
    | some line ↦ ok (record m { program_counter = sub_ℕ line 1 })
  ]

  unfoldable pub jump_if : Bool → Text → Machine V → Outcome (Machine V)
  jump_if true label m = jump label m
  jump_if false label m = ok m

  -- A register operand, into `char reg[20]`.
  unfoldable pub branch_register : Bool → Text → Machine V → Outcome (Text × Text)
  unfolding next_operand validate_register
  branch_register is_double line m = do
    (reg, rest) ← next_operand 20 line
    guard (validate_register is_double reg m) invalid_register
    ok (reg, rest)

module _ (D : Double) where
  open D use {Value, zero_value, equal, above_zero, below_zero}

  -- The two comparisons of registers, and those with 0.
  unfoldable pub registers_equal : Bool → Text → Text → Machine Value → Bool
  unfolding integer_register float_register
  registers_equal is_double a b m =
      if is_double
      then equal (float_register zero_value a m) (float_register zero_value b m)
      else eqb_ℤ (integer_register a m) (integer_register b m)

  unfoldable pub register_above : Bool → Text → Machine Value → Bool
  unfolding integer_register float_register
  register_above is_double a m =
      if is_double
      then above_zero (float_register zero_value a m)
      else is_positive (integer_register a m)

  unfoldable pub register_below : Bool → Text → Machine Value → Bool
  unfolding integer_register float_register
  register_below is_double a m =
      if is_double
      then below_zero (float_register zero_value a m)
      else is_negative (integer_register a m)

  unfoldable pub execute_beq : Text → Text → Machine Value → Outcome (Machine Value)
  unfolding branch_register next_operand registers_equal jump_if charge
  execute_beq op line m = do
    let is_double = contains_text dot_d op
    (source1, rest) ← branch_register is_double line m
    (source2, rest') ← branch_register is_double rest m
    (label, _) ← next_operand 20 rest'
    m' ← jump_if (registers_equal is_double source1 source2 m) label m
    charge op m'

  unfoldable pub execute_bneq : Text → Text → Machine Value → Outcome (Machine Value)
  unfolding branch_register next_operand registers_equal jump_if charge
  execute_bneq op line m = do
    let is_double = contains_text dot_d op
    (source1, rest) ← branch_register is_double line m
    (source2, rest') ← branch_register is_double rest m
    (label, _) ← next_operand 20 rest'
    m' ← jump_if (not (registers_equal is_double source1 source2 m)) label m
    charge op m'

  unfoldable pub execute_bgtz : Text → Text → Machine Value → Outcome (Machine Value)
  unfolding branch_register next_operand register_above jump_if charge
  execute_bgtz op line m = do
    let is_double = contains_text dot_d op
    (source, rest) ← branch_register is_double line m
    (label, _) ← next_operand 20 rest
    m' ← jump_if (register_above is_double source m) label m
    charge op m'

  unfoldable pub execute_bltz : Text → Text → Machine Value → Outcome (Machine Value)
  unfolding branch_register next_operand register_below jump_if charge
  execute_bltz op line m = do
    let is_double = contains_text dot_d op
    (source, rest) ← branch_register is_double line m
    (label, _) ← next_operand 20 rest
    m' ← jump_if (register_below is_double source m) label m
    charge op m'
