-- ===== src/Pipeline/Decode/Compare.antt =====
-- Operands of the decoders, and `decodeBEQ`, `decodeBNEQ`, `decodeBGTZ` and `decodeBLTZ`.
use mscs.Common.{ℕ, ◌+◌, ◌==◌, Bool, true, false, not, if◌then◌else◌, none, some, []}
use mscs.Common.Int.{eqb_ℤ, is_positive, is_negative}
use mscs.Common.Outcome.{Outcome, ok, fail, ◌>>=◌, ◌>>◌, guard, invalid_register, invalid_label}
use mscs.Common.Text.{Text}
use mscs.Common.Dict.{lookup}
use mscs.Simulator.Double.{Double}
use mscs.Simulator.Operand.{next_operand}
use mscs.Pipeline.Cpu.{
  Target, integer_target, float_target, Cpu, validate_register, integer_register, float_register,
}
use mscs.Pipeline.Hazard.{unless_pending}

-- `&float_registers[reg]` or `&integer_registers[reg]`
unfoldable pub register_target : Bool → Text → Target
register_target is_double reg = if is_double then float_target reg else integer_target reg

module _ {V : Type 0} where
  unfoldable pub set_target : Text → Target → Cpu V → Cpu V
  set_target name target c = record c {
    decode_execute = record c.decode_execute { target = target; target_register = name };
  }

  -- An operand in `char reg[size]` that names a register, and the rest of the line.
  unfoldable pub valid_operand : ℕ → Bool → Text → Cpu V → Outcome (Text × Text)
  unfolding next_operand validate_register
  valid_operand size is_double line c = do
    (reg, rest) ← next_operand size line
    guard (validate_register is_double reg c) invalid_register
    ok (reg, rest)

  -- A branch that is taken to another place than the program counter's flushes what was fetched.
  unfoldable pub branch_to : ℕ → Cpu V → Cpu V
  branch_to line c =
      if line == c.program_counter
      then record c { program_counter = line }
      else record c { program_counter = line; ir = []; stall_count = c.stall_count + 1 }

  unfoldable pub branch : Text → Cpu V → Outcome (Cpu V)
  unfolding lookup branch_to
  branch label c = elim (lookup label c.mlabels) [
    | none ↦ fail invalid_label
    | some line ↦ ok (branch_to line c)
  ]

  unfoldable pub branch_if : Bool → Text → Cpu V → Outcome (Cpu V)
  unfolding branch
  branch_if true label c = branch label c
  branch_if false label c = ok c

module _ (D : Double) where
  open D use {Value, zero_value, equal, above_zero, below_zero}

  unfoldable pub registers_equal : Bool → Text → Text → Cpu Value → Bool
  unfolding integer_register float_register
  registers_equal is_double a b c =
      if is_double
      then equal (float_register zero_value a c) (float_register zero_value b c)
      else eqb_ℤ (integer_register a c) (integer_register b c)

  unfoldable pub register_above : Bool → Text → Cpu Value → Bool
  unfolding integer_register float_register
  register_above is_double a c =
      if is_double
      then above_zero (float_register zero_value a c)
      else is_positive (integer_register a c)

  unfoldable pub register_below : Bool → Text → Cpu Value → Bool
  unfolding integer_register float_register
  register_below is_double a c =
      if is_double
      then below_zero (float_register zero_value a c)
      else is_negative (integer_register a c)

  -- Behind the hazard test of a branch of two registers, which is made of the first one only.
  unfoldable pub compare_two :
      (Bool → Text → Text → Cpu Value → Bool) → Text → Text → Cpu Value → Outcome (Cpu Value)
  unfolding valid_operand branch_if
  compare_two test source1 rest c = do
    (source2, rest') ← valid_operand 20 c.decode_execute.is_double rest c
    (label, _) ← next_operand 20 rest'
    branch_if (test c.decode_execute.is_double source1 source2 c) label c

  unfoldable pub decode_two :
      (Bool → Text → Text → Cpu Value → Bool) → Text → Cpu Value → Outcome (Cpu Value)
  unfolding compare_two unless_pending
  decode_two test line c = do
    (source1, rest) ← valid_operand 20 c.decode_execute.is_double line c
    unless_pending D source1 c (compare_two test source1 rest)

  unfoldable pub decode_beq : Text → Cpu Value → Outcome (Cpu Value)
  unfolding decode_two registers_equal
  decode_beq = decode_two registers_equal

  unfoldable pub decode_bneq : Text → Cpu Value → Outcome (Cpu Value)
  unfolding decode_two registers_equal
  decode_bneq = decode_two (λ is_double a b c. not (registers_equal is_double a b c))

  unfoldable pub compare_zero :
      (Bool → Text → Cpu Value → Bool) → Text → Text → Cpu Value → Outcome (Cpu Value)
  unfolding branch_if next_operand
  compare_zero test source rest c = do
    (label, _) ← next_operand 20 rest
    branch_if (test c.decode_execute.is_double source c) label c

  unfoldable pub decode_one :
      (Bool → Text → Cpu Value → Bool) → Text → Cpu Value → Outcome (Cpu Value)
  unfolding compare_zero unless_pending valid_operand
  decode_one test line c = do
    (source, rest) ← valid_operand 20 c.decode_execute.is_double line c
    unless_pending D source c (compare_zero test source rest)

  unfoldable pub decode_bgtz : Text → Cpu Value → Outcome (Cpu Value)
  unfolding decode_one register_above
  decode_bgtz = decode_one register_above

  unfoldable pub decode_bltz : Text → Cpu Value → Outcome (Cpu Value)
  unfolding decode_one register_below
  decode_bltz = decode_one register_below
