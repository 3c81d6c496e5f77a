-- ===== src/Simulator/Arithmetic/Encode.antt =====
-- The arithmetic handlers on lines of operands.
use mscs.Common.{zero, suc, ◌<◌, ◌≡◌, ◌≢◌, refl, Bool, true, false, some, length, arith}
use mscs.Common.Int.{ℤ, pos, negsuc, quot, fits_int, ◌+ℤ◌}
use mscs.Common.Outcome.{Outcome, ok}
use mscs.Common.Text.{Text, text_eq_iff, text_eq_refl, contains_text}
use mscs.Common.Dict.{lookup, lookup-assign}
use mscs.Simulator.Double.{Double}
use mscs.Simulator.Operand.{dot_d, c_string-lt}
use mscs.Simulator.Operand.Encode.{
  IsOperand, two_operands, three_operands, next_operand-comma, next_operand-last,
}
use mscs.Simulator.Machine.{
  Machine, validate_register, integer_register, set_integer, subscript_cycles, charge,
}
use mscs.Simulator.Arithmetic.{
  checked_int, three_registers, assign_integer, execute_arithmetic, add_int, sub_int, mul_int,
  div_int, execute_add, execute_sub, execute_mul, execute_div,
}

module _ {V : Type 0} where
  -- A register name that fits `char reg[4]` and that is there.
  abbrev pub IsRegister : Bool → Machine V → Text → Type 0
  IsRegister is_double m s = IsOperand 4 s × (validate_register is_double s m ≡ true)

  three_registers-three_operands :
      (is_double : Bool) (a b c : Text) (m : Machine V)
      → IsRegister is_double m a
      → IsRegister is_double m b
      → IsRegister is_double m c
      → three_registers is_double (three_operands a b c) m ≡ ok (a, b, c)
  unfolding three_registers
  three_registers-three_operands is_double a b c m ha hb hc =
      rw
        (
          next_operand-comma 4 a (two_operands b c) ha.0,
          ha.1,
          next_operand-comma 4 b c hb.0,
          hb.1,
          next_operand-last 4 c hc.0,
          hc.1,
        )
        refl

  three_registers-two_operands :
      (is_double : Bool) (a b : Text) (m : Machine V)
      → IsRegister is_double m a
      → IsRegister is_double m b
      → three_registers is_double (two_operands a b) m ≡ ok (a, b, b)
  unfolding three_registers
  three_registers-two_operands is_double a b m ha hb =
      rw
        (
          next_operand-comma 4 a b ha.0,
          ha.1,
          next_operand-last 4 b hb.0,
          hb.1,
          next_operand-last 4 b hb.0,
          hb.1,
        )
        refl

  -- An opcode of at most nine characters with known cycles is charged them.
  pub charge_lem :
      (op : Text) (cycles : ℤ) (m : Machine V)
      → length op < 10
      → lookup op m.opcode_cycles ≡ some cycles
      → charge op m ≡ ok (record m { cycle_count = m.cycle_count +ℤ cycles })
  unfolding charge
  charge_lem op cycles m short known = rw (c_string-lt 10 op short, known, subscript_cycles) refl

  -- What an integer instruction leaves: the new value in the target, every other register, the
  -- memory and the program counter as they were, and its cycles counted.
  pub record Computed (target : Text) (v cycles : ℤ) (m m' : Machine V) : Type 0 where
    pub result : lookup target m'.integer_registers ≡ some v
    pub others :
        (r : Text) → r ≢ target → lookup r m'.integer_registers ≡ lookup r m.integer_registers
    pub floats : m'.float_registers ≡ m.float_registers
    pub memory : m'.mem ≡ m.mem
    pub counter : m'.program_counter ≡ m.program_counter
    pub cost : m'.cycle_count ≡ m.cycle_count +ℤ cycles

  set_integer-Computed :
      (target : Text) (v cycles : ℤ) (m : Machine V)
      → Computed target v cycles m
          (record (set_integer target v m) { cycle_count = m.cycle_count +ℤ cycles })
  unfolding set_integer
  set_integer-Computed target v cycles m = record {
    result = rw (lookup-assign target target v m.integer_registers, text_eq_refl target);
    others =
        λ r ne. ground (arith, lookup-assign target r v m.integer_registers, text_eq_iff target r);
    floats = refl;
    memory = refl;
    counter = refl;
    cost = refl;
  }

  -- The handler of an integer operator `f`, where its result is defined.
  pub execute_arithmetic_lem :
      (zero_value : V) (f : ℤ → ℤ → Outcome ℤ) (g : V → V → V) (op a b c : Text) (v cycles : ℤ)
      (m : Machine V)
      → contains_text dot_d op ≡ false
      → length op < 10
      → lookup op m.opcode_cycles ≡ some cycles
      → IsRegister false m a
      → IsRegister false m b
      → IsRegister false m c
      → f (integer_register b m) (integer_register c m) ≡ ok v
      → execute_arithmetic zero_value f g op (three_operands a b c) m
        ≡ ok (record (set_integer a v m) { cycle_count = m.cycle_count +ℤ cycles })
  unfolding execute_arithmetic assign_integer set_integer
  execute_arithmetic_lem zero_value f g op a b c v cycles m int short known ha hb hc defined =
      rw (int, three_registers-three_operands false a b c m ha hb hc, defined)
        (charge_lem op cycles (set_integer a v m) short known)

  pub execute_arithmetic-Computed :
      (zero_value : V) (f : ℤ → ℤ → Outcome ℤ) (g : V → V → V) (op a b c : Text) (v cycles : ℤ)
      (m : Machine V)
      → contains_text dot_d op ≡ false
      → length op < 10
      → lookup op m.opcode_cycles ≡ some cycles
      → IsRegister false m a
      → IsRegister false m b
      → IsRegister false m c
      → f (integer_register b m) (integer_register c m) ≡ ok v
      → (m' : Machine V) × (execute_arithmetic zero_value f g op (three_operands a b c) m ≡ ok m')
        × Computed a v cycles m m'
  execute_arithmetic-Computed zero_value f g op a b c v cycles m int short known ha hb hc defined =
      (
        record (set_integer a v m) { cycle_count = m.cycle_count +ℤ cycles },
        execute_arithmetic_lem zero_value f g op a b c v cycles m int short known ha hb hc defined,
        set_integer-Computed a v cycles m,
      )

  execute_arithmetic-two_operands :
      (zero_value : V) (f : ℤ → ℤ → Outcome ℤ) (g : V → V → V) (op a b : Text) (m : Machine V)
      → IsRegister (contains_text dot_d op) m a
      → IsRegister (contains_text dot_d op) m b
      → execute_arithmetic zero_value f g op (two_operands a b) m
        ≡ execute_arithmetic zero_value f g op (three_operands a b b) m
  unfolding execute_arithmetic
  execute_arithmetic-two_operands zero_value f g op a b m ha hb =
      rw
        (
          three_registers-two_operands (contains_text dot_d op) a b m ha hb,
          three_registers-three_operands (contains_text dot_d op) a b b m ha hb hb,
        )
        refl

-- Division by a number that is not 0.
pub div_int_lem : (x y : ℤ) → y ≢ pos 0 → fits_int (quot x y) ≡ true → div_int x y ≡ ok (quot x y)
unfolding div_int checked_int
div_int_lem x (pos zero) ne fits = absurd (ne refl)
div_int_lem x (pos (suc n)) ne fits = ground arith
div_int_lem x (negsuc n) ne fits = ground arith

module _ (D : Double) where
  open D use {Value}

  -- Every arithmetic instruction, of integers or of doubles, accepts a line without its second
  -- source, and uses the first one twice.
  pub arithmetic-two_operands :
      (op a b : Text) (m : Machine Value)
      → IsRegister (contains_text dot_d op) m a
      → IsRegister (contains_text dot_d op) m b
      → (execute_add D op (two_operands a b) m ≡ execute_add D op (three_operands a b b) m)
        × (execute_sub D op (two_operands a b) m ≡ execute_sub D op (three_operands a b b) m)
        × (execute_mul D op (two_operands a b) m ≡ execute_mul D op (three_operands a b b) m)
        × (execute_div D op (two_operands a b) m ≡ execute_div D op (three_operands a b b) m)
  unfolding execute_add execute_sub execute_mul execute_div
  arithmetic-two_operands op a b m ha hb = (
    execute_arithmetic-two_operands D.zero_value add_int D.add op a b m ha hb,
    execute_arithmetic-two_operands D.zero_value sub_int D.sub op a b m ha hb,
    execute_arithmetic-two_operands D.zero_value mul_int D.mul op a b m ha hb,
    execute_arithmetic-two_operands D.zero_value div_int D.div op a b m ha hb,
  )

  module _ (op a b c : Text) (cycles : ℤ) (m : Machine Value) (int : contains_text dot_d op ≡ false)
      (short : length op < 10) (known : lookup op m.opcode_cycles ≡ some cycles)
      (ha : IsRegister false m a) (hb : IsRegister false m b) (hc : IsRegister false m c) where
    -- An `ADD` of three integer registers, whose sum is an `int`, puts the sum into the first, adds
    -- the opcode's cycles, and changes no other register, no memory and no program counter.
    pub execute_add-Computed :
        fits_int (integer_register b m +ℤ integer_register c m) ≡ true
        → (m' : Machine Value) × (execute_add D op (three_operands a b c) m ≡ ok m')
          × Computed a (integer_register b m +ℤ integer_register c m) cycles m m'
    unfolding execute_add add_int checked_int
    execute_add-Computed fits =
        execute_arithmetic-Computed D.zero_value add_int D.add op a b c _ cycles m int short known
          ha hb hc (rw fits)

    -- A `DIV` of three integer registers, for a divisor that is not 0 and a quotient that is an
    -- `int`, puts the quotient, rounded towards zero, into the first, adds the opcode's cycles, and
    -- changes no other register, no memory and no program counter.
    pub execute_div-Computed :
        integer_register c m ≢ pos 0
        → fits_int (quot (integer_register b m) (integer_register c m)) ≡ true
        → (m' : Machine Value) × (execute_div D op (three_operands a b c) m ≡ ok m')
          × Computed a (quot (integer_register b m) (integer_register c m)) cycles m m'
    unfolding execute_div
    execute_div-Computed nonzero fits =
        execute_arithmetic-Computed D.zero_value div_int D.div op a b c _ cycles m int short known
          ha hb hc (div_int_lem (integer_register b m) (integer_register c m) nonzero fits)
