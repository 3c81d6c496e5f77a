-- ===== src/Tomasulo/Registers.antt =====
-- The two register files, the write-back stage, and what every functional unit has in common.
pub mod Written
use mscs.Common.{ℕ, ◌==◌, Bool, true, false, if◌then◌else◌, none, some, []}
use mscs.Common.Int.{ℤ, pos, pos_part}
use mscs.Common.Outcome.{Outcome, ok, undefined, ◌>>=◌}
use mscs.Common.Text.{Text}
use mscs.Common.Dict.{Dict, lookup, contains, assign, insert}
use mscs.Simulator.Double.{Double}
use mscs.Simulator.Machine.{integer_names, float_names, insert_all}
use mscs.Tomasulo.Types.{
  Register, Pointer, null, integer_at, float_at, FinalValue, ival, dval, Instruction,
  instruction_reset, WriteBack, Machine, FunctionalUnit, ArithmeticUnit, Opcode, code,
}

-- A register file: the map, and the casts of pointers to its registers.
pub record File (V S : Type 0) : Type 0 where
  pub registers : Machine V → Dict (Register S)
  pub set_registers : Dict (Register S) → Machine V → Machine V
  pub point_at : Text → Pointer
  pub cast : Pointer → Outcome Text
  pub initial : S

abbrev pub fresh : {S : Type 0} → S → Register S
fresh v = record { val = v; wait_on = none }

-- `getWaitOnFUid() == -1`
abbrev pub is_free : {S : Type 0} → Register S → Bool
is_free r = elim r.wait_on [ none ↦ true | some id ↦ false ]

-- `((IntegerRegisterFS *)p)->..` and `((FloatRegisterFS *)p)->..`
unfoldable pub as_integer : Pointer → Outcome Text
as_integer (integer_at reg) = ok reg
as_integer (float_at reg) = undefined
as_integer null = undefined

unfoldable pub as_float : Pointer → Outcome Text
as_float (float_at reg) = ok reg
as_float (integer_at reg) = undefined
as_float null = undefined

module _ {V : Type 0} where
  unfoldable pub integer_file : File V ℤ
  unfolding as_integer
  integer_file = record {
    registers = λ m. m.integer_registers;
    set_registers = λ d m. record m { integer_registers = d };
    point_at = integer_at;
    cast = as_integer;
    initial = pos 0;
  }

  unfoldable pub float_file : V → File V V
  unfolding as_float
  float_file zero_value = record {
    registers = λ m. m.float_registers;
    set_registers = λ d m. record m { float_registers = d };
    point_at = float_at;
    cast = as_float;
    initial = zero_value;
  }

  -- `validateRegister`
  unfoldable pub validate_register : Bool → Text → Machine V → Bool
  unfolding contains
  validate_register is_double reg m =
      if is_double then contains reg m.float_registers else contains reg m.integer_registers

module _ {V S : Type 0} (R : File V S) where
  -- `registers[reg]`; a missing register is made.
  unfoldable pub register : Text → Machine V → Register S
  unfolding lookup
  register reg m = elim (lookup reg (R.registers m)) [ none ↦ fresh R.initial | some r ↦ r ]

  unfoldable pub touch : Text → Machine V → Machine V
  unfolding insert
  touch reg m = R.set_registers (insert reg (fresh R.initial) (R.registers m)) m

  unfoldable pub set_register : Text → Register S → Machine V → Machine V
  unfolding assign
  set_register reg r m = R.set_registers (assign reg r (R.registers m)) m

  -- `setWaitOnFUid`
  unfoldable pub set_wait_on : Text → ℕ → Machine V → Machine V
  unfolding set_register register
  set_wait_on reg id m = set_register reg (record (register reg m) { wait_on = some id }) m

  -- `getWaitOnFUid() == -1 || getWaitOnFUid() == myFUid`
  unfoldable pub may_take : ℕ → Text → Machine V → Bool
  unfolding register
  may_take id reg m = elim ((register reg m).wait_on) [ none ↦ true | some other ↦ other == id ]

  -- `setval(v); resetRegister();` of the register that a pointer holds the address of.
  unfoldable pub write_register : Pointer → S → Machine V → Outcome (Machine V)
  unfolding set_register
  write_register p v m = do
    reg ← R.cast p
    ok (set_register reg (record { val = v; wait_on = none }) m)

abbrev pub is_null : Pointer → Bool
is_null null = true
is_null (integer_at reg) = false
is_null (float_at reg) = false

abbrev pub eq_opcode : Opcode → Opcode → Bool
eq_opcode a b = code a == code b

-- Reading a member of the union.
unfoldable pub read_ival : {V : Type 0} → FinalValue V → Outcome ℤ
read_ival (ival v) = ok v
read_ival (dval v) = undefined

unfoldable pub read_dval : {V : Type 0} → FinalValue V → Outcome V
read_dval (dval v) = ok v
read_dval (ival v) = undefined

module _ (D : Double) where
  open D use {Value, zero_value}

  -- `initializeRegisters`
  unfoldable pub initialize_registers : Machine Value → Machine Value
  unfolding insert_all
  initialize_registers m = record m {
    integer_registers = insert_all integer_names (fresh (pos 0)) m.integer_registers;
    float_registers = insert_all float_names (fresh zero_value) m.float_registers;
  }

  -- `WriteBack()` and `WriteBack::reset`
  unfoldable pub reset_write_back : WriteBack Value
  reset_write_back = record {
    target_reg = [];
    is_double = false;
    busy = false;
    val = dval zero_value;
    target = null;
  }

  unfoldable pub write_result : WriteBack Value → Machine Value → Outcome (Machine Value)
  unfolding write_register read_dval read_ival
  write_result w m =
      if w.is_double
      then (read_dval w.val >>= λ v. write_register (float_file zero_value) w.target v m)
      else (read_ival w.val >>= λ v. write_register integer_file w.target v m)

  -- `WriteBack::run`
  unfoldable pub run_write_back : Machine Value → Outcome (Machine Value)
  unfolding write_result reset_write_back
  run_write_back m =
      if m.write_back.busy
      then (write_result m.write_back m >>= λ m'. ok (record m' { write_back = reset_write_back }))
      else ok m

  -- `sendtowriteback`, which fails while the bus has something to write.
  unfoldable pub send_to_write_back :
      Bool → FinalValue Value → Pointer → Text → Machine Value → Bool × Machine Value
  send_to_write_back is_double v target reg m = if m.write_back.busy then (false, m) else (
    true,
    record m {
      write_back = record {
        target_reg = reg;
        is_double = is_double;
        busy = true;
        val = v;
        target = target;
      };
    },
  )

  -- `FunctionalUnit::assignInstruction`, behind `setBusyStatus`.
  unfoldable pub assign_instruction :
      Instruction → Machine Value → FunctionalUnit Value → FunctionalUnit Value
  assign_instruction i m u =
      let cycles : ℕ = elim (m.opcode_cycles i.opcode) [ none ↦ 0 | some c ↦ pos_part c ] in
      record u { busy = true; ins = i; i_count = cycles; remaining = cycles; do_not_execute = true }

  -- `FunctionalUnit::resetFU`
  unfoldable pub reset_unit : FunctionalUnit Value → FunctionalUnit Value
  unfolding instruction_reset
  reset_unit u = record u {
    busy = false;
    do_not_execute = false;
    i_count = 0;
    remaining = 0;
    wait_to_write_back = false;
    final_value = dval zero_value;
    ins = instruction_reset u.ins;
  }

  -- `resetFU` of the arithmetic units.
  unfoldable pub reset_arithmetic :
      {S : Type 0} → S → ArithmeticUnit Value S → ArithmeticUnit Value S
  unfolding reset_unit
  reset_arithmetic zero_s u = record u {
    fu = reset_unit u.fu;
    j = record { v = null; q = null; s = zero_s };
    k = record { v = null; q = null; s = zero_s };
  }
