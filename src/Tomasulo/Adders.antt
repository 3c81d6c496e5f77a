-- ===== src/Tomasulo/Adders.antt =====
-- `execute` of `IntegerAdd` and of `FloatAdd`, which do the branches and the moves too.
pub mod Moves
use mscs.Common.{Bool, false, not, ◌&&◌, ◌||◌, ltb, if◌then◌else◌, List, [], ◌∷◌}
use mscs.Common.Int.{ℤ, pos, eqb_ℤ, is_positive, is_negative}
use mscs.Common.Outcome.{Outcome, ok, ◌>>=◌}
use mscs.Simulator.Double.{Double}
use mscs.Simulator.Arithmetic.{add_int, sub_int}
use mscs.Tomasulo.Types.{
  Opcode, add, add_d, sub, sub_d, load_immediate, beq, bneq, bgtz, bltz, move, beq_d, bneq_d,
  bgtz_d, bltz_d, move_d, FinalValue, ival, dval, Instruction, Machine, Operand, ArithmeticUnit,
}
use mscs.Tomasulo.Registers.{File, integer_file, float_file, is_null, eq_opcode, reset_arithmetic}
use mscs.Tomasulo.Units.{keep_running, tick, at_start, fetch_operand, begin, send_or_wait}

-- The opcode is one of the list.
abbrev pub is_one_of : Opcode → List Opcode → Bool
is_one_of op [] = false
is_one_of op (o ∷ os) = eq_opcode op o || is_one_of op os

abbrev has_value : {S : Type 0} → Operand S → Bool
has_value o = not (is_null o.v)

module _ {V : Type 0} where
  -- `if(bStallDueToBranch) bStallIF = bStallDueToBranch = false;`
  unfoldable pub release_branch : Machine V → Machine V
  release_branch m =
      if m.stall_due_to_branch
      then record m { stall_if = false; stall_due_to_branch = false }
      else m

  -- `programCounter = ins.getbranchTarget();`
  unfoldable pub jump_if : Bool → Instruction → Machine V → Machine V
  jump_if test i m = if test then record m { program_counter = i.branch_target } else m

  -- The operands, before the first cycle: the second one only where the instruction has it.
  unfoldable pub fetch_some :
      {S : Type 0} → File V S → Bool → ArithmeticUnit V S → Machine V → Outcome (ArithmeticUnit V S)
  unfolding fetch_operand
  fetch_some R second u m = do
    j ← fetch_operand R u.fu.ins.source_reg1 m u.j
    k ← if second then fetch_operand R u.fu.ins.source_reg2 m u.k else ok u.k
    ok (record u { j = j; k = k })

  -- A cycle of an instruction whose operands are there: `needs_target` of one that has to take its
  -- target first.
  unfoldable pub advance :
      {S : Type 0}
      → File V S
      → Bool
      → ArithmeticUnit V S
      → Machine V
      → ArithmeticUnit V S × Machine V
  unfolding begin tick
  advance R needs_target u m =
      if at_start u.fu && needs_target
      then (let (fu, m') = begin R u.fu m in (record u { fu = fu }, m'))
      else (record u { fu = tick u.fu }, m)

  -- `LI` has no operands, `MOVE`, `BGTZ` and `BLTZ` have one.
  unfoldable pub iadd_ready : Opcode → ArithmeticUnit V ℤ → Bool
  iadd_ready op u =
      eq_opcode op load_immediate
      || (has_value u.j && has_value u.k)
      || (is_one_of op (move ∷ bgtz ∷ bltz ∷ []) && has_value u.j)

  unfoldable pub iadd_cycle :
      ArithmeticUnit V ℤ → Machine V → Outcome (ArithmeticUnit V ℤ × Machine V)
  unfolding fetch_some advance iadd_ready
  iadd_cycle u m = do
    let op = u.fu.ins.opcode
    u' ←
        if not (eq_opcode op load_immediate) && at_start u.fu
        then fetch_some integer_file (not (is_one_of op (bltz ∷ bgtz ∷ move ∷ []))) u m
        else ok u
    ok (
        if iadd_ready op u'
        then advance integer_file (is_one_of op (add ∷ sub ∷ load_immediate ∷ [])) u' m
        else (u', m))

  -- `BNEQ`, `BEQ`, `BLTZ` and `BGTZ`.
  unfoldable pub iadd_branch : ArithmeticUnit V ℤ → Machine V → Machine V
  unfolding release_branch jump_if
  iadd_branch u m =
      let op = u.fu.ins.opcode in
      if is_one_of op (bneq ∷ beq ∷ [])
      then jump_if
          ((eq_opcode op bneq && not (eqb_ℤ u.j.s u.k.s))
            || (eq_opcode op beq && eqb_ℤ u.j.s u.k.s))
          u.fu.ins (release_branch m)
      else if is_one_of op (bltz ∷ bgtz ∷ [])
      then jump_if
          ((eq_opcode op bltz && is_negative u.j.s) || (eq_opcode op bgtz && is_positive u.j.s))
          u.fu.ins (release_branch m)
      else m

  unfoldable pub iadd_result : ArithmeticUnit V ℤ → Outcome (FinalValue V)
  unfolding add_int sub_int
  iadd_result u =
      let op = u.fu.ins.opcode in
      if u.fu.wait_to_write_back
      then ok u.fu.final_value
      else if eq_opcode op add
      then (add_int u.j.s u.k.s >>= λ v. ok (ival v))
      else if eq_opcode op sub
      then (sub_int u.j.s u.k.s >>= λ v. ok (ival v))
      else if eq_opcode op load_immediate
      then ok (ival u.fu.ins.i_immediate)
      else ok (ival u.j.s)

module _ (D : Double) where
  open D use {Value, zero_value, equal, above_zero, below_zero}

  -- A result of `MOVE` goes to the bus as a `double`.
  unfoldable pub iadd_finish :
      ArithmeticUnit Value ℤ → Machine Value → Outcome (ArithmeticUnit Value ℤ × Machine Value)
  unfolding iadd_result iadd_branch send_or_wait reset_arithmetic
  iadd_finish u m =
      let op = u.fu.ins.opcode in
      if is_one_of op (add ∷ sub ∷ load_immediate ∷ move ∷ [])
      then (iadd_result u >>= λ v. ok (send_or_wait D (pos 0) (eq_opcode op move) v u m))
      else ok (reset_arithmetic D (pos 0) u, if u.fu.wait_to_write_back then m else iadd_branch u m)

  -- `IntegerAdd::execute`
  unfoldable pub execute_iadd :
      ArithmeticUnit Value ℤ → Machine Value → Outcome (ArithmeticUnit Value ℤ × Machine Value)
  unfolding keep_running iadd_cycle iadd_finish
  execute_iadd u m =
      let m' = keep_running u.fu.busy m in
      if u.fu.do_not_execute || not u.fu.busy
      then ok (record u { fu = record u.fu { do_not_execute = false } }, m')
      else if ltb 0 u.fu.remaining
      then iadd_cycle u m'
      else iadd_finish u m'

  -- `BGTZ.D`, `BLTZ.D` and `MOVE.D` have one operand; they too take a target first.
  unfoldable pub fadd_cycle :
      ArithmeticUnit Value Value
      → Machine Value
      → Outcome (ArithmeticUnit Value Value × Machine Value)
  unfolding fetch_some advance
  fadd_cycle u m = do
    let op = u.fu.ins.opcode
    let two = is_one_of op (sub_d ∷ add_d ∷ bneq_d ∷ beq_d ∷ [])
    let one = is_one_of op (bltz_d ∷ bgtz_d ∷ move_d ∷ [])
    u' ← if at_start u.fu then fetch_some (float_file zero_value) two u m else ok u
    ok (
        if (two && has_value u'.j && has_value u'.k) || (one && has_value u'.j)
        then advance (float_file zero_value)
            (is_one_of op (add_d ∷ sub_d ∷ bltz_d ∷ bgtz_d ∷ move_d ∷ [])) u' m
        else (u', m))

  -- The tests are those of the code, which compares with the opcodes of the integer branches.
  unfoldable pub fadd_branch : ArithmeticUnit Value Value → Machine Value → Machine Value
  unfolding release_branch jump_if
  fadd_branch u m =
      let op = u.fu.ins.opcode in
      if is_one_of op (bneq_d ∷ beq_d ∷ [])
      then jump_if
          ((eq_opcode op bneq && not (equal u.j.s u.k.s))
            || (eq_opcode op beq && equal u.j.s u.k.s))
          u.fu.ins (release_branch m)
      else if is_one_of op (bltz_d ∷ bgtz_d ∷ [])
      then jump_if
          ((eq_opcode op bltz && below_zero u.j.s) || (eq_opcode op bgtz && above_zero u.j.s))
          u.fu.ins (release_branch m)
      else m

  unfoldable pub fadd_result : ArithmeticUnit Value Value → FinalValue Value
  fadd_result u =
      let op = u.fu.ins.opcode in
      if u.fu.wait_to_write_back
      then u.fu.final_value
      else if eq_opcode op add_d
      then dval (D.add u.j.s u.k.s)
      else if eq_opcode op sub_d
      then dval (D.sub u.j.s u.k.s)
      else dval u.j.s

  -- A result of `MOVE.D` goes to the bus as an `int`.
  unfoldable pub fadd_finish :
      ArithmeticUnit Value Value → Machine Value → ArithmeticUnit Value Value × Machine Value
  unfolding fadd_result fadd_branch send_or_wait reset_arithmetic
  fadd_finish u m =
      let op = u.fu.ins.opcode in
      if is_one_of op (add_d ∷ sub_d ∷ move_d ∷ [])
      then send_or_wait D zero_value (not (eq_opcode op move_d)) (fadd_result u) u m
      else (reset_arithmetic D zero_value u, if u.fu.wait_to_write_back then m else fadd_branch u m)

  -- `FloatAdd::execute`
  unfoldable pub execute_fadd :
      ArithmeticUnit Value Value
      → Machine Value
      → Outcome (ArithmeticUnit Value Value × Machine Value)
  unfolding keep_running fadd_cycle fadd_finish
  execute_fadd u m =
      let m' = keep_running u.fu.busy m in
      if u.fu.do_not_execute || not u.fu.busy
      then ok (record u { fu = record u.fu { do_not_execute = false } }, m')
      else if ltb 0 u.fu.remaining
      then fadd_cycle u m'
      else ok (fadd_finish u m')
