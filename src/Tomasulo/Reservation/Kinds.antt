-- ===== src/Tomasulo/Reservation/Kinds.antt =====
-- The part of `LoadReservationStation::run` inside the loops over the units, for each kind of
-- instruction.
use mscs.Common.{ℕ, Bool, true, false, if◌then◌else◌, [], ◌∷◌}
use mscs.Common.Int.{ℤ, pos}
use mscs.Simulator.Double.{Double}
use mscs.Tomasulo.Types.{
  Opcode, load_immediate, beq, bneq, bgtz, bltz, Instruction, Machine, MemoryUnit, ArithmeticUnit,
}
use mscs.Tomasulo.Registers.{
  File, is_free, integer_file, float_file, register, set_wait_on, is_null, eq_opcode,
  assign_instruction, reset_arithmetic,
}
use mscs.Tomasulo.MemoryUnits.{reset_memory_unit}
use mscs.Tomasulo.Adders.{is_one_of}
use mscs.Tomasulo.Reservation.{
  Verdict, accepted, full, dropped, blocked, open_both, open_first, open_both_if_free, bus_conflict,
  lock_target,
}

module _ (D : Double) where
  open D use {Value, zero_value}

  -- The part of the loop behind the operands; `conflict` is what becomes of `i` where the bus is
  -- about to write the target.
  unfoldable pub occupy :
      {S T : Type 0}
      → T
      → File Value S
      → Verdict
      → Instruction
      → ArithmeticUnit Value T × Machine Value
      → ArithmeticUnit Value T × Machine Value × Verdict
  unfolding assign_instruction reset_arithmetic bus_conflict lock_target
  occupy zero_s R conflict i (u, m) =
      let u' = record u { fu = assign_instruction D i m u.fu } in
      if is_null i.target
      then (u', m, accepted)
      else if bus_conflict i m
      then (reset_arithmetic D zero_s u', m, conflict)
      else (u', lock_target R i.target_reg u.fu.my_id m, accepted)

  -- `ADD` and `SUB`
  unfoldable pub issue_add :
      Instruction
      → ℕ
      → ArithmeticUnit Value ℤ
      → Machine Value
      → ArithmeticUnit Value ℤ × Machine Value × Verdict
  unfolding open_both occupy
  issue_add i _ u m = occupy (pos 0) integer_file full i (open_both integer_file i u m)

  -- Branches of integers, `MOVE` and `LI`. A branch stops the issue until it is decided.
  unfoldable pub stall_for_branch : Opcode → Machine Value → Machine Value
  stall_for_branch op m =
      if is_one_of op (beq ∷ bneq ∷ bgtz ∷ bltz ∷ [])
      then record m { stall_if = true; stall_due_to_branch = true }
      else m

  unfoldable pub open_other :
      Instruction → ArithmeticUnit Value ℤ → Machine Value → ArithmeticUnit Value ℤ × Machine Value
  unfolding open_both open_first
  open_other i u m =
      if eq_opcode i.opcode load_immediate
      then (u, m)
      else if is_one_of i.opcode (beq ∷ bneq ∷ [])
      then open_both integer_file i u m
      else open_first integer_file i u m

  unfoldable pub issue_other :
      Instruction
      → ℕ
      → ArithmeticUnit Value ℤ
      → Machine Value
      → ArithmeticUnit Value ℤ × Machine Value × Verdict
  unfolding open_other stall_for_branch occupy
  issue_other i _ u m =
      let (u', m') = open_other i u m in
      occupy (pos 0) integer_file full i (u', stall_for_branch i.opcode m')

  -- `ADD.D`, `SUB.D`, the branches of floats and `MOVE.D`
  unfoldable pub issue_float_add :
      Instruction
      → ℕ
      → ArithmeticUnit Value Value
      → Machine Value
      → ArithmeticUnit Value Value × Machine Value × Verdict
  unfolding open_both occupy
  issue_float_add i _ u m =
      occupy zero_value (float_file zero_value) full i (open_both (float_file zero_value) i u m)

  unfoldable pub issue_mul :
      Instruction
      → ℕ
      → ArithmeticUnit Value ℤ
      → Machine Value
      → ArithmeticUnit Value ℤ × Machine Value × Verdict
  unfolding open_both occupy
  issue_mul i _ u m = occupy (pos 0) integer_file full i (open_both integer_file i u m)

  unfoldable pub issue_float_mul :
      Instruction
      → ℕ
      → ArithmeticUnit Value Value
      → Machine Value
      → ArithmeticUnit Value Value × Machine Value × Verdict
  unfolding open_both occupy
  issue_float_mul i _ u m =
      occupy zero_value (float_file zero_value) full i (open_both (float_file zero_value) i u m)

  unfoldable pub issue_div :
      Instruction
      → ℕ
      → ArithmeticUnit Value ℤ
      → Machine Value
      → ArithmeticUnit Value ℤ × Machine Value × Verdict
  unfolding open_both occupy
  issue_div i _ u m = occupy (pos 0) integer_file full i (
      if i.is_double then open_both (float_file zero_value) i u m else open_both integer_file i u m)

  -- On a conflict `i` is `NoOfFunctionalUnits["fdivs"]`, a key that no file sets: 0, which is not
  -- the number of units inside the loop.
  unfoldable pub issue_float_div :
      Instruction
      → ℕ
      → ArithmeticUnit Value Value
      → Machine Value
      → ArithmeticUnit Value Value × Machine Value × Verdict
  unfolding open_both open_both_if_free occupy
  issue_float_div i _ u m = occupy zero_value (float_file zero_value) dropped i (
      if i.is_double
      then open_both (float_file zero_value) i u m
      else open_both_if_free integer_file i u m)

  -- A load or a store needs its register free; `taken` is what becomes of `i` where it is not, and
  -- `kept` tells whether the unit stays as it is then.
  unfoldable pub lock_memory_target :
      {S : Type 0}
      → File Value S
      → (Bool × Verdict)
      → Instruction
      → MemoryUnit Value
      → Machine Value
      → MemoryUnit Value × Machine Value × Verdict
  unfolding register set_wait_on reset_memory_unit
  lock_memory_target R (kept, taken) i u m =
      if is_free (register R i.target_reg m)
      then (u, set_wait_on R i.target_reg u.fu.my_id m, accepted)
      else (if kept then u else reset_memory_unit D u, m, taken)

  unfoldable pub issue_memory :
      Bool × Verdict
      → Instruction
      → MemoryUnit Value
      → Machine Value
      → MemoryUnit Value × Machine Value × Verdict
  unfolding assign_instruction bus_conflict lock_memory_target reset_memory_unit
  issue_memory otherwise i u m =
      let u' = record u { fu = assign_instruction D i m u.fu } in
      if is_null i.target
      then (u', m, accepted)
      else if bus_conflict i m
      then (reset_memory_unit D u', m, full)
      else if i.is_double
      then lock_memory_target (float_file zero_value) otherwise i u' m
      else lock_memory_target integer_file otherwise i u' m

  unfoldable pub issue_load :
      Instruction
      → ℕ
      → MemoryUnit Value
      → Machine Value
      → MemoryUnit Value × Machine Value × Verdict
  unfolding issue_memory
  issue_load i _ u m = issue_memory (false, full) i u m

  unfoldable pub issue_store :
      Instruction
      → ℕ
      → MemoryUnit Value
      → Machine Value
      → MemoryUnit Value × Machine Value × Verdict
  unfolding issue_memory
  issue_store i index u m = issue_memory (true, blocked index) i u m
