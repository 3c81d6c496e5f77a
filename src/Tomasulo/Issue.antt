-- ===== src/Tomasulo/Issue.antt =====
-- `LoadReservationStation::run`, by the opcode: which units, which key of `NoOfFunctionalUnits` and
-- which flag of `stallDueToRSid` the instruction is for.
pub mod Wiped
use mathlib.Core.Path.{subst}
use mscs.Common.{
  if_either, ℕ, zero, suc, ◌+◌, ◌-◌, ◌*◌, ◌≤◌, ◌<◌, ◌≡◌, ◌≢◌, refl, sym, ap, ◌∙◌, ◌⊎◌, inl, inr,
  Bool, true, false, not, ◌&&◌, ◌||◌, ◌==◌, ltb, leb, if◌then◌else◌, Option, none, some, List, [],
  ◌∷◌, ◌++◌, map, length, get_elem?, take, drop, replicate, All, Bool-cases, Option-cases, if-true,
  if-false, arith, lt→ltb, ltb→lt,
}
use mscs.Common.Int.{
  ℤ, pos, negsuc, pos_part, neg_part, sub_ℕ, ◌+ℤ◌, ◌-ℤ◌, ◌*ℤ◌, quot, ◌≤ℤ◌, eqb_ℤ, is_positive,
  is_negative, fits_int, +ℤ_parts, eq_of_parts, eqb_ℤ→eq,
}
use mscs.Common.Outcome.{
  Error, invalid_register, syntax_error, invalid_label, invalid_opcode, no_opcode, invalid_line,
  too_many_centroids, zero_centroids, Outcome, undefined, fail, ok, guard, ◌>>=◌, ◌>>◌, defined,
  Post, holds, fails, stops, Post-ok, Post-eq_ok, Post-bind, guard-eq_ok, Post-map, Post-if,
  Post-weaken, Post-and, bind-ok,
}
use mscs.Common.Text.{
  Text, codes, text_eq, starts_with, find, find_last, find_from, contains_text, atoi, parse_signed,
  parse_digits, skip_space, int_or_undefined, decimal, print_int, text_eq_iff, text_eq_refl,
}
use mscs.Common.Dict.{
  Dict, lookup, contains, assign, insert, keys, keys-assign, contains-keys, lookup-assign,
  lookup-insert, AllValues, lookup-AllValues, insert-AllValues, map-AllValues,
}
use mscs.Simulator.Double.{Double}
use mscs.Tomasulo.Types.{
  Opcode, noop, add, add_d, div, div_d, sub, sub_d, mul, mul_d, load_immediate, load, store, load_d,
  store_d, beq, bneq, bgtz, bltz, move, beq_d, bneq_d, bgtz_d, bltz_d, move_d, code, Register,
  Pointer, null, integer_at, float_at, FinalValue, ival, dval, Instruction, blank_instruction,
  instruction_reset, WriteBack, Machine, FunctionalUnit, MemoryUnit, Operand, ArithmeticUnit,
  Stations,
}
use mscs.Tomasulo.Registers.{
  File, fresh, is_free, as_integer, as_float, integer_file, float_file, validate_register, register,
  touch, set_register, set_wait_on, may_take, write_register, is_null, eq_opcode, read_ival,
  read_dval, initialize_registers, reset_write_back, write_result, run_write_back,
  send_to_write_back, assign_instruction, reset_unit, reset_arithmetic,
}
use mscs.Tomasulo.MemoryUnits.{
  reset_memory_unit, begin_memory, effective_address, memory_cycle, loaded_value, store_text,
  store_value, send_loaded, finish_load, finish_store, execute_memory, execute_load, execute_store,
}
use mscs.Tomasulo.Adders.{
  is_one_of, release_branch, jump_if, fetch_some, advance, iadd_ready, iadd_cycle, iadd_branch,
  iadd_result, iadd_finish, execute_iadd, fadd_cycle, fadd_branch, fadd_result, fadd_finish,
  execute_fadd,
}
use mscs.Tomasulo.Reservation.{
  Verdict, accepted, full, dropped, blocked, fill, fill_units, unit_count, set_stall, conclude,
  open_operand, open_if_free, open_both, open_first, open_both_if_free, bus_conflict, lock_target,
}
use mscs.Tomasulo.Reservation.Kinds.{
  occupy, issue_add, stall_for_branch, open_other, issue_other, issue_float_add, issue_mul,
  issue_float_mul, issue_div, issue_float_div, lock_memory_target, issue_memory, issue_load,
  issue_store,
}

abbrev pub is_busy : {V S : Type 0} → ArithmeticUnit V S → Bool
is_busy u = u.fu.busy

abbrev pub is_memory_busy : {V : Type 0} → MemoryUnit V → Bool
is_memory_busy u = u.fu.busy

module _ (D : Double) where
  open D use {Value, zero_value}

  -- `LoadRS[i].resetFU()`, which is outside of the vector where there is no such unit.
  unfoldable pub reset_at : ℕ → List (MemoryUnit Value) → Outcome (List (MemoryUnit Value))
  unfolding reset_memory_unit
  reset_at i [] = undefined
  reset_at zero (u ∷ us) = ok (reset_memory_unit D u ∷ us)
  reset_at (suc i) (u ∷ us) = do us' ← reset_at i us; ok (u ∷ us')

  -- A store whose register is taken resets a unit of the loads, and compares the number of the
  -- loads with that of the stores.
  unfoldable pub conclude_store :
      Verdict → Stations Value → Machine Value → Outcome (Stations Value × Machine Value)
  unfolding reset_at unit_count conclude
  conclude_store accepted s m = ok (s, conclude 1 accepted m)
  conclude_store full s m = ok (s, conclude 1 full m)
  conclude_store dropped s m = ok (s, conclude 1 dropped m)
  conclude_store (blocked i) s m = do
    us ← reset_at i s.load_rs
    let verdict =
        if eqb_ℤ (unit_count (codes "loads") m) (unit_count (codes "stores") m)
        then full
        else dropped
    ok (record s { load_rs = us }, conclude 1 verdict m)

  abbrev Placed : Type 0
  Placed = Outcome (Stations Value × Machine Value)

  unfoldable pub run_load : Instruction → Stations Value → Machine Value → Placed
  unfolding fill_units issue_load conclude unit_count
  run_load i s m = do
    (us, m', verdict) ←
        fill_units is_memory_busy (issue_load D i) (unit_count (codes "loads") m) s.load_rs m
    ok (record s { load_rs = us }, conclude 0 verdict m')

  unfoldable pub run_store : Instruction → Stations Value → Machine Value → Placed
  unfolding fill_units issue_store conclude_store unit_count
  run_store i s m = do
    (us, m', verdict) ←
        fill_units is_memory_busy (issue_store D i) (unit_count (codes "stores") m) s.store_rs m
    conclude_store verdict (record s { store_rs = us }) m'

  unfoldable pub run_add : Instruction → Stations Value → Machine Value → Placed
  unfolding fill_units issue_add conclude unit_count
  run_add i s m = do
    (us, m', verdict) ←
        fill_units is_busy (issue_add D i) (unit_count (codes "intadds") m) s.iadd_rs m
    ok (record s { iadd_rs = us }, conclude 2 verdict m')

  unfoldable pub run_other : Instruction → Stations Value → Machine Value → Placed
  unfolding fill_units issue_other conclude unit_count
  run_other i s m = do
    (us, m', verdict) ←
        fill_units is_busy (issue_other D i) (unit_count (codes "intadds") m) s.iadd_rs m
    ok (record s { iadd_rs = us }, conclude 2 verdict m')

  unfoldable pub run_float_add : Instruction → Stations Value → Machine Value → Placed
  unfolding fill_units issue_float_add conclude unit_count
  run_float_add i s m = do
    (us, m', verdict) ←
        fill_units is_busy (issue_float_add D i) (unit_count (codes "fpadds") m) s.fadd_rs m
    ok (record s { fadd_rs = us }, conclude 3 verdict m')

  unfoldable pub run_mul : Instruction → Stations Value → Machine Value → Placed
  unfolding fill_units issue_mul conclude unit_count
  run_mul i s m = do
    (us, m', verdict) ←
        fill_units is_busy (issue_mul D i) (unit_count (codes "intmuls") m) s.imul_rs m
    ok (record s { imul_rs = us }, conclude 4 verdict m')

  unfoldable pub run_float_mul : Instruction → Stations Value → Machine Value → Placed
  unfolding fill_units issue_float_mul conclude unit_count
  run_float_mul i s m = do
    (us, m', verdict) ←
        fill_units is_busy (issue_float_mul D i) (unit_count (codes "fpmuls") m) s.fmul_rs m
    ok (record s { fmul_rs = us }, conclude 5 verdict m')

  unfoldable pub run_div : Instruction → Stations Value → Machine Value → Placed
  unfolding fill_units issue_div conclude unit_count
  run_div i s m = do
    (us, m', verdict) ←
        fill_units is_busy (issue_div D i) (unit_count (codes "intdivs") m) s.idiv_rs m
    ok (record s { idiv_rs = us }, conclude 6 verdict m')

  unfoldable pub run_float_div : Instruction → Stations Value → Machine Value → Placed
  unfolding fill_units issue_float_div conclude unit_count
  run_float_div i s m = do
    (us, m', verdict) ←
        fill_units is_busy (issue_float_div D i) (unit_count (codes "fpdivs") m) s.fdiv_rs m
    ok (record s { fdiv_rs = us }, conclude 7 verdict m')

  -- The ladder of opcodes. Its result is not looked at.
  unfoldable pub run_reservation : Instruction → Stations Value → Machine Value → Placed
  unfolding run_load run_store run_add run_other run_float_add run_mul run_float_mul run_div
      run_float_div
  run_reservation i s m =
      let op = i.opcode in
      if eq_opcode op noop
      then ok (s, m)
      else if is_one_of op (load ∷ load_d ∷ [])
      then run_load i s m
      else if is_one_of op (store ∷ store_d ∷ [])
      then run_store i s m
      else if is_one_of op (add ∷ sub ∷ [])
      then run_add i s m
      else if is_one_of op (beq ∷ bneq ∷ bgtz ∷ bltz ∷ move ∷ load_immediate ∷ [])
      then run_other i s m
      else if is_one_of op (add_d ∷ sub_d ∷ beq_d ∷ bneq_d ∷ bgtz_d ∷ bltz_d ∷ move_d ∷ [])
      then run_float_add i s m
      else if eq_opcode op mul
      then run_mul i s m
      else if eq_opcode op mul_d
      then run_float_mul i s m
      else if eq_opcode op div
      then run_div i s m
      else run_float_div i s m
