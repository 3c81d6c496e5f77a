-- ===== src/Tomasulo/Reservation.antt =====
-- `LoadReservationStation::run`: an instruction is put into the first unit of its kind that is not
-- busy, or the fetch of instructions stalls.
pub mod Kinds
use mathlib.Core.Path.{subst}
use mscs.Common.{
  if_either, ℕ, zero, suc, ◌+◌, ◌-◌, ◌*◌, ◌≤◌, ◌<◌, ◌≡◌, ◌≢◌, refl, sym, ap, ◌∙◌, ◌⊎◌, inl, inr,
  Bool, true, false, not, ◌&&◌, ◌||◌, ◌==◌, ltb, leb, if◌then◌else◌, Option, none, some, List, [],
  ◌∷◌, ◌++◌, map, length, get_elem?, take, drop, replicate, All, Bool-cases, Option-cases, if-true,
  if-false, arith, lt→ltb, ltb→lt,
}
use mscs.Common.Int.{
  ℤ, pos, negsuc, pos_part, neg_part, sub_ℕ, ◌+ℤ◌, ◌-ℤ◌, ◌*ℤ◌, quot, ◌≤ℤ◌, eqb_ℤ, is_positive,
  is_negative, fits_int, +ℤ_parts, eq_of_parts, eqb_ℤ→eq,
}
use mscs.Common.Outcome.{
  Error, invalid_register, syntax_error, invalid_label, invalid_opcode, no_opcode, invalid_line,
  too_many_centroids, zero_centroids, Outcome, undefined, fail, ok, guard, ◌>>=◌, ◌>>◌, defined,
  Post, holds, fails, stops, Post-ok, Post-eq_ok, Post-bind, guard-eq_ok, Post-map, Post-if,
  Post-weaken, Post-and, bind-ok,
}
use mscs.Common.Text.{
  Text, codes, text_eq, starts_with, find, find_last, find_from, contains_text, atoi, parse_signed,
  parse_digits, skip_space, int_or_undefined, decimal, print_int, text_eq_iff, text_eq_refl,
}
use mscs.Common.Dict.{
  Dict, lookup, contains, assign, insert, keys, keys-assign, contains-keys, lookup-assign,
  lookup-insert, AllValues, lookup-AllValues, insert-AllValues, map-AllValues,
}
use mscs.Simulator.Double.{Double}
use mscs.Tomasulo.Types.{
  Opcode, noop, add, add_d, div, div_d, sub, sub_d, mul, mul_d, load_immediate, load, store, load_d,
  store_d, beq, bneq, bgtz, bltz, move, beq_d, bneq_d, bgtz_d, bltz_d, move_d, code, Register,
  Pointer, null, integer_at, float_at, FinalValue, ival, dval, Instruction, blank_instruction,
  instruction_reset, WriteBack, Machine, FunctionalUnit, MemoryUnit, Operand, ArithmeticUnit,
  Stations,
}
use mscs.Tomasulo.Registers.{
  File, fresh, is_free, as_integer, as_float, integer_file, float_file, validate_register, register,
  touch, set_register, set_wait_on, may_take, write_register, is_null, eq_opcode, read_ival,
  read_dval, initialize_registers, reset_write_back, write_result, run_write_back,
  send_to_write_back, assign_instruction, reset_unit, reset_arithmetic,
}

-- How a search for a unit ends: the instruction is in, or `i` is the number of units, so that the
-- fetch stalls, or neither; or a store finds its register taken, in the unit `i`.
pub data Verdict : Type 0 where
  accepted full dropped : Verdict
  blocked : ℕ → Verdict

module _ {U M : Type 0} (busy : U → Bool) (issue : ℕ → U → M → U × M × Verdict) where
  -- The loop, from the unit `i` on; a count above the number of units reads past the vector.
  unfoldable pub fill : ℕ → ℕ → List U → M → Outcome (List U × M × Verdict)
  fill zero i us m = ok (us, m, full)
  fill (suc n) i [] m = undefined
  fill (suc n) i (u ∷ us) m = elim (busy u) [
    | true ↦ do (us', m', verdict) ← fill n (i + 1) us m; ok (u ∷ us', m', verdict)
    | false ↦ let (u', m', verdict) = issue i u m in ok (u' ∷ us, m', verdict)
  ]

  -- With a negative count, `i` is not the count.
  unfoldable pub fill_units : ℤ → List U → M → Outcome (List U × M × Verdict)
  unfolding fill
  fill_units (pos n) us m = fill n 0 us m
  fill_units (negsuc n) us m = ok (us, m, dropped)

-- `NoOfFunctionalUnits[kind]`
unfoldable pub unit_count : {V : Type 0} → Text → Machine V → ℤ
unfolding lookup
unit_count kind m = elim (lookup kind m.unit_counts) [ none ↦ pos 0 | some n ↦ n ]

module _ {V : Type 0} where
  unfoldable pub set_stall : ℕ → Bool → Machine V → Machine V
  set_stall k b m = record m {
    stall_if = b;
    stall_due_to_rs = λ x. if x == k then b else m.stall_due_to_rs x;
  }

  -- The lines behind a search: a stall of this kind ends, or begins.
  unfoldable pub conclude : ℕ → Verdict → Machine V → Machine V
  unfolding set_stall
  conclude k accepted m = if m.stall_due_to_rs k then set_stall k false m else m
  conclude k full m = set_stall k true m
  conclude k dropped m = m
  conclude k (blocked i) m = m

  -- `Vj` of an operand that is there, `Qj` of one that is waited for.
  unfoldable pub open_operand :
      {S T : Type 0} → File V S → Text → Operand T → Machine V → Operand T × Machine V
  unfolding touch register
  open_operand R reg o m =
      let m' = touch R reg m in
      if is_free (register R reg m')
      then (record o { v = R.point_at reg; q = null }, m')
      else (record o { v = null; q = R.point_at reg }, m')

  -- Where the register is not free, the operand stays as it is.
  unfoldable pub open_if_free :
      {S T : Type 0} → File V S → Text → Operand T → Machine V → Operand T × Machine V
  unfolding touch register
  open_if_free R reg o m =
      let m' = touch R reg m in
      (if is_free (register R reg m') then record o { v = R.point_at reg } else o, m')

  unfoldable pub open_both :
      {S T : Type 0}
      → File V S
      → Instruction
      → ArithmeticUnit V T
      → Machine V
      → ArithmeticUnit V T × Machine V
  unfolding open_operand
  open_both R i u m =
      let (j, m1) = open_operand R i.source_reg1 u.j m in
      let (k, m2) = open_operand R i.source_reg2 u.k m1 in (record u { j = j; k = k }, m2)

  unfoldable pub open_first :
      {S T : Type 0}
      → File V S
      → Instruction
      → ArithmeticUnit V T
      → Machine V
      → ArithmeticUnit V T × Machine V
  unfolding open_operand
  open_first R i u m = let (j, m') = open_operand R i.source_reg1 u.j m in (record u { j = j }, m')

  unfoldable pub open_both_if_free :
      {S T : Type 0}
      → File V S
      → Instruction
      → ArithmeticUnit V T
      → Machine V
      → ArithmeticUnit V T × Machine V
  unfolding open_if_free
  open_both_if_free R i u m =
      let (j, m1) = open_if_free R i.source_reg1 u.j m in
      let (k, m2) = open_if_free R i.source_reg2 u.k m1 in (record u { j = j; k = k }, m2)

  -- The bus is about to write the target.
  unfoldable pub bus_conflict : Instruction → Machine V → Bool
  unfolding text_eq
  bus_conflict i m = m.write_back.busy && text_eq m.write_back.target_reg i.target_reg

  -- The target waits for the unit, if it waits for none.
  unfoldable pub lock_target : {S : Type 0} → File V S → Text → ℕ → Machine V → Machine V
  unfolding register touch set_wait_on
  lock_target R reg id m = if is_free (register R reg m) then set_wait_on R reg id m else m
