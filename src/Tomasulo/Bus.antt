-- ===== src/Tomasulo/Bus.antt =====
-- The bus of the write-back stage through the execute stage.
pub mod Memory
use mathlib.Core.Path.{subst}
use mscs.Common.{
  if_either, ℕ, zero, suc, ◌+◌, ◌-◌, ◌*◌, ◌≤◌, ◌<◌, ◌≡◌, ◌≢◌, refl, sym, ap, ◌∙◌, ◌⊎◌, inl, inr,
  Bool, true, false, not, ◌&&◌, ◌||◌, ◌==◌, ltb, leb, if◌then◌else◌, Option, none, some, List, [],
  ◌∷◌, ◌++◌, map, length, get_elem?, take, drop, replicate, All, Bool-cases, Option-cases, if-true,
  if-false, arith, lt→ltb, ltb→lt,
}
use mscs.Common.Int.{
  ℤ, pos, negsuc, pos_part, neg_part, sub_ℕ, ◌+ℤ◌, ◌-ℤ◌, ◌*ℤ◌, quot, ◌≤ℤ◌, eqb_ℤ, is_positive,
  is_negative, fits_int, +ℤ_parts, eq_of_parts, eqb_ℤ→eq,
}
use mscs.Common.Outcome.{
  Error, invalid_register, syntax_error, invalid_label, invalid_opcode, no_opcode, invalid_line,
  too_many_centroids, zero_centroids, Outcome, undefined, fail, ok, guard, ◌>>=◌, ◌>>◌, defined,
  Post, holds, fails, stops, Post-ok, Post-eq_ok, Post-bind, guard-eq_ok, Post-map, Post-if,
  Post-weaken, Post-and, bind-ok,
}
use mscs.Common.Text.{
  Text, codes, text_eq, starts_with, find, find_last, find_from, contains_text, atoi, parse_signed,
  parse_digits, skip_space, int_or_undefined, decimal, print_int, text_eq_iff, text_eq_refl,
}
use mscs.Common.Dict.{
  Dict, lookup, contains, assign, insert, keys, keys-assign, contains-keys, lookup-assign,
  lookup-insert, AllValues, lookup-AllValues, insert-AllValues, map-AllValues,
}
use mscs.Simulator.Double.{Double}
use mscs.Tomasulo.Types.{
  Opcode, noop, add, add_d, div, div_d, sub, sub_d, mul, mul_d, load_immediate, load, store, load_d,
  store_d, beq, bneq, bgtz, bltz, move, beq_d, bneq_d, bgtz_d, bltz_d, move_d, code, Register,
  Pointer, null, integer_at, float_at, FinalValue, ival, dval, Instruction, blank_instruction,
  instruction_reset, WriteBack, Machine, FunctionalUnit, MemoryUnit, Operand, ArithmeticUnit,
  Stations,
}
use mscs.Tomasulo.Registers.{
  File, fresh, is_free, as_integer, as_float, integer_file, float_file, validate_register, register,
  touch, set_register, set_wait_on, may_take, write_register, is_null, eq_opcode, read_ival,
  read_dval, initialize_registers, reset_write_back, write_result, run_write_back,
  send_to_write_back, assign_instruction, reset_unit, reset_arithmetic,
}
use mscs.Tomasulo.Units.{
  keep_running, tick, at_start, fetch_operand, begin, fetch_both, count_down, run_cycle,
  send_or_wait, result, execute_binary, execute_imul, execute_idiv, execute_fmul, execute_fdiv,
}
use mscs.Tomasulo.Adders.{
  is_one_of, release_branch, jump_if, fetch_some, advance, iadd_ready, iadd_cycle, iadd_branch,
  iadd_result, iadd_finish, execute_iadd, fadd_cycle, fadd_branch, fadd_result, fadd_finish,
  execute_fadd,
}
use mscs.Tomasulo.MemoryUnits.{
  reset_memory_unit, begin_memory, effective_address, memory_cycle, loaded_value, store_text,
  store_value, send_loaded, finish_load, finish_store, execute_memory, execute_load, execute_store,
}
use mscs.Tomasulo.Frame.{
  Inside, Kept, Inside-refl, Kept-refl, Kept-trans, keep_running-Kept, IsApart, begin-Inside,
  count_down-Inside, run_cycle-Inside, advance-Inside, integer_file-IsApart, float_file-IsApart,
  iadd_cycle-Inside, release_branch-Inside, jump_if-Inside, iadd_branch-Inside,
  send_to_write_back-Inside, send_or_wait-Inside,
}
use mscs.Simulator.Arithmetic.{mul_int}
use mscs.Simulator.Arithmetic.{div_int}

module _ (D : Double) where
  open D use {Value, zero_value}

  pub execute_binary-Kept :
      {S : Type 0} (R : File Value S) (b : Bool) (operator : S → S → Outcome (FinalValue Value))
      (u : ArithmeticUnit Value S) (m : Machine Value)
      → IsApart R
      → Post (λ r. Kept m r.1) (execute_binary D R b operator u m)
  unfolding execute_binary
  execute_binary-Kept R b operator u m apart =
      keep_running-Kept u.fu.busy u.fu.do_not_execute _ m
        (λ m'.
          if ltb 0 u.fu.remaining
          then run_cycle R u m'
          else (result D operator u >>= λ v. ok (send_or_wait D R.initial b v u m')))
        λ m'.
          Post-if (ltb 0 u.fu.remaining) (run_cycle-Inside R apart u m') (
            Post-bind (result D operator u) λ v e. holds (send_or_wait-Inside D R.initial b v u m'))

  pub execute_iadd-Kept :
      (u : ArithmeticUnit Value ℤ) (m : Machine Value) → Post (λ r. Kept m r.1) (execute_iadd D u m)
  unfolding execute_iadd iadd_finish
  execute_iadd-Kept u m =
      keep_running-Kept u.fu.busy u.fu.do_not_execute _ m
        (λ m'. if ltb 0 u.fu.remaining then iadd_cycle u m' else iadd_finish D u m')
        λ m'. Post-if (ltb 0 u.fu.remaining) (iadd_cycle-Inside u m') (
          Post-if (is_one_of u.fu.ins.opcode (add ∷ sub ∷ load_immediate ∷ move ∷ []))
            (Post-bind (iadd_result u) λ v e. holds (send_or_wait-Inside D _ _ v u m'))
            (holds (
              if_either (Inside m') u.fu.wait_to_write_back (Inside-refl m')
                (iadd_branch-Inside u m'))))

  pub fadd_cycle-Inside :
      (u : ArithmeticUnit Value Value) (m : Machine Value)
      → Post (λ r. Inside m r.1) (fadd_cycle D u m)
  unfolding fadd_cycle
  fadd_cycle-Inside u m =
      let op = u.fu.ins.opcode in
      let two = is_one_of op (sub_d ∷ add_d ∷ bneq_d ∷ beq_d ∷ []) in
      let one = is_one_of op (bltz_d ∷ bgtz_d ∷ move_d ∷ []) in
      Post-bind (if at_start u.fu then fetch_some (float_file zero_value) two u m else ok u) λ u' e.
        holds (
          if_either {A = ArithmeticUnit Value Value × Machine Value} (λ x. Inside m x.1)
            ((two && not (is_null u'.j.v) && not (is_null u'.k.v)) || (one && not (is_null u'.j.v)))
            (advance-Inside (float_file zero_value) (float_file-IsApart zero_value) _ u' m)
            (Inside-refl m))

  pub fadd_branch-Inside :
      (u : ArithmeticUnit Value Value) (m : Machine Value) → Inside m (fadd_branch D u m)
  unfolding fadd_branch
  fadd_branch-Inside u m =
      if_either (Inside m) (is_one_of u.fu.ins.opcode (bneq_d ∷ beq_d ∷ []))
        (jump_if-Inside _ u.fu.ins m)
        (if_either (Inside m) (is_one_of u.fu.ins.opcode (bltz_d ∷ bgtz_d ∷ []))
          (jump_if-Inside _ u.fu.ins m) (Inside-refl m))

  pub execute_fadd-Kept :
      (u : ArithmeticUnit Value Value) (m : Machine Value)
      → Post (λ r. Kept m r.1) (execute_fadd D u m)
  unfolding execute_fadd fadd_finish
  execute_fadd-Kept u m =
      keep_running-Kept u.fu.busy u.fu.do_not_execute _ m
        (λ m'. if ltb 0 u.fu.remaining then fadd_cycle D u m' else ok (fadd_finish D u m'))
        λ m'. Post-if (ltb 0 u.fu.remaining) (fadd_cycle-Inside u m') (
          holds (
            if_either {A = ArithmeticUnit Value Value × Machine Value} (λ x. Inside m' x.1)
              (is_one_of u.fu.ins.opcode (add_d ∷ sub_d ∷ move_d ∷ []))
              (send_or_wait-Inside D zero_value _ _ u m')
              (if_either (Inside m') u.fu.wait_to_write_back (Inside-refl m')
                (fadd_branch-Inside u m'))))

  -- The multipliers and the dividers.
  pub execute_imul-Kept :
      (u : ArithmeticUnit Value ℤ) (m : Machine Value) → Post (λ r. Kept m r.1) (execute_imul D u m)
  unfolding execute_imul
  execute_imul-Kept u m =
      execute_binary-Kept integer_file false (λ a b. (mul_int a b >>= λ v. ok (ival v))) u m
        integer_file-IsApart

  pub execute_idiv-Kept :
      (u : ArithmeticUnit Value ℤ) (m : Machine Value) → Post (λ r. Kept m r.1) (execute_idiv D u m)
  unfolding execute_idiv
  execute_idiv-Kept u m =
      execute_binary-Kept integer_file false (λ a b. (div_int a b >>= λ v. ok (ival v))) u m
        integer_file-IsApart

  pub execute_fmul-Kept :
      (u : ArithmeticUnit Value Value) (m : Machine Value)
      → Post (λ r. Kept m r.1) (execute_fmul D u m)
  unfolding execute_fmul
  execute_fmul-Kept u m =
      execute_binary-Kept (float_file zero_value) true (λ a b. ok (dval (D.mul a b))) u m
        (float_file-IsApart zero_value)

  pub execute_fdiv-Kept :
      (u : ArithmeticUnit Value Value) (m : Machine Value)
      → Post (λ r. Kept m r.1) (execute_fdiv D u m)
  unfolding execute_fdiv
  execute_fdiv-Kept u m =
      execute_binary-Kept (float_file zero_value) true (λ a b. ok (dval (D.div a b))) u m
        (float_file-IsApart zero_value)
