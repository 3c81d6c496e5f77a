-- ===== src/Tomasulo/Stuck.antt =====
-- `BGTZ.D` and `BLTZ.D` have no target, and wait for one.
pub mod Forever
use mathlib.Core.Path.{subst}
use mscs.Common.{
  if_either, ℕ, zero, suc, ◌+◌, ◌-◌, ◌*◌, ◌≤◌, ◌<◌, ◌≡◌, ◌≢◌, refl, sym, ap, ◌∙◌, ◌⊎◌, inl, inr,
  Bool, true, false, not, ◌&&◌, ◌||◌, ◌==◌, ltb, leb, if◌then◌else◌, Option, none, some, List, [],
  ◌∷◌, ◌++◌, map, length, get_elem?, take, drop, replicate, All, Bool-cases, Option-cases, if-true,
  if-false, arith, lt→ltb, ltb→lt,
}
use mscs.Common.Int.{
  ℤ, pos, negsuc, pos_part, neg_part, sub_ℕ, ◌+ℤ◌, ◌-ℤ◌, ◌*ℤ◌, quot, ◌≤ℤ◌, eqb_ℤ, is_positive,
  is_negative, fits_int, +ℤ_parts, eq_of_parts, eqb_ℤ→eq,
}
use mscs.Common.Outcome.{
  Error, invalid_register, syntax_error, invalid_label, invalid_opcode, no_opcode, invalid_line,
  too_many_centroids, zero_centroids, Outcome, undefined, fail, ok, guard, ◌>>=◌, ◌>>◌, defined,
  Post, holds, fails, stops, Post-ok, Post-eq_ok, Post-bind, guard-eq_ok, Post-map, Post-if,
  Post-weaken, Post-and, bind-ok,
}
use mscs.Common.Text.{
  Text, codes, text_eq, starts_with, find, find_last, find_from, contains_text, atoi, parse_signed,
  parse_digits, skip_space, int_or_undefined, decimal, print_int, text_eq_iff, text_eq_refl,
}
use mscs.Common.Dict.{
  Dict, lookup, contains, assign, insert, keys, keys-assign, contains-keys, lookup-assign,
  lookup-insert, AllValues, lookup-AllValues, insert-AllValues, map-AllValues,
}
use mscs.Simulator.Double.{Double}
use mscs.Tomasulo.Types.{
  Opcode, noop, add, add_d, div, div_d, sub, sub_d, mul, mul_d, load_immediate, load, store, load_d,
  store_d, beq, bneq, bgtz, bltz, move, beq_d, bneq_d, bgtz_d, bltz_d, move_d, code, Register,
  Pointer, null, integer_at, float_at, FinalValue, ival, dval, Instruction, blank_instruction,
  instruction_reset, WriteBack, Machine, FunctionalUnit, MemoryUnit, Operand, ArithmeticUnit,
  Stations,
}
use mscs.Tomasulo.Registers.{
  File, fresh, is_free, as_integer, as_float, integer_file, float_file, validate_register, register,
  touch, set_register, set_wait_on, may_take, write_register, is_null, eq_opcode, read_ival,
  read_dval, initialize_registers, reset_write_back, write_result, run_write_back,
  send_to_write_back, assign_instruction, reset_unit, reset_arithmetic,
}
use mscs.Tomasulo.Units.{
  keep_running, tick, at_start, fetch_operand, begin, fetch_both, count_down, run_cycle,
  send_or_wait, result, execute_binary, execute_imul, execute_idiv, execute_fmul, execute_fdiv,
}
use mscs.Tomasulo.Adders.{
  is_one_of, release_branch, jump_if, fetch_some, advance, iadd_ready, iadd_cycle, iadd_branch,
  iadd_result, iadd_finish, execute_iadd, fadd_cycle, fadd_branch, fadd_result, fadd_finish,
  execute_fadd,
}
use mscs.Tomasulo.Reserved.{
  Untouched, Keeps, Keeps-refl, Untouched-refl, Untouched-trans, conclude-Untouched, fill-Keeps,
  fill_units-Keeps, IsOnly, open_operand-Untouched, open_both-Untouched, open_first-Untouched,
  open_both_if_free-Untouched, set_wait_on-Untouched, lock_target-Untouched, integer_file-IsOnly,
  float_file-IsOnly, occupy-Untouched,
}
use mscs.Tomasulo.Frame.{
  Inside, Kept, Inside-refl, Kept-refl, Kept-trans, keep_running-Kept, IsApart, begin-Inside,
  count_down-Inside, run_cycle-Inside, advance-Inside, integer_file-IsApart, float_file-IsApart,
  iadd_cycle-Inside, release_branch-Inside, jump_if-Inside, iadd_branch-Inside,
  send_to_write_back-Inside, send_or_wait-Inside,
}
use mscs.Tomasulo.Bus.{
  execute_binary-Kept, execute_iadd-Kept, fadd_cycle-Inside, fadd_branch-Inside, execute_fadd-Kept,
  execute_imul-Kept, execute_idiv-Kept, execute_fmul-Kept, execute_fdiv-Kept,
}
use mscs.Tomasulo.Bus.Memory.{
  begin_memory-Inside, memory_cycle-Inside, store_text-Inside, set_register-Inside,
  store_value-Inside, send_loaded-Inside, execute_load-Kept, execute_store-Kept,
}
use mscs.Tomasulo.Issue.{
  is_busy, is_memory_busy, reset_at, conclude_store, run_load, run_store, run_add, run_other,
  run_float_add, run_mul, run_float_mul, run_div, run_float_div, run_reservation,
}
use mscs.Tomasulo.Stage.{execute_all-Kept, Kept-then, execute-Kept}

module _ {V : Type 0} where
  -- Such an instruction in a unit, before its first cycle.
  abbrev pub IsStuck : FunctionalUnit V → Type 0
  IsStuck u =
      (u.busy ≡ true)
      × (u.remaining ≡ u.i_count)
      × (0 < u.i_count)
      × (u.ins.target ≡ null)
      × (is_one_of u.ins.opcode (bltz_d ∷ bgtz_d ∷ []) ≡ true)

  -- One of the units.
  abbrev pub HasStuck : List (ArithmeticUnit V V) → Type 0
  HasStuck [] = ⊥
  HasStuck (u ∷ us) = IsStuck u.fu ⊎ HasStuck us

  pub HasStuck-Keeps :
      (us vs : List (ArithmeticUnit V V)) → Keeps is_busy us vs → HasStuck us → HasStuck vs
  HasStuck-Keeps [] vs k h = elim h [ ]
  HasStuck-Keeps (u ∷ us) [] k h = elim k [ ]
  HasStuck-Keeps (u ∷ us) (v ∷ vs) k (inl h) = elim k.0 [
    | inl idle ↦ cc
    | inr same ↦ inl (subst (λ w. IsStuck w.fu) (sym same) h)
  ]
  HasStuck-Keeps (u ∷ us) (v ∷ vs) k (inr h) = inr (HasStuck-Keeps us vs k.1 h)

stuck_opcode :
    (op : Opcode)
    → is_one_of op (bltz_d ∷ bgtz_d ∷ []) ≡ true
    → (is_one_of op (sub_d ∷ add_d ∷ bneq_d ∷ beq_d ∷ []) ≡ false)
      × (is_one_of op (add_d ∷ sub_d ∷ bltz_d ∷ bgtz_d ∷ move_d ∷ []) ≡ true)
stuck_opcode op h = (ground arith, ground arith)

at_start-true : (a b : ℕ) → a ≡ b → (a == b && true) ≡ true
at_start-true a b h = ground arith

full_count : (a b : ℕ) → a ≡ b → 0 < b → ltb 0 a ≡ true
full_count a b h k = ground arith

module _ (D : Double) where
  open D use {Value, zero_value}

  -- The operands change, nothing else does.
  fetch_some-fu :
      {S : Type 0} (R : File Value S) (b : Bool) (u : ArithmeticUnit Value S) (m : Machine Value)
      → Post (λ u'. u'.fu ≡ u.fu) (fetch_some R b u m)
  unfolding fetch_some
  fetch_some-fu R b u m = Post-bind (fetch_operand R u.fu.ins.source_reg1 m u.j) λ j e.
      Post-bind (if b then fetch_operand R u.fu.ins.source_reg2 m u.k else ok u.k)
        λ k e'. holds refl

  begin-null :
      {S : Type 0} (R : File Value S) (u : FunctionalUnit Value) (m : Machine Value)
      → u.ins.target ≡ null
      → (begin R u m).0 ≡ u
  unfolding begin
  begin-null R u m e =
      ap {A = FunctionalUnit Value × Machine Value} (λ r. r.0)
        (if-false (not (is_null u.ins.target) && may_take R u.my_id u.ins.target_reg m)
          (tick u, set_wait_on R u.ins.target_reg u.my_id m) (u, m)
          (ap (λ p. not (is_null p) && may_take R u.my_id u.ins.target_reg m) e))

  advance-null :
      {S : Type 0} (R : File Value S) (u : ArithmeticUnit Value S) (m : Machine Value)
      → u.fu.ins.target ≡ null
      → u.fu.remaining ≡ u.fu.i_count
      → (advance R true u m).0.fu ≡ u.fu
  unfolding advance
  advance-null {S} R u m e full =
      ap {A = ArithmeticUnit Value S × Machine Value} (λ r. r.0.fu)
        (if-true (at_start u.fu && true) (record u { fu = (begin R u.fu m).0 }, (begin R u.fu m).1)
          (record u { fu = tick u.fu }, m) (at_start-true u.fu.remaining u.fu.i_count full))
      ∙ begin-null R u.fu m e

  fadd_cycle-fu :
      (u : ArithmeticUnit Value Value) (m : Machine Value)
      → IsStuck u.fu
      → Post (λ r. r.0.fu ≡ u.fu) (fadd_cycle D u m)
  unfolding fadd_cycle
  fadd_cycle-fu u m h =
      let op = u.fu.ins.opcode in
      let (no_two, needs) = stuck_opcode op h.4 in
      let two = is_one_of op (sub_d ∷ add_d ∷ bneq_d ∷ beq_d ∷ []) in
      let one = is_one_of op (bltz_d ∷ bgtz_d ∷ move_d ∷ []) in
      Post-map (if at_start u.fu then fetch_some (float_file zero_value) two u m else ok u)
        (Post-if {P = λ u'. u'.fu ≡ u.fu} (at_start u.fu)
          (fetch_some-fu (float_file zero_value) two u m) (holds refl))
        λ u' same. holds (
          if_either {A = ArithmeticUnit Value Value × Machine Value} (λ r. r.0.fu ≡ u.fu)
            ((two && not (is_null u'.j.v) && not (is_null u'.k.v)) || (one && not (is_null u'.j.v)))
            (subst (λ b. (advance (float_file zero_value) b u' m).0.fu ≡ u.fu) (sym needs)
              (advance-null (float_file zero_value) u' m (ap (λ f. f.ins.target) same ∙ h.3)
                  (ap (λ f. f.remaining) same ∙ h.1 ∙ ap (λ f. f.i_count) (sym same))
                ∙ same))
            same)

  -- A cycle leaves it where it is, and the program running.
  pub execute_fadd-IsStuck :
      (u : ArithmeticUnit Value Value) (m : Machine Value)
      → IsStuck u.fu
      → Post (λ r. IsStuck r.0.fu × (r.1.trigger_end ≡ false)) (execute_fadd D u m)
  unfolding execute_fadd keep_running
  execute_fadd-IsStuck u m h =
      let m' = keep_running u.fu.busy m in
      let runs : m'.trigger_end ≡ false =
        ap (λ n. n.trigger_end) (if-true u.fu.busy (record m { trigger_end = false }) m h.0) in
      Post-if (u.fu.do_not_execute || not u.fu.busy) (holds (h, runs)) (
        subst (Post (λ r. IsStuck r.0.fu × (r.1.trigger_end ≡ false)))
          (sym (
            if-true (ltb 0 u.fu.remaining) (fadd_cycle D u m') (ok (fadd_finish D u m'))
              (full_count u.fu.remaining u.fu.i_count h.1 h.2)))
          (Post-and (Post-weaken (fadd_cycle-fu u m' h) λ r same. subst IsStuck (sym same) h)
            (Post-weaken (fadd_cycle-Inside D u m') λ r k. k.flag ∙ runs)))
