-- ===== src/Tomasulo/Safety.antt =====
-- The issue of an instruction by its opcode, and the units that are at work.
pub mod Kinds
use mathlib.Core.Path.{subst}
use mscs.Common.{
  if_either, ℕ, zero, suc, ◌+◌, ◌-◌, ◌*◌, ◌≤◌, ◌<◌, ◌≡◌, ◌≢◌, refl, sym, ap, ◌∙◌, ◌⊎◌, inl, inr,
  Bool, true, false, not, ◌&&◌, ◌||◌, ◌==◌, ltb, leb, if◌then◌else◌, Option, none, some, List, [],
  ◌∷◌, ◌++◌, map, length, get_elem?, take, drop, replicate, All, Bool-cases, Option-cases, if-true,
  if-false, arith, lt→ltb, ltb→lt,
}
use mscs.Common.Int.{
  ℤ, pos, negsuc, pos_part, neg_part, sub_ℕ, ◌+ℤ◌, ◌-ℤ◌, ◌*ℤ◌, quot, ◌≤ℤ◌, eqb_ℤ, is_positive,
  is_negative, fits_int, +ℤ_parts, eq_of_parts, eqb_ℤ→eq,
}
use mscs.Common.Outcome.{
  Error, invalid_register, syntax_error, invalid_label, invalid_opcode, no_opcode, invalid_line,
  too_many_centroids, zero_centroids, Outcome, undefined, fail, ok, guard, ◌>>=◌, ◌>>◌, defined,
  Post, holds, fails, stops, Post-ok, Post-eq_ok, Post-bind, guard-eq_ok, Post-map, Post-if,
  Post-weaken, Post-and, bind-ok,
}
use mscs.Common.Text.{
  Text, codes, text_eq, starts_with, find, find_last, find_from, contains_text, atoi, parse_signed,
  parse_digits, skip_space, int_or_undefined, decimal, print_int, text_eq_iff, text_eq_refl,
}
use mscs.Common.Dict.{
  Dict, lookup, contains, assign, insert, keys, keys-assign, contains-keys, lookup-assign,
  lookup-insert, AllValues, lookup-AllValues, insert-AllValues, map-AllValues,
}
use mscs.Simulator.Double.{Double}
use mscs.Tomasulo.Types.{
  Opcode, noop, add, add_d, div, div_d, sub, sub_d, mul, mul_d, load_immediate, load, store, load_d,
  store_d, beq, bneq, bgtz, bltz, move, beq_d, bneq_d, bgtz_d, bltz_d, move_d, code, Register,
  Pointer, null, integer_at, float_at, FinalValue, ival, dval, Instruction, blank_instruction,
  instruction_reset, WriteBack, Machine, FunctionalUnit, MemoryUnit, Operand, ArithmeticUnit,
  Stations,
}
use mscs.Tomasulo.Registers.{
  File, fresh, is_free, as_integer, as_float, integer_file, float_file, validate_register, register,
  touch, set_register, set_wait_on, may_take, write_register, is_null, eq_opcode, read_ival,
  read_dval, initialize_registers, reset_write_back, write_result, run_write_back,
  send_to_write_back, assign_instruction, reset_unit, reset_arithmetic,
}
use mscs.Tomasulo.Reservation.{
  Verdict, accepted, full, dropped, blocked, fill, fill_units, unit_count, set_stall, conclude,
  open_operand, open_if_free, open_both, open_first, open_both_if_free, bus_conflict, lock_target,
}
use mscs.Tomasulo.Reservation.Kinds.{
  occupy, issue_add, stall_for_branch, open_other, issue_other, issue_float_add, issue_mul,
  issue_float_mul, issue_div, issue_float_div, lock_memory_target, issue_memory, issue_load,
  issue_store,
}
use mscs.Tomasulo.Reserved.{
  Untouched, Keeps, Keeps-refl, Untouched-refl, Untouched-trans, conclude-Untouched, fill-Keeps,
  fill_units-Keeps, IsOnly, open_operand-Untouched, open_both-Untouched, open_first-Untouched,
  open_both_if_free-Untouched, set_wait_on-Untouched, lock_target-Untouched, integer_file-IsOnly,
  float_file-IsOnly, occupy-Untouched,
}
use mscs.Tomasulo.Issue.{
  is_busy, is_memory_busy, reset_at, conclude_store, run_load, run_store, run_add, run_other,
  run_float_add, run_mul, run_float_mul, run_div, run_float_div, run_reservation,
}
use mscs.Tomasulo.Adders.{
  is_one_of, release_branch, jump_if, fetch_some, advance, iadd_ready, iadd_cycle, iadd_branch,
  iadd_result, iadd_finish, execute_iadd, fadd_cycle, fadd_branch, fadd_result, fadd_finish,
  execute_fadd,
}

-- Every unit that is busy stays as it is, in all eight lists.
pub record BusyKept {V : Type 0} (s s' : Stations V) : Type 0 where
  pub loads : Keeps is_memory_busy s.load_rs s'.load_rs
  pub stores : Keeps is_memory_busy s.store_rs s'.store_rs
  pub iadds : Keeps is_busy s.iadd_rs s'.iadd_rs
  pub imuls : Keeps is_busy s.imul_rs s'.imul_rs
  pub idivs : Keeps is_busy s.idiv_rs s'.idiv_rs
  pub fadds : Keeps is_busy s.fadd_rs s'.fadd_rs
  pub fmuls : Keeps is_busy s.fmul_rs s'.fmul_rs
  pub fdivs : Keeps is_busy s.fdiv_rs s'.fdiv_rs

pub BusyKept-refl : {V : Type 0} (s : Stations V) → BusyKept s s
BusyKept-refl s = record {
  loads = Keeps-refl _ s.load_rs;
  stores = Keeps-refl _ s.store_rs;
  iadds = Keeps-refl _ s.iadd_rs;
  imuls = Keeps-refl _ s.imul_rs;
  idivs = Keeps-refl _ s.idiv_rs;
  fadds = Keeps-refl _ s.fadd_rs;
  fmuls = Keeps-refl _ s.fmul_rs;
  fdivs = Keeps-refl _ s.fdiv_rs;
}

module _ (D : Double) where
  open D use {Value, zero_value}

  abbrev pub IsSafe : Stations Value → Machine Value → Stations Value × Machine Value → Type 0
  IsSafe s m r = BusyKept s r.0 × Untouched m r.1

  pub stall_for_branch-Untouched :
      (op : Opcode) (m : Machine Value) → Untouched m (stall_for_branch D op m)
  unfolding stall_for_branch
  stall_for_branch-Untouched op m =
      if_either (Untouched m) (is_one_of op (beq ∷ bneq ∷ bgtz ∷ bltz ∷ []))
        (record { bus = refl; flag = refl; counter = refl }) (Untouched-refl m)

  pub open_other-Untouched :
      (i : Instruction) (u : ArithmeticUnit Value ℤ) (m : Machine Value)
      → Untouched m (open_other D i u m).1
  unfolding open_other
  open_other-Untouched i u m =
      if_either {A = ArithmeticUnit Value ℤ × Machine Value} (λ r. Untouched m r.1)
        (eq_opcode i.opcode load_immediate) (Untouched-refl m)
        (if_either {A = ArithmeticUnit Value ℤ × Machine Value} (λ r. Untouched m r.1)
          (is_one_of i.opcode (beq ∷ bneq ∷ []))
          (open_both-Untouched integer_file integer_file-IsOnly i u m)
          (open_first-Untouched integer_file integer_file-IsOnly i u m))

  -- A unit of integers, of floats, and of the memory.
  pub integer-Untouched :
      (i : Instruction) (u : ArithmeticUnit Value ℤ) (m : Machine Value)
      → Untouched m (occupy D (pos 0) integer_file full i (open_both integer_file i u m)).1
  integer-Untouched i u m =
      occupy-Untouched D (pos 0) integer_file integer_file-IsOnly full i m
        (open_both integer_file i u m) (open_both-Untouched integer_file integer_file-IsOnly i u m)

  pub float-Untouched :
      (v : Verdict) (i : Instruction) (u : ArithmeticUnit Value Value) (m : Machine Value)
      → Untouched m
          (occupy D zero_value
            (float_file zero_value)
            v
            i
            (open_both (float_file zero_value) i u m)).1
  float-Untouched v i u m =
      occupy-Untouched D zero_value (float_file zero_value) (float_file-IsOnly zero_value) v i m
        (open_both (float_file zero_value) i u m)
        (open_both-Untouched (float_file zero_value) (float_file-IsOnly zero_value) i u m)

  pub issue_other-Untouched :
      (i : Instruction) (n : ℕ) (u : ArithmeticUnit Value ℤ) (m : Machine Value)
      → Untouched m (issue_other D i n u m).1
  unfolding issue_other
  issue_other-Untouched i n u m =
      occupy-Untouched D (pos 0) integer_file integer_file-IsOnly full i m
        ((open_other D i u m).0, stall_for_branch D i.opcode (open_other D i u m).1)
        (Untouched-trans (open_other-Untouched i u m) (stall_for_branch-Untouched i.opcode _))

  pub issue_div-Untouched :
      (i : Instruction) (n : ℕ) (u : ArithmeticUnit Value ℤ) (m : Machine Value)
      → Untouched m (issue_div D i n u m).1
  unfolding issue_div
  issue_div-Untouched i n u m =
      occupy-Untouched D (pos 0) integer_file integer_file-IsOnly full i m
        (if i.is_double
          then open_both (float_file zero_value) i u m
          else open_both integer_file i u m)
        (if_either {A = ArithmeticUnit Value ℤ × Machine Value} (λ r. Untouched m r.1) i.is_double
          (open_both-Untouched (float_file zero_value) (float_file-IsOnly zero_value) i u m)
          (open_both-Untouched integer_file integer_file-IsOnly i u m))

  pub issue_float_div-Untouched :
      (i : Instruction) (n : ℕ) (u : ArithmeticUnit Value Value) (m : Machine Value)
      → Untouched m (issue_float_div D i n u m).1
  unfolding issue_float_div
  issue_float_div-Untouched i n u m =
      occupy-Untouched D zero_value (float_file zero_value) (float_file-IsOnly zero_value) dropped i
        m
        (if i.is_double
          then open_both (float_file zero_value) i u m
          else open_both_if_free integer_file i u m)
        (if_either {A = ArithmeticUnit Value Value × Machine Value} (λ r. Untouched m r.1)
          i.is_double
          (open_both-Untouched (float_file zero_value) (float_file-IsOnly zero_value) i u m)
          (open_both_if_free-Untouched integer_file integer_file-IsOnly i u m))

  pub lock_memory_target-Untouched :
      {S : Type 0} (R : File Value S)
      → IsOnly R
      → (o : Bool × Verdict) (i : Instruction) (u : MemoryUnit Value) (m : Machine Value)
      → Untouched m (lock_memory_target D R o i u m).1
  unfolding lock_memory_target
  lock_memory_target-Untouched R only (kept, taken) i u m =
      if_either {A = MemoryUnit Value × Machine Value × Verdict} (λ r. Untouched m r.1)
        (is_free (register R i.target_reg m))
        (set_wait_on-Untouched R only i.target_reg u.fu.my_id m) (Untouched-refl m)

  pub issue_memory-Untouched :
      (o : Bool × Verdict) (i : Instruction) (u : MemoryUnit Value) (m : Machine Value)
      → Untouched m (issue_memory D o i u m).1
  unfolding issue_memory
  issue_memory-Untouched o i u m =
      if_either {A = MemoryUnit Value × Machine Value × Verdict} (λ r. Untouched m r.1)
        (is_null i.target) (Untouched-refl m)
        (if_either {A = MemoryUnit Value × Machine Value × Verdict} (λ r. Untouched m r.1)
          (bus_conflict i m) (Untouched-refl m)
          (if_either {A = MemoryUnit Value × Machine Value × Verdict} (λ r. Untouched m r.1)
            i.is_double
            (lock_memory_target-Untouched (float_file zero_value) (float_file-IsOnly zero_value) o i
              _ m)
            (lock_memory_target-Untouched integer_file integer_file-IsOnly o i _ m)))
