-- ===== src/Tomasulo/Ending.antt =====
-- The bus of the write-back stage over whole rounds, up to the end of a program.
pub mod Rounds
pub mod Stalled
pub mod Lost
use mathlib.Core.Path.{subst}
use mscs.Common.{
  if_either, ℕ, zero, suc, ◌+◌, ◌-◌, ◌*◌, ◌≤◌, ◌<◌, ◌≡◌, ◌≢◌, refl, sym, ap, ◌∙◌, ◌⊎◌, inl, inr,
  Bool, true, false, not, ◌&&◌, ◌||◌, ◌==◌, ltb, leb, if◌then◌else◌, Option, none, some, List, [],
  ◌∷◌, ◌++◌, map, length, get_elem?, take, drop, replicate, All, Bool-cases, Option-cases, if-true,
  if-false, arith, lt→ltb, ltb→lt,
}
use mscs.Common.Int.{
  ℤ, pos, negsuc, pos_part, neg_part, sub_ℕ, ◌+ℤ◌, ◌-ℤ◌, ◌*ℤ◌, quot, ◌≤ℤ◌, eqb_ℤ, is_positive,
  is_negative, fits_int, +ℤ_parts, eq_of_parts, eqb_ℤ→eq,
}
use mscs.Common.Outcome.{
  Error, invalid_register, syntax_error, invalid_label, invalid_opcode, no_opcode, invalid_line,
  too_many_centroids, zero_centroids, Outcome, undefined, fail, ok, guard, ◌>>=◌, ◌>>◌, defined,
  Post, holds, fails, stops, Post-ok, Post-eq_ok, Post-bind, guard-eq_ok, Post-map, Post-if,
  Post-weaken, Post-and, bind-ok,
}
use mscs.Common.Text.{
  Text, codes, text_eq, starts_with, find, find_last, find_from, contains_text, atoi, parse_signed,
  parse_digits, skip_space, int_or_undefined, decimal, print_int, text_eq_iff, text_eq_refl,
}
use mscs.Common.Dict.{
  Dict, lookup, contains, assign, insert, keys, keys-assign, contains-keys, lookup-assign,
  lookup-insert, AllValues, lookup-AllValues, insert-AllValues, map-AllValues,
}
use mscs.Simulator.Double.{Double}
use mscs.Tomasulo.Types.{
  Opcode, noop, add, add_d, div, div_d, sub, sub_d, mul, mul_d, load_immediate, load, store, load_d,
  store_d, beq, bneq, bgtz, bltz, move, beq_d, bneq_d, bgtz_d, bltz_d, move_d, code, Register,
  Pointer, null, integer_at, float_at, FinalValue, ival, dval, Instruction, blank_instruction,
  instruction_reset, WriteBack, Machine, FunctionalUnit, MemoryUnit, Operand, ArithmeticUnit,
  Stations,
}
use mscs.Tomasulo.Registers.{
  File, fresh, is_free, as_integer, as_float, integer_file, float_file, validate_register, register,
  touch, set_register, set_wait_on, may_take, write_register, is_null, eq_opcode, read_ival,
  read_dval, initialize_registers, reset_write_back, write_result, run_write_back,
  send_to_write_back, assign_instruction, reset_unit, reset_arithmetic,
}
use mscs.Tomasulo.Reservation.{
  Verdict, accepted, full, dropped, blocked, fill, fill_units, unit_count, set_stall, conclude,
  open_operand, open_if_free, open_both, open_first, open_both_if_free, bus_conflict, lock_target,
}
use mscs.Tomasulo.Reservation.Kinds.{
  occupy, issue_add, stall_for_branch, open_other, issue_other, issue_float_add, issue_mul,
  issue_float_mul, issue_div, issue_float_div, lock_memory_target, issue_memory, issue_load,
  issue_store,
}
use mscs.Tomasulo.Issue.{
  is_busy, is_memory_busy, reset_at, conclude_store, run_load, run_store, run_add, run_other,
  run_float_add, run_mul, run_float_mul, run_div, run_float_div, run_reservation,
}
use mscs.Tomasulo.Adders.{
  is_one_of, release_branch, jump_if, fetch_some, advance, iadd_ready, iadd_cycle, iadd_branch,
  iadd_result, iadd_finish, execute_iadd, fadd_cycle, fadd_branch, fadd_result, fadd_finish,
  execute_fadd,
}
use mscs.Tomasulo.Decode.{
  set_target_register, set_source_reg1, set_source_reg2, base_over, register_operand,
  decode_arithmetic, decode_address, decode_load_store, decode_li, set_branch_target, decode_beq,
  decode_bneq, decode_bgtz, decode_bltz, decode_move, decode,
}
use mscs.Tomasulo.Frame.{
  Inside, Kept, Inside-refl, Kept-refl, Kept-trans, keep_running-Kept, IsApart, begin-Inside,
  count_down-Inside, run_cycle-Inside, advance-Inside, integer_file-IsApart, float_file-IsApart,
  iadd_cycle-Inside, release_branch-Inside, jump_if-Inside, iadd_branch-Inside,
  send_to_write_back-Inside, send_or_wait-Inside,
}
use mscs.Tomasulo.Reserved.{
  Untouched, Keeps, Keeps-refl, Untouched-refl, Untouched-trans, conclude-Untouched, fill-Keeps,
  fill_units-Keeps, IsOnly, open_operand-Untouched, open_both-Untouched, open_first-Untouched,
  open_both_if_free-Untouched, set_wait_on-Untouched, lock_target-Untouched, integer_file-IsOnly,
  float_file-IsOnly, occupy-Untouched,
}
use mscs.Tomasulo.Cycle.{
  Simulation, execute_all, instruction_at, below_size, decoded_or_blank, fetch_next, fetch_again,
  fetch, get_status, display, execute, issue, display_registers, cycle, run_cycles, execute_program,
}
use mscs.Tomasulo.Stage.{execute_all-Kept, Kept-then, execute-Kept}
use mscs.Tomasulo.Safety.{
  BusyKept, BusyKept-refl, IsSafe, stall_for_branch-Untouched, open_other-Untouched,
  integer-Untouched, float-Untouched, issue_other-Untouched, issue_div-Untouched,
  issue_float_div-Untouched, lock_memory_target-Untouched, issue_memory-Untouched,
}
use mscs.Tomasulo.Safety.Kinds.{
  search-IsSafe, run_load-IsSafe, run_add-IsSafe, run_other-IsSafe, run_float_add-IsSafe,
  run_mul-IsSafe, run_float_mul-IsSafe, run_div-IsSafe, run_float_div-IsSafe,
  run_reservation-IsSafe,
}

module _ (D : Double) where
  open D use {Value, zero_value}

  -- A value that waits on the bus is still there, unchanged, when all the units have executed, if
  -- that is defined.
  pub execute-busy_bus :
      (s : Stations Value) (m : Machine Value)
      → m.write_back.busy ≡ true
      → Post (λ r. r.1.write_back ≡ m.write_back) (execute D s m)
  execute-busy_bus s m h =
      Post-weaken (execute-Kept D s m) λ r k. elim k.bus [ inl free ↦ cc | inr same ↦ same ]

  -- After the write-back stage the bus is free.
  pub run_write_back-free :
      (m : Machine Value) → Post (λ m'. m'.write_back.busy ≡ false) (run_write_back D m)
  unfolding run_write_back reset_write_back
  run_write_back-free m = elim (Bool-cases m.write_back.busy) [
    | inl e ↦
        subst (Post (λ m'. m'.write_back.busy ≡ false)) (sym (if-true m.write_back.busy _ (ok m) e))
          (Post-bind (write_result D m.write_back m) λ n k. holds refl)
    | inr e ↦
        subst (Post (λ m'. m'.write_back.busy ≡ false))
          (sym (if-false m.write_back.busy _ (ok m) e)) (holds e)
  ]

  conclude_store-Untouched :
      (v : Verdict) (t : Stations Value) (m n : Machine Value)
      → Untouched m n
      → Post (λ r. Untouched m r.1) (conclude_store D v t n)
  unfolding conclude_store
  conclude_store-Untouched accepted t m n h =
      holds (Untouched-trans h (conclude-Untouched 1 accepted n))
  conclude_store-Untouched full t m n h = holds (Untouched-trans h (conclude-Untouched 1 full n))
  conclude_store-Untouched dropped t m n h =
      holds (Untouched-trans h (conclude-Untouched 1 dropped n))
  conclude_store-Untouched (blocked k) t m n h =
      Post-bind (reset_at D k t.load_rs)
        λ us e. holds (Untouched-trans h (conclude-Untouched 1 _ n))

  -- A store too leaves the bus and the flag of the loop alone.
  pub run_store-Untouched :
      (i : Instruction) (s : Stations Value) (m : Machine Value)
      → Post (λ r. Untouched m r.1) (run_store D i s m)
  unfolding run_store issue_store
  run_store-Untouched i s m =
      Post-map
        (fill_units is_memory_busy (issue_store D i) (unit_count (codes "stores") m) s.store_rs m)
        (fill_units-Keeps is_memory_busy (issue_store D i)
          (λ n u l. issue_memory-Untouched D (true, blocked n) i u l)
          (unit_count (codes "stores") m) s.store_rs m)
        λ r q. conclude_store-Untouched r.2 (record s { store_rs = r.0 }) m r.1 q.1

  stored-Untouched :
      (i : Instruction) (s : Stations Value) (m : Machine Value)
      → is_one_of i.opcode (store ∷ store_d ∷ []) ≡ true
      → Post (λ r. Untouched m r.1) (run_reservation D i s m)
  unfolding run_reservation
  stored-Untouched i s m e = Post-if (eq_opcode i.opcode noop) (holds (Untouched-refl m)) (
      Post-if (is_one_of i.opcode (load ∷ load_d ∷ []))
        (Post-weaken (run_load-IsSafe D i s m) λ r q. q.1) (rw e (run_store-Untouched i s m)))

  pub run_reservation-Untouched :
      (i : Instruction) (s : Stations Value) (m : Machine Value)
      → Post (λ r. Untouched m r.1) (run_reservation D i s m)
  run_reservation-Untouched i s m = elim (Bool-cases (is_one_of i.opcode (store ∷ store_d ∷ []))) [
    | inr e ↦ Post-weaken (run_reservation-IsSafe D i s m e) λ r q. q.1
    | inl e ↦ stored-Untouched i s m e
  ]

  -- The fetch leaves the bus alone, and can only keep the program running.
  abbrev pub IsFetched : Machine Value → Machine Value → Type 0
  IsFetched m m' =
      (m'.write_back ≡ m.write_back) × ((m'.trigger_end ≡ m.trigger_end) ⊎ (m'.trigger_end ≡ false))

  pub fetch-IsFetched :
      (s : Simulation Value) → Post (λ s'. IsFetched s.machine s'.machine) (fetch s)
  unfolding fetch fetch_next fetch_again
  fetch-IsFetched s =
      let m = s.machine in
      Post-if (not m.stall_if && below_size m.program_counter s.vprogram && not m.freeze)
        (Post-bind (instruction_at m.program_counter s.vprogram) λ i e. holds (refl, inr refl))
        (Post-if (eqb_ℤ m.program_counter (pos (length s.vprogram)))
          (Post-if (m.stall_if || m.freeze)
            (Post-bind (instruction_at (m.program_counter -ℤ pos 1) s.vprogram)
              λ i e. holds (refl, inl refl))
            (holds (refl, inl refl)))
          (Post-if (below_size m.program_counter s.vprogram && m.stall_if)
            (Post-bind (instruction_at (m.program_counter -ℤ pos 1) s.vprogram)
              λ i e. holds (refl, inl refl))
            (holds (refl, inl refl))))

  pub issue-IsFetched :
      (s : Simulation Value) → Post (λ s'. IsFetched s.machine s'.machine) (issue D s)
  unfolding issue
  issue-IsFetched s = Post-map (fetch s) (fetch-IsFetched s) λ s1 q.
      Post-bind (decoded_or_blank (decode s1.ir s1.machine)) λ i e.
        Post-map (run_reservation D i s1.stations s1.machine)
          (run_reservation-Untouched i s1.stations s1.machine)
          λ r k. holds (
            k.bus ∙ q.0,
            elim q.1 [ inl same ↦ inl (k.flag ∙ same) | inr ended ↦ inr (k.flag ∙ ended) ],
          )
