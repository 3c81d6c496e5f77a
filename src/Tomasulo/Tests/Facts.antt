-- ===== src/Tomasulo/Tests/Facts.antt =====
-- The theorems at concrete machines.
use mscs.Common.{
  ℕ, ◌≡◌, ◌≢◌, refl, inl, true, false, ◌==◌, if◌then◌else◌, none, [], ◌∷◌, arith, ltb→lt,
}
use mscs.Common.Int.{ℤ, pos, eqb_ℤ}
use mscs.Common.Outcome.{Outcome, undefined, ok, ◌>>=◌, Post}
use mscs.Common.Text.{Text, codes, text_eq, print_int}
use mscs.Common.Dict.{contains, lookup}
use mscs.Tomasulo.Types.{
  load, store, move, beq_d, move_d, integer_at, FinalValue, ArithmeticUnit, ival, Instruction,
  blank_instruction, Machine,
}
use mscs.Tomasulo.Registers.{
  integer_file, register, validate_register, set_wait_on, may_take, run_write_back,
  send_to_write_back, assign_instruction,
}
use mscs.Tomasulo.Reservation.{full, dropped, unit_count, conclude, bus_conflict}
use mscs.Tomasulo.MemoryUnits.{reset_memory_unit}
use mscs.Tomasulo.Units.{execute_binary}
use mscs.Tomasulo.Adders.{execute_iadd, execute_fadd}
use mscs.Tomasulo.Cycle.{execute, cycle, run_cycles}
use mscs.Tomasulo.Decode.{decode_load_store, set_source_reg1, set_target_register}
use mscs.Tomasulo.Issue.{run_store, run_reservation}
use mscs.Tomasulo.Tests.{
  small, occupied, multiply, unit_with, ready, branch_on_float, memory_unit, stations, simulation,
  waiting, last_rounds, finished, finishes,
}
use mscs.Tomasulo.Units.Progress.{through, working, sent}
use mscs.Tomasulo.Units.Result.{taking, through-result}
use mscs.Tomasulo.Ending.{execute-busy_bus}
use mscs.Tomasulo.Ending.Rounds.{execute_program-free_bus}
use mscs.Tomasulo.Ending.Lost.{cycle-stalled}
use mscs.Tomasulo.Safety.{IsSafe}
use mscs.Tomasulo.Safety.Kinds.{run_reservation-IsSafe}
use mscs.Tomasulo.Stuck.Forever.{run_cycles-forever}
use mscs.Tomasulo.Floats.{execute_fadd-never_jumps}
use mscs.Tomasulo.Registers.Written.{send-run_write_back}
use mscs.Tomasulo.Adders.Moves.{done, move-undefined}
use mscs.Tomasulo.Decode.Base.{decode_load_store-over}
use mscs.Tomasulo.Issue.Wiped.{run_store-wipes}
use mscs.Simulator.Tests.{whole_numbers}
use mscs.Simulator.Arithmetic.{mul_int}

abbrev product_of : ℤ → ℤ → Outcome (FinalValue ℤ)
unfolding mul_int
product_of a b = mul_int a b >>= λ v. ok (ival v)

through-result_example :
    (first : ArithmeticUnit ℤ ℤ) × (execute_binary whole_numbers integer_file false product_of
        (working whole_numbers integer_file false product_of
          (taking whole_numbers integer_file false product_of 2 (ready multiply 4 true))
          2)
        small
      ≡ ok (
        first,
        set_wait_on integer_file
            (ready multiply 4 true).fu.ins.target_reg
            (ready multiply 4 true).fu.my_id
            (record small { trigger_end = false }),
      ))
    × ((through whole_numbers integer_file false product_of (small ∷ occupied ∷ []) first >>= λ w.
          execute_binary whole_numbers integer_file false product_of w small)
        ≡ sent whole_numbers integer_file false product_of
            (ready multiply 4 true)
            (ival (pos 35))
            small)
unfolding may_take register integer_file mul_int text_eq
through-result_example =
    through-result whole_numbers integer_file false product_of (ready multiply 4 true)
      (ival (pos 35)) small (small ∷ []) (occupied ∷ []) small refl refl refl refl refl (refl, tt)
      refl

execute_program-free_bus_example : finished.machine.write_back.busy ≡ false
execute_program-free_bus_example =
    execute_program-free_bus whole_numbers print_int 4 last_rounds finished finishes

run_reservation-IsSafe_example :
    Post
      (IsSafe whole_numbers stations small)
      (run_reservation whole_numbers multiply stations small)
run_reservation-IsSafe_example = run_reservation-IsSafe whole_numbers multiply stations small refl

cycle-stalled_example :
    Post (λ t. t.machine.trigger_end ≡ true) (cycle whole_numbers print_int waiting)
cycle-stalled_example =
    cycle-stalled whole_numbers print_int waiting
      (record {
        loads = (refl, tt);
        stores = (refl, tt);
        iadds = tt;
        imuls = (refl, tt);
        idivs = tt;
        fadds = tt;
        fmuls = tt;
        fdivs = tt;
      })
      refl

run_cycles-forever_example :
    Post (λ r. r.0 ≡ false) (run_cycles whole_numbers print_int 20 simulation)
run_cycles-forever_example =
    run_cycles-forever whole_numbers print_int 20 simulation
      (inl (refl, refl, ltb→lt 0 2 refl, refl, refl)) refl

execute_fadd-never_jumps_example :
    Post
      (λ r. r.1.program_counter ≡ pos 4)
      (execute_fadd whole_numbers (branch_on_float beq_d) small)
execute_fadd-never_jumps_example =
    execute_fadd-never_jumps whole_numbers (branch_on_float beq_d) small refl

execute-busy_bus_example :
    Post (λ r. r.1.write_back ≡ occupied.write_back) (execute whole_numbers stations occupied)
execute-busy_bus_example = execute-busy_bus whole_numbers stations occupied refl

send-run_write_back_example :
    (n : Machine ℤ) × (run_write_back whole_numbers
        (send_to_write_back whole_numbers false
          (ival (pos 8))
          (integer_at (codes "R3"))
          (codes "R3")
          small).1
      ≡ ok n)
    × ((other : Text)
        → register integer_file other n ≡ (
            if text_eq (codes "R3") other
            then record { val = pos 8; wait_on = none }
            else register integer_file other small))
    × (n.float_registers ≡ small.float_registers)
    × (n.write_back.busy ≡ false)
send-run_write_back_example =
    send-run_write_back whole_numbers (pos 8) (codes "R3") (codes "R3") small refl

move-undefined_example :
    ((execute_iadd whole_numbers (done whole_numbers move (ready multiply 4 true)) small >>= λ r.
    run_write_back whole_numbers r.1)
      ≡ undefined)
    × ((execute_fadd whole_numbers (done whole_numbers move_d (branch_on_float beq_d)) small
          >>= λ r. run_write_back whole_numbers r.1)
        ≡ undefined)
move-undefined_example =
    move-undefined whole_numbers (ready multiply 4 true) (branch_on_float beq_d) small refl

nonzero : (c : ℕ) → (c == 0) ≡ false → c ≢ 0
nonzero c h = ground arith

-- `L R12,0(R1)`
abbrev load_r12 : Instruction
load_r12 = record blank_instruction { opcode = load; s_line = codes "R12,0(R1)" }

abbrev with_r12 : Machine ℤ
with_r12 = record small {
  integer_registers =
      (codes "R12", record { val = pos 4; wait_on = none }) ∷ small.integer_registers;
}

decode_load_store-over_example :
    decode_load_store load_r12 with_r12
    ≡ ok (
        set_source_reg1
          (codes "R12")
          (record (set_target_register (codes "R12") load_r12) { temp_a = codes "0" }))
unfolding validate_register contains lookup text_eq
decode_load_store-over_example =
    decode_load_store-over (codes "R12") (codes "0") (codes "R1") load_r12 with_r12 refl
      (omega arith) refl (omega arith) (omega arith) (omega arith)
      (nonzero 82 refl, (nonzero 49 refl, (nonzero 50 refl, tt)))
      (nonzero 82 refl, (nonzero 49 refl, tt))

-- `S R3,0(R1)`
abbrev store_r3 : Instruction
store_r3 = record blank_instruction {
  opcode = store;
  source_reg1 = codes "R1";
  target_reg = codes "R3";
  target = integer_at (codes "R3");
}

run_store-wipes_example :
    run_store whole_numbers store_r3
      (record stations {
        store_rs = memory_unit 3 false ∷ [];
        load_rs = memory_unit 1 true ∷ memory_unit 2 false ∷ [];
      })
      small
    ≡ ok (
      record stations {
        store_rs =
            record (memory_unit 3 false) {
              fu =
                  assign_instruction whole_numbers store_r3 small
                    (unit_with blank_instruction 3 false);
            }
            ∷ [];
        load_rs = reset_memory_unit whole_numbers (memory_unit 1 true) ∷ memory_unit 2 false ∷ [];
      },
      conclude 1
          (if eqb_ℤ (unit_count (codes "loads") small) (unit_count (codes "stores") small)
            then full
            else dropped)
          small,
    )
unfolding unit_count register integer_file text_eq bus_conflict
run_store-wipes_example =
    run_store-wipes whole_numbers store_r3 stations small (memory_unit 3 false) (memory_unit 1 true)
      [] (memory_unit 2 false ∷ []) 0 refl refl refl refl refl refl
