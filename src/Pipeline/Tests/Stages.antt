-- ===== src/Pipeline/Tests/Stages.antt =====
-- The theorems on the pipeline at concrete states.
use mscs.Common.{ℕ, ◌≡◌, ◌≢◌, inl, inr, refl, true, false, not, List, [], ◌∷◌, arith}
use mscs.Common.Int.{ℤ, pos, ◌+ℤ◌, ◌*ℤ◌, quot}
use mscs.Common.Outcome.{ok, undefined, Post}
use mscs.Common.Text.{
  atoi, parse_signed, parse_digits, skip_space, int_or_undefined, Text, codes, print_int, decimal,
  starts_with, text_eq,
}
use mscs.Common.Dict.{lookup, contains}
use mscs.Simulator.Machine.{Machine}
use mscs.Simulator.Transfer.{read_mem}
use mscs.Simulator.Arithmetic.{add_int}
use mscs.Simulator.Tests.{whole_numbers, machine}
use mscs.Pipeline.Buffers.{print_into, copy_into, is_empty, c_text}
use mscs.Pipeline.Buffers.Texts.{Holds}
use mscs.Pipeline.Cpu.{
  cycles_of, Latch, integer_target, Cpu, set_integer, integer_register, validate_register,
}
use mscs.Pipeline.WriteBack.{has_result}
use mscs.Pipeline.Hazard.{found_before, is_pending, unless_pending}
use mscs.Pipeline.Decode.Compare.{registers_equal, branch_if, decode_beq, decode_bneq}
use mscs.Pipeline.Decode.{load_a, decode_arithmetic}
use mscs.Pipeline.Alu.{alu_output, arithmetic_output, int_output, buffer_int}
use mscs.Simulator.Execute.{decode}
use mscs.Pipeline.MemoryStage.{memory_access}
use mscs.Pipeline.Program.{blank_cpu}
use mscs.Pipeline.Assembly.{parse_lines}
use mscs.Pipeline.Assembly.Lines.{parse_texts, parse_lines-blank, parse_lines-ended}
use mscs.Pipeline.Freeze.Returns.{execute_times, IsDone, execute_times-returns}
use mscs.Simulator.Execute.{execute_line}
use mscs.Pipeline.Fetch.{cycles}
use mscs.Pipeline.Flow.Passage.{alone}
use mscs.Pipeline.Flow.Operands.{IsReady}
use mscs.Pipeline.Flow.Sequential.{Same, alone-Same}
use mscs.Pipeline.Reads.{Stalled, decode_arithmetic-Stalled}
use mscs.Pipeline.Reads.Forward.{unless_pending-load_a}
use mscs.Pipeline.Reads.Branches.{branch-first}
use mscs.Pipeline.Stores.{memory_access-stored}

-- The registers of the machine of the other tests, and nothing in the pipeline.
abbrev idle : Cpu ℤ
idle = record (blank_cpu whole_numbers (λ _. 0)) {
  opcode_cycles = (codes "ADD", pos 3) ∷ (codes "MUL", pos 4) ∷ (codes "DIV", pos 5) ∷ [];
  integer_registers = machine.integer_registers;
  mlabels = machine.mlabels;
  vprogram = machine.vprogram;
}

abbrev priced : Machine ℤ
priced = record machine { opcode_cycles = idle.opcode_cycles }

-- An instruction that is in a latch.
abbrev latch : Text → Text → Latch
latch op r = record {
  target = integer_target r;
  target_register = r;
  is_double = false;
  opcode = op;
  instruction = [];
}

-- The text "10" in an array of 20 bytes.
abbrev ten : List ℕ
ten = b'1' ∷ b'0' ∷ 0 ∷ 0 ∷ 0 ∷ 0 ∷ 0 ∷ 0 ∷ 0 ∷ 0 ∷ 0 ∷ 0 ∷ 0 ∷ 0 ∷ 0 ∷ 0 ∷ 0 ∷ 0 ∷ 0 ∷ 0 ∷ []

idle-IsReady : IsReady whole_numbers (codes "R3") (codes "R1") (codes "R2") idle
unfolding validate_register contains text_eq integer_register lookup
idle-IsReady = record {
  target = (omega arith, refl);
  name_a = (omega arith, refl);
  name_b = (omega arith, refl);
  no_space = omega arith;
  fits_a = refl;
  fits_b = refl;
}

alone-Same_example :
    Same whole_numbers 3 priced
      (cycles whole_numbers 7 (alone whole_numbers (codes "ADD R3,R1,R2") idle))
      (execute_line whole_numbers (codes "ADD R3,R1,R2") priced)
    × Same whole_numbers 4 priced
        (cycles whole_numbers 8 (alone whole_numbers (codes "MUL R3,R1,R2") idle))
        (execute_line whole_numbers (codes "MUL R3,R1,R2") priced)
    × Same whole_numbers 5 priced
        (cycles whole_numbers 9 (alone whole_numbers (codes "DIV R3,R1,R2") idle))
        (execute_line whole_numbers (codes "DIV R3,R1,R2") priced)
unfolding lookup text_eq integer_register ◌+ℤ◌ ◌*ℤ◌ quot
alone-Same_example =
    let nonzero : integer_register (codes "R2") idle ≢ pos 0 = λ e. cc in
    alone-Same whole_numbers (codes "R3") (codes "R1") (codes "R2") idle priced idle-IsReady refl
      refl 2 3 4 refl refl refl refl refl nonzero refl

abbrev adding : Cpu ℤ
adding = record idle { decode_execute_buffered = latch (codes "ADD") (codes "R3") }

adding_opcode : is_empty adding.decode_execute_buffered.opcode ≡ false
unfolding is_empty
adding_opcode = refl

-- `ADD` takes 3 cycles, and adds 10 and 0.
abbrev summing : Cpu ℤ
summing = record adding { temp_a_buffered = ten }

execute_times-returns_example :
    ((c' : Cpu ℤ) × (execute_times whole_numbers 2 summing ≡ ok c') × (c'.freeze ≡ true))
    × ((c' : Cpu ℤ) × (execute_times whole_numbers 3 summing ≡ ok c')
        × IsDone whole_numbers summing (omega arith) ten c')
unfolding cycles_of lookup text_eq alu_output arithmetic_output int_output buffer_int print_into
    copy_into c_text atoi parse_signed parse_digits skip_space int_or_undefined add_int decode
    print_int decimal
execute_times-returns_example =
    execute_times-returns whole_numbers summing (omega arith) 1 1 ten (omega arith) refl refl refl

decode_arithmetic-Stalled_example : Post Stalled (
    decode_arithmetic whole_numbers
      (codes "R3,R2,R1")
      (record idle { decode_execute_buffered = latch (codes "ADD") (codes "R10") }))
decode_arithmetic-Stalled_example =
    decode_arithmetic-Stalled whole_numbers (codes "R3") (codes "R2") (codes "R1") (codes "R1")
      (record idle { decode_execute_buffered = latch (codes "ADD") (codes "R10") }) (omega arith)
      (omega arith) (omega arith) (inr refl) (codes "0", inl refl)

abbrev leaving : Cpu ℤ
leaving = record idle {
  mem_wb_buffered = record { latch = latch (codes "ADD") (codes "R1"); output = ten };
}

unless_pending-load_a_example :
    (b : List ℕ) × (unless_pending whole_numbers
        (codes "R1")
        leaving
        (load_a whole_numbers (codes "R1"))
      ≡ ok (record (set_integer (codes "R1") (pos 10) leaving) { stall_if = false; temp_a = b }))
    × Holds b (pos 10)
unfolding is_pending found_before starts_with has_result c_text print_int decimal
unless_pending-load_a_example =
    unless_pending-load_a whole_numbers (codes "R1") (pos 10) leaving refl
      (record {
        has = refl;
        integer = refl;
        target = refl;
        name = refl;
        output = record { text = refl };
        fits = refl;
      })
      refl refl

abbrev subtracting : Cpu ℤ
subtracting = record idle {
  execute_mem_buffered = record { latch = latch (codes "SUB") (codes "R1"); output = ten };
}

memory_access-stored_example :
    (c' : Cpu ℤ) × (memory_access whole_numbers subtracting ≡ ok c')
    × (read_mem 2 10 c'.mem ≡ b'7' ∷ 0 ∷ [])
    × (c'.mem 9 ≡ 0)
    × (c'.integer_registers ≡ subtracting.integer_registers)
    × (c'.float_registers ≡ subtracting.float_registers)
    × (c'.program_counter ≡ 0)
unfolding integer_register lookup text_eq print_int decimal c_text
memory_access-stored_example =
    memory_access-stored whole_numbers (codes "R1") 10 subtracting 9
      (record {
        rest = codes "UB";
        opcode = refl;
        integer = refl;
        target = refl;
        result = record { text = refl };
        fits = refl;
        room = omega arith;
      })
      (inl (omega arith))

-- R2 is the target of the instruction that executes.
abbrev comparing : Cpu ℤ
comparing = record idle { decode_execute_buffered = latch (codes "ADD") (codes "R2") }

branch-first_example :
    (decode_beq whole_numbers (codes "R1,R2,loop") comparing
      ≡ branch_if
          (registers_equal whole_numbers false (codes "R1") (codes "R2") comparing)
          (codes "loop")
          (record comparing { stall_if = false }))
    × (decode_bneq whole_numbers (codes "R1,R2,loop") comparing
        ≡ branch_if
            (not (registers_equal whole_numbers false (codes "R1") (codes "R2") comparing))
            (codes "loop")
            (record comparing { stall_if = false }))
unfolding validate_register contains text_eq is_pending found_before starts_with
branch-first_example =
    branch-first whole_numbers (codes "R1") (codes "R2") (codes "loop") comparing (omega arith)
      (omega arith) (omega arith) refl refl (record { not_pending = refl; not_last = refl })

parse_lines-blank_example :
    parse_lines
      (codes "NOOP " ∷ [] ∷ codes "NOOP" ∷ [])
      (record { mlabels = []; vprogram = []; line_number = 0 })
    ≡ undefined
parse_lines-blank_example = parse_lines-blank (codes "NOOP " ∷ []) (codes "NOOP") [] _

parse_lines-ended_example :
    parse_lines
      (codes "a: NOOP " ∷ codes "NOOP" ∷ [])
      (record { mlabels = []; vprogram = []; line_number = 0 })
    ≡ ok (
        parse_texts
          (codes "a: NOOP" ∷ codes "NOOP" ∷ [])
          (record { mlabels = []; vprogram = []; line_number = 0 }))
parse_lines-ended_example = parse_lines-ended 32 (codes "a: NOOP" ∷ codes "NOOP" ∷ []) _
