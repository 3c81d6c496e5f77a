-- ===== src/Tomasulo/Tests.antt =====
-- Runs of the simulator on small programs. Doubles are taken as whole numbers here.
mod Facts
use mscs.Common.{ℕ, ◌≡◌, refl, Bool, true, false, none, some, List, [], ◌∷◌}
use mscs.Common.Int.{ℤ, pos}
use mscs.Common.Outcome.{Outcome, undefined, fail, ok, ◌>>=◌}
use mscs.Common.Text.{
  Text, codes, parse_signed, parse_digits, skip_space, int_or_undefined, decimal, print_int,
}
use mscs.Common.Dict.{Dict}
use mscs.Tomasulo.Types.{
  Opcode, mul, bgtz_d, Register, null, integer_at, float_at, ival, dval, Instruction,
  blank_instruction, WriteBack, Machine, FunctionalUnit, MemoryUnit, ArithmeticUnit, Stations,
}
use mscs.Tomasulo.Registers.{integer_file, float_file, register}
use mscs.Tomasulo.Cycle.{Simulation, execute_program}
use Prim.Native.String.{String}
use mscs.Tomasulo.Program.{load_files}
use mscs.Simulator.Tests.{whole_numbers}
use mscs.Simulator.Program.{Files}

abbrev pub arch : List Text
arch =
    codes "NOOP 1"
    ∷ codes "ADD 2"
    ∷ codes "SUB 2"
    ∷ codes "MUL 3"
    ∷ codes "DIV.D 2"
    ∷ codes "LI 2"
    ∷ codes "L 2"
    ∷ codes "S 2"
    ∷ codes "BGTZ 1"
    ∷ codes "BGTZ.D 1"
    ∷ codes "BEQ.D 1"
    ∷ codes "MOVE 2"
    ∷ codes "--"
    ∷ codes "loads 2"
    ∷ codes "stores 1"
    ∷ codes "intadds 2"
    ∷ codes "intmuls 1"
    ∷ codes "fpadds 1"
    ∷ codes "fpdivs 1"
    ∷ codes "--"
    ∷ []

abbrev pub program_of : List Text → Files
program_of lines = record {
  arch_params = some arch;
  init_mem = some (b'7' ∷ []);
  assembly = some lines;
  output = true;
}

abbrev pub run_of : ℕ → List Text → Outcome (Bool × Simulation ℤ)
unfolding load_files execute_program parse_signed parse_digits skip_space int_or_undefined
run_of fuel lines = load_files whole_numbers (program_of lines) 0 (λ _. 0) >>= λ o.
    elim o as (λ _. Outcome (Bool × Simulation ℤ)) [
      | none ↦ undefined
      | some s ↦ execute_program whole_numbers print_int fuel s
    ]

-- Whether the run has ended, the cycles, and the values of the integer registers 1 to 3.
abbrev pub Summary : Type 0
Summary = Bool × ℕ × ℤ × ℤ × ℤ

abbrev pub summary : Outcome (Bool × Simulation ℤ) → Outcome Summary
unfolding register
summary r = r >>= λ (ended, s).
    let value : String → ℤ = λ name. (register integer_file (codes name) s.machine).val in
    ok (ended, s.cycle_count, value "R1", value "R2", value "R3")

abbrev product : List Text
product = codes "LI R1,7 " ∷ codes "LI R2,5 " ∷ codes "MUL R3,R1,R2 " ∷ codes "SUB R1,R3,R2" ∷ []

abbrev lost : List Text
lost = codes "LI R1,7 " ∷ codes "NOOP " ∷ codes "NOOP " ∷ codes "NOOP " ∷ codes "LI R1,5" ∷ []

-- A product, and a difference that needs it.
product-run : summary (run_of 40 product) ≡ ok (true, 14, pos 30, pos 5, pos 35)
unfolding load_files execute_program register parse_signed parse_digits skip_space int_or_undefined
    integer_file float_file decimal
product-run = refl

-- The second `LI` waits for the bus when no unit is busy any more: it is issued in the round that
-- ends the program, and R1 keeps its old value.
lost-run : summary (run_of 40 lost) ≡ ok (true, 6, pos 7, pos 0, pos 0)
unfolding load_files execute_program register parse_signed parse_digits skip_space int_or_undefined
    integer_file float_file decimal
lost-run = refl

abbrev pub integers : Dict (Register ℤ)
integers =
    (codes "R1", record { val = pos 7; wait_on = none })
    ∷ (codes "R2", record { val = pos 5; wait_on = none })
    ∷ (codes "R3", record { val = pos 0; wait_on = some 9 })
    ∷ []

abbrev pub idle_bus : WriteBack ℤ
idle_bus = record {
  target_reg = [];
  is_double = false;
  busy = false;
  val = dval (pos 0);
  target = null;
}

-- Three integer registers, the last of which waits for the unit 9.
abbrev pub small : Machine ℤ
small = record {
  integer_registers = integers;
  float_registers = (codes "F1", record { val = pos 3; wait_on = none }) ∷ [];
  write_back = idle_bus;
  mem = λ _. 0;
  mlabels = [];
  opcode_cycles = λ op. some (pos 2);
  unit_counts = (codes "loads", pos 2) ∷ (codes "stores", pos 1) ∷ (codes "intmuls", pos 2) ∷ [];
  program_counter = pos 4;
  trigger_end = false;
  stall_if = false;
  stall_due_to_branch = false;
  freeze = false;
  stall_due_to_rs = λ k. false;
}

abbrev pub occupied : Machine ℤ
occupied = record small {
  write_back = record idle_bus {
    busy = true;
    val = ival (pos 1);
    target_reg = codes "R1";
    target = integer_at (codes "R1");
  };
}

-- `MUL R2,R1,R2`
abbrev pub multiply : Instruction
multiply = record blank_instruction {
  opcode = mul;
  source_reg1 = codes "R1";
  source_reg2 = codes "R2";
  target_reg = codes "R2";
  target = integer_at (codes "R2");
}

abbrev pub unit_with : Instruction → ℕ → Bool → FunctionalUnit ℤ
unit_with i id busy = record {
  ins = i;
  my_id = id;
  busy = busy;
  final_value = dval (pos 0);
  do_not_execute = false;
  i_count = 2;
  remaining = 2;
  wait_to_write_back = false;
}

abbrev pub ready : Instruction → ℕ → Bool → ArithmeticUnit ℤ ℤ
ready i id busy = record {
  fu = unit_with i id busy;
  j = record { v = integer_at (codes "R1"); q = null; s = pos 7 };
  k = record { v = integer_at (codes "R2"); q = null; s = pos 5 };
}

-- `BGTZ.D F1,..` and `BEQ.D F1,F1,..`
abbrev pub branch_on_float : Opcode → ArithmeticUnit ℤ ℤ
branch_on_float op = record {
  fu =
      unit_with
        (record blank_instruction {
          opcode = op;
          is_double = true;
          source_reg1 = codes "F1";
          source_reg2 = codes "F1";
          branch_target = pos 0;
        })
        7 true;
  j = record { v = float_at (codes "F1"); q = null; s = pos 3 };
  k = record { v = float_at (codes "F1"); q = null; s = pos 3 };
}

abbrev pub memory_unit : ℕ → Bool → MemoryUnit ℤ
memory_unit id busy = record { fu = unit_with blank_instruction id busy; mem_address = pos 0 }

abbrev pub stations : Stations ℤ
stations = record {
  load_rs = memory_unit 1 true ∷ memory_unit 2 false ∷ [];
  store_rs = memory_unit 3 false ∷ [];
  iadd_rs = [];
  imul_rs = ready multiply 4 true ∷ ready multiply 5 false ∷ [];
  idiv_rs = [];
  fadd_rs = branch_on_float bgtz_d ∷ [];
  fmul_rs = [];
  fdiv_rs = [];
}

abbrev pub simulation : Simulation ℤ
simulation = record {
  machine = small;
  stations = stations;
  vprogram = [];
  ir = blank_instruction;
  cycle_count = 3;
  stall_count = 0;
  instruction_count = 3;
}

-- `MUL R2,R1,R2` waits to be issued again, and no unit is busy.
abbrev pub waiting : Simulation ℤ
waiting = record simulation {
  machine = record small { stall_if = true; program_counter = pos 1 };
  stations = record stations {
    load_rs = memory_unit 2 false ∷ [];
    imul_rs = ready multiply 5 false ∷ [];
    fadd_rs = [];
  };
  vprogram = record multiply { s_line = codes "R2,R1,R2" } ∷ [];
}

-- A product that only has to be sent and written, and the state behind the program's end.
abbrev pub last_rounds : Simulation ℤ
last_rounds = record simulation {
  machine = record small { program_counter = pos 1 };
  stations = record stations {
    load_rs = [];
    imul_rs =
        record (ready multiply 4 true) { fu = record (unit_with multiply 4 true) { remaining = 0 } }
        ∷ [];
    fadd_rs = [];
  };
}

abbrev or_finished : Outcome (Bool × Simulation ℤ) → Simulation ℤ → Simulation ℤ
or_finished (ok (b, s)) t = s
or_finished (fail e) t = t
or_finished undefined t = t

abbrev pub finished : Simulation ℤ
unfolding execute_program integer_file float_file decimal
finished = or_finished (execute_program whole_numbers print_int 4 last_rounds) simulation

pub finishes : execute_program whole_numbers print_int 4 last_rounds ≡ ok (true, finished)
unfolding execute_program integer_file float_file decimal
finishes = refl
