-- ===== src/Tomasulo/Program.antt =====
-- `main` of sim_t.cpp. Its `copyMemoryFile` and `dumpMemoryFile` are those of sim_seq.cpp word for
-- word.
use mscs.Common.{ℕ, Bool, true, false, ltb, if◌then◌else◌, Option, none, some, List, []}
use mscs.Common.Int.{pos}
use mscs.Common.Outcome.{Outcome, undefined, fail, ok, ◌>>=◌}
use mscs.Common.Text.{Text}
use mscs.Simulator.Double.{Double}
use mscs.Simulator.Program
use mscs.Simulator.Program.{Files, Ending, exits, dumps, aborts, still_running}
use mscs.Tomasulo.Types.{blank_instruction}
use mscs.Tomasulo.Registers.{initialize_registers, reset_write_back}
use mscs.Tomasulo.Parameters.{Parameters, parse_arch_params}
use mscs.Tomasulo.Listing.{Listing, parse_assembly_file}
use mscs.Tomasulo.Cycle.{Simulation, execute_program}

unfoldable pub copy_memory_file : List ℕ → ℕ → (ℕ → ℕ) → Outcome (ℕ → ℕ)
unfolding Program.copy_memory_file
copy_memory_file = Program.copy_memory_file

unfoldable pub dump_memory_file : (ℕ → ℕ) → List ℕ
unfolding Program.dump_memory_file
dump_memory_file = Program.dump_memory_file

module _ (D : Double) where
  open D use {Value, zero_value}

  abbrev pub no_parameters : Parameters Value
  no_parameters = record {
    opcode_cycles = λ op. none;
    unit_counts = [];
    stations = record {
      load_rs = [];
      store_rs = [];
      iadd_rs = [];
      imul_rs = [];
      idiv_rs = [];
      fadd_rs = [];
      fmul_rs = [];
      fdiv_rs = [];
    };
    next_id = 1;
  }

  -- The globals when `executeProgram` starts.
  unfoldable pub start : Parameters Value → Listing → (ℕ → ℕ) → Simulation Value
  unfolding initialize_registers reset_write_back
  start p l mem = record {
    machine = initialize_registers D (record {
      integer_registers = [];
      float_registers = [];
      write_back = reset_write_back D;
      mem = mem;
      mlabels = l.texts.mlabels;
      opcode_cycles = p.opcode_cycles;
      unit_counts = p.unit_counts;
      program_counter = pos 0;
      trigger_end = false;
      stall_if = false;
      stall_due_to_branch = false;
      freeze = false;
      stall_due_to_rs = λ k. false;
    });
    stations = p.stations;
    vprogram = l.instructions;
    ir = blank_instruction;
    cycle_count = 0;
    stall_count = 0;
    instruction_count = 0;
  }

  -- The three files in turn; `none` where one cannot be read, and `main` exits with 1.
  unfoldable pub load_image :
      Files → Parameters Value → Listing → ℕ → (ℕ → ℕ) → Outcome (Option (Simulation Value))
  unfolding copy_memory_file start
  load_image files p l cdata garbage = elim files.init_mem [
    | none ↦ ok none
    | some bytes ↦ copy_memory_file bytes cdata garbage >>= λ mem. ok (some (start p l mem))
  ]

  unfoldable pub load_listing :
      Files → ℕ → (ℕ → ℕ) → Option (Parameters Value) → Outcome (Option (Simulation Value))
  unfolding parse_assembly_file load_image
  load_listing files cdata garbage none = ok none
  load_listing files cdata garbage (some p) = elim files.assembly [
    | none ↦ ok none
    | some lines ↦ parse_assembly_file lines >>= λ l. load_image files p l cdata garbage
  ]

  unfoldable pub load_files : Files → ℕ → (ℕ → ℕ) → Outcome (Option (Simulation Value))
  unfolding parse_arch_params load_listing
  load_files files cdata garbage = elim files.arch_params [
    | none ↦ ok none
    | some lines ↦ parse_arch_params D true lines no_parameters >>= load_listing files cdata garbage
  ]

  unfoldable pub after_run : Bool → Outcome (Bool × Simulation Value) → Ending
  unfolding dump_memory_file
  after_run output (ok (true, s)) =
      if output then dumps 1 (dump_memory_file s.machine.mem) else exits 1
  after_run output (ok (false, s)) = still_running
  after_run output (fail e) = exits 1
  after_run output undefined = aborts

  unfoldable pub after_load :
      (Value → Text) → Files → ℕ → Outcome (Option (Simulation Value)) → Ending
  unfolding execute_program after_run
  after_load print_fixed files fuel (ok (some s)) =
      after_run files.output (execute_program D print_fixed fuel s)
  after_load print_fixed files fuel (ok none) = exits 1
  after_load print_fixed files fuel (fail e) = exits 1
  after_load print_fixed files fuel undefined = aborts

  unfoldable pub run_main : (Value → Text) → ℕ → Files → ℕ → ℕ → (ℕ → ℕ) → Ending
  unfolding load_files after_load
  run_main print_fixed argc files fuel cdata garbage =
      if ltb argc 5
      then exits 1
      else after_load print_fixed files fuel (load_files files cdata garbage)
