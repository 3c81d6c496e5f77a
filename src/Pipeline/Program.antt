-- ===== src/Pipeline/Program.antt =====
-- `main` of sim_p.cpp. It has its own copies of `parseArchParams`, `copyMemoryFile` and
-- `dumpMemoryFile`, which are those of sim_seq.cpp word for word.
use mscs.Common.{ℕ, Bool, true, false, ltb, if◌then◌else◌, Option, none, some, List, []}
use mscs.Common.Int.{ℤ, pos}
use mscs.Common.Outcome.{Outcome, ok, fail, undefined, ◌>>=◌}
use mscs.Common.Text.{Text}
use mscs.Common.Dict.{Dict}
use mscs.Simulator.Double.{Double}
use mscs.Simulator.Params
use mscs.Simulator.Program
use mscs.Simulator.Program.{Files, Ending, exits, dumps, aborts, still_running}
use mscs.Pipeline.Buffers.{zeros}
use mscs.Pipeline.Cpu.{no_latch, no_data, Cpu, initialize_registers}
use mscs.Pipeline.Cycle.{execute_program}
use mscs.Pipeline.Assembly.{parse_assembly_file}

unfoldable pub parse_arch_params : List Text → Dict ℤ → Outcome (Bool × Dict ℤ)
unfolding Params.parse_arch_params
parse_arch_params = Params.parse_arch_params

unfoldable pub copy_memory_file : List ℕ → ℕ → (ℕ → ℕ) → Outcome (ℕ → ℕ)
unfolding Program.copy_memory_file
copy_memory_file = Program.copy_memory_file

unfoldable pub dump_memory_file : (ℕ → ℕ) → List ℕ
unfolding Program.dump_memory_file
dump_memory_file = Program.dump_memory_file

module _ (D : Double) where
  open D use {Value, zero_value}

  -- Global objects before `main`; `garbage` is what the memory holds when it is allocated.
  abbrev pub blank_cpu : (ℕ → ℕ) → Cpu Value
  blank_cpu garbage = record {
    opcode_cycles = [];
    integer_registers = [];
    float_registers = [];
    mlabels = [];
    vprogram = [];
    mem = garbage;
    ir = [];
    ir_buffered = [];
    temp_a = zeros;
    temp_b = zeros;
    immediate = zeros;
    temp_a_buffered = zeros;
    temp_b_buffered = zeros;
    immediate_buffered = zeros;
    cycle_count = 0;
    stall_count = 0;
    instruction_count = 0;
    program_counter = 0;
    stall_if = false;
    freeze = false;
    execute_cycle = pos 1;
    decode_execute = no_latch;
    decode_execute_buffered = no_latch;
    execute_mem = no_data;
    execute_mem_buffered = no_data;
    mem_wb = no_data;
    mem_wb_buffered = no_data;
  }

  unfoldable pub load_params : Option (List Text) → Cpu Value → Outcome (Bool × Cpu Value)
  unfolding parse_arch_params
  load_params none c = ok (false, c)
  load_params (some lines) c = do
    (good, table) ← parse_arch_params lines c.opcode_cycles
    ok (good, record c { opcode_cycles = table })

  -- A file is read only if those before it were.
  unfoldable pub load_assembly : Option (List Text) → Bool × Cpu Value → Outcome (Bool × Cpu Value)
  unfolding parse_assembly_file
  load_assembly file (false, c) = ok (false, c)
  load_assembly none (true, c) = ok (false, c)
  load_assembly (some lines) (true, c) = do
    a ← parse_assembly_file lines
    ok (true, record c { mlabels = a.mlabels; vprogram = a.vprogram })

  unfoldable pub load_memory : Option (List ℕ) → ℕ → Bool × Cpu Value → Outcome (Bool × Cpu Value)
  unfolding copy_memory_file
  load_memory file cdata (false, c) = ok (false, c)
  load_memory none cdata (true, c) = ok (false, c)
  load_memory (some bytes) cdata (true, c) = do
    mem ← copy_memory_file bytes cdata c.mem
    ok (true, record c { mem = mem })

  unfoldable pub load_files : Files → ℕ → (ℕ → ℕ) → Outcome (Bool × Cpu Value)
  unfolding initialize_registers load_params load_assembly load_memory
  load_files files cdata garbage =
      load_params files.arch_params (initialize_registers zero_value (blank_cpu garbage))
      >>= load_assembly files.assembly
      >>= load_memory files.init_mem cdata

  -- A stage that fails ends the process before the memory is dumped.
  unfoldable pub after_run : Bool → Outcome (Bool × Cpu Value) → Ending
  unfolding dump_memory_file
  after_run output (ok (true, c)) = if output then dumps 1 (dump_memory_file c.mem) else exits 1
  after_run output (ok (false, c)) = still_running
  after_run output (fail e) = exits 1
  after_run output undefined = aborts

  unfoldable pub after_load : Files → ℕ → Outcome (Bool × Cpu Value) → Ending
  unfolding execute_program after_run
  after_load files fuel (ok (true, c)) = after_run files.output (execute_program D fuel c)
  after_load files fuel (ok (false, c)) = exits 1
  after_load files fuel (fail e) = exits 1
  after_load files fuel undefined = aborts

  unfoldable pub run_main : ℕ → Files → ℕ → ℕ → (ℕ → ℕ) → Ending
  unfolding load_files after_load
  run_main argc files fuel cdata garbage =
      if ltb argc 5 then exits 1 else after_load files fuel (load_files files cdata garbage)
