-- ===== src/Simulator/Program.antt =====
-- `copyMemoryFile`, `dumpMemoryFile` and `main`. A file is `none` where it cannot be opened, and a
-- text file is the list of what `getline` gives.
pub mod Image
pub mod Ends
use mscs.Common.{
  ℕ, zero, suc, ◌+◌, ◌==◌, Bool, true, false, leb, ltb, if◌then◌else◌, Option, none, some, List, [],
  ◌∷◌, length,
}
use mscs.Common.Int.{ℤ, pos}
use mscs.Common.Outcome.{Outcome, ok, fail, undefined, ◌>>=◌}
use mscs.Common.Text.{Text}
use mscs.Simulator.Double.{Double}
use mscs.Simulator.Machine.{Machine, memory_size, initialize_registers}
use mscs.Simulator.Transfer.{read_mem}
use mscs.Simulator.Execute.{Halt, finished, failed, running, crashed, execute_program}
use mscs.Simulator.Assembly.{Assembly, parse_assembly_file}
use mscs.Simulator.Params.{parse_arch_params}

-- The loop of `copyMemoryFile`: `cdata` is the byte that was read last. The read that meets the end
-- of the file leaves it alone, and it is stored once more.
unfoldable pub copy_bytes : List ℕ → ℕ → ℕ → (ℕ → ℕ) → Outcome (ℕ → ℕ)
copy_bytes [] count cdata mem =
    if leb count memory_size
    then if ltb count memory_size then ok (λ x. if x == count then cdata else mem x) else undefined
    else ok mem
copy_bytes (b ∷ bs) count cdata mem =
    let rest = copy_bytes bs (count + 1) b (λ x. if x == count then b else mem x) in
    if leb count memory_size then if ltb count memory_size then rest else undefined else ok mem

-- What is in the allocated memory and in `cdata` before the first read is not known.
unfoldable pub copy_memory_file : List ℕ → ℕ → (ℕ → ℕ) → Outcome (ℕ → ℕ)
unfolding copy_bytes
copy_memory_file bytes cdata mem = copy_bytes bytes 0 cdata mem

unfoldable pub dump_memory_file : (ℕ → ℕ) → List ℕ
dump_memory_file mem = read_mem memory_size 0 mem

-- The files on the command line; `output` tells whether the fourth can be created.
pub record Files : Type 0 where
  pub arch_params : Option (List Text)
  pub init_mem : Option (List ℕ)
  pub assembly : Option (List Text)
  pub output : Bool

-- How `main` ends: with an exit status, and the bytes of the output file where it was written.
pub data Ending : Type 0 where
  exits : ℕ → Ending
  dumps : ℕ → List ℕ → Ending
  aborts : Ending
  still_running : Ending

module _ (D : Double) where
  open D use {Value, zero_value}

  -- After `executeProgram`: the dump, which a failed run reaches too.
  unfoldable pub write_output : Bool → Machine Value → Ending
  unfolding dump_memory_file
  write_output output m = if output then dumps 1 (dump_memory_file m.mem) else exits 1

  unfoldable pub after_run : Bool → Halt Value → Ending
  unfolding write_output
  after_run output (finished m) = write_output output m
  after_run output (failed e m) = write_output output m
  after_run output (running m) = still_running
  after_run output crashed = aborts

  -- The three files in turn, each only if the one before was read.
  unfoldable pub load_params : Option (List Text) → Machine Value → Outcome (Bool × Machine Value)
  unfolding parse_arch_params
  load_params none m = ok (false, m)
  load_params (some lines) m = do
    (good, table) ← parse_arch_params lines m.opcode_cycles
    ok (good, record m { opcode_cycles = table })

  unfoldable pub load_assembly : Option (List Text) → Machine Value → Outcome (Bool × Machine Value)
  unfolding parse_assembly_file
  load_assembly none m = ok (false, m)
  load_assembly (some lines) m = do
    a ← parse_assembly_file lines
    ok (true, record m { mlabels = a.mlabels; vprogram = a.vprogram })

  unfoldable pub load_memory : Option (List ℕ) → ℕ → Machine Value → Outcome (Bool × Machine Value)
  unfolding copy_memory_file
  load_memory none cdata m = ok (false, m)
  load_memory (some bytes) cdata m = do
    mem ← copy_memory_file bytes cdata m.mem
    ok (true, record m { mem = mem })

  -- The machine before `main`: global containers are empty and global numbers are 0; `garbage` is
  -- what the memory holds when it is allocated.
  abbrev pub blank_machine : (ℕ → ℕ) → Machine Value
  blank_machine garbage = record {
    opcode_cycles = [];
    integer_registers = [];
    float_registers = [];
    mlabels = [];
    vprogram = [];
    mem = garbage;
    cycle_count = pos 0;
    instruction_count = 0;
    program_counter = pos 0;
  }

  -- A file is read only if those before it were.
  unfoldable pub assembly_next : Files → Bool × Machine Value → Outcome (Bool × Machine Value)
  unfolding load_assembly
  assembly_next files (true, m) = load_assembly files.assembly m
  assembly_next files (false, m) = ok (false, m)

  unfoldable pub memory_next : Files → ℕ → Bool × Machine Value → Outcome (Bool × Machine Value)
  unfolding load_memory
  memory_next files cdata (true, m) = load_memory files.init_mem cdata m
  memory_next files cdata (false, m) = ok (false, m)

  -- The machine that `executeProgram` starts from, and whether it does.
  unfoldable pub load_files : Files → ℕ → (ℕ → ℕ) → Outcome (Bool × Machine Value)
  unfolding initialize_registers load_params assembly_next memory_next
  load_files files cdata garbage =
      load_params files.arch_params (initialize_registers zero_value (blank_machine garbage))
      >>= assembly_next files
      >>= memory_next files cdata

  -- The one error is a parser that does not return.
  unfoldable pub after_load : Files → ℕ → Outcome (Bool × Machine Value) → Ending
  unfolding execute_program after_run
  after_load files fuel (ok (true, m)) = after_run files.output (execute_program D fuel m)
  after_load files fuel (ok (false, m)) = exits 1
  after_load files fuel (fail e) = still_running
  after_load files fuel undefined = aborts

  -- `main`, with the number of arguments and `fuel` rounds of the program.
  unfoldable pub run_main : ℕ → Files → ℕ → ℕ → (ℕ → ℕ) → Ending
  unfolding load_files after_load
  run_main argc files fuel cdata garbage =
      if ltb argc 5 then exits 1 else after_load files fuel (load_files files cdata garbage)
