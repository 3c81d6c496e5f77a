-- ===== src/Pipeline/Tests.antt =====
-- Runs of the pipeline on small programs. Doubles are taken as whole numbers here.
mod Stages
use mscs.Common.{
  ℕ, zero, suc, ◌+◌, ◌<◌, ◌≡◌, ◌≢◌, refl, Bool, true, false, Option, none, some, List, [], ◌∷◌,
  ◌++◌, length, if◌then◌else◌, arith, take,
}
use mscs.Common.Int.{ℤ, pos, negsuc}
use mscs.Common.Outcome.{Outcome, ok, fail, undefined, ◌>>=◌}
use mscs.Common.Text.{
  Text, codes, parse_signed, parse_digits, skip_space, int_or_undefined, decimal,
}
use mscs.Common.Dict.{Dict, lookup}
use mscs.Simulator.Tests.{whole_numbers}
use mscs.Simulator.Program.{Files}
use mscs.Pipeline.Cpu.{Cpu}
use mscs.Pipeline.Cycle.{cycle, execute_program, reset_run, instruction_fetch}
use mscs.Pipeline.Decode.{address_unless}
use mscs.Pipeline.Fetch.{cycles}
use mscs.Pipeline.Fetch.Loaded.{cycles-fetch}
use mscs.Pipeline.Program.{load_files, blank_cpu}

-- Lines that end with a carriage return, but for the last one.
abbrev counting : Files
counting = record {
  arch_params = some (
      codes "LI  2"
      ∷ codes "S    2"
      ∷ codes "ADD 2"
      ∷ codes "BNEQ 1"
      ∷ codes "NOOP 1"
      ∷ codes "--"
      ∷ []);
  init_mem = some (b'7' ∷ []);
  assembly = some (
      codes "  LI R1,1  ; one "
      ∷ codes "LI R3,3 "
      ∷ codes "; a comment "
      ∷ codes "loop: ADD R2,R2,R1 "
      ∷ codes "BNEQ R2,R3,loop "
      ∷ codes "S R2,8(R0) "
      ∷ codes "NOOP"
      ∷ []);
  output = true;
}

abbrev summary : Outcome (Bool × Cpu ℤ) → Option (Bool × Option ℤ × ℕ × ℕ × ℕ × List ℕ)
summary (ok (b, c)) = some (
  b,
  lookup (codes "R2") c.integer_registers,
  c.cycle_count,
  c.stall_count,
  c.instruction_count,
  c.mem 0 ∷ c.mem 8 ∷ c.mem 9 ∷ [],
)
summary _ = none

abbrev run_loaded : ℕ → Outcome (Bool × Cpu ℤ) → Outcome (Bool × Cpu ℤ)
run_loaded fuel (ok (true, c)) = execute_program whole_numbers fuel c
run_loaded fuel _ = undefined

counts_up :
    summary (run_loaded 100 (load_files whole_numbers counting 0 (λ _. 0)))
    ≡ some (true, some (pos 3), 28, 14, 12, b'7' ∷ b'3' ∷ 0 ∷ [])
unfolding load_files execute_program parse_signed parse_digits skip_space int_or_undefined decimal
    address_unless
counts_up = refl

abbrev cpu_or : Cpu ℤ → Outcome (Bool × Cpu ℤ) → Cpu ℤ
cpu_or other (ok (_, c)) = c
cpu_or other _ = other

abbrev loaded : Cpu ℤ
loaded = cpu_or (blank_cpu whole_numbers (λ _. 0)) (load_files whole_numbers counting 0 (λ _. 0))

abbrev state_or : Cpu ℤ → Outcome (Cpu ℤ) → Cpu ℤ
state_or other (ok c) = c
state_or other _ = other

abbrev running : Cpu ℤ
running = state_or loaded (cycles whole_numbers 5 (reset_run loaded))

cycles-fetch_example :
    (fetched : Cpu ℤ) × (instruction_fetch
        (record running { cycle_count = running.cycle_count + 1 })
      ≡ ok fetched)
unfolding load_files cycle cycles reset_run parse_signed parse_digits skip_space int_or_undefined
    decimal address_unless
cycles-fetch_example =
    cycles-fetch whole_numbers counting 0 (λ _. 0) 5 loaded running refl (omega arith) refl
