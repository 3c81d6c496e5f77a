-- ===== src/Simulator/Tests.antt =====
-- Runs of the simulator on small programs, and the theorems at concrete machines. Doubles are
-- taken as whole numbers here.
mod Runs
mod Lines
use mscs.Common.{
  ℕ, zero, suc, ◌+◌, ◌<◌, ◌≡◌, ◌≢◌, refl, Bool, true, false, Option, none, some, List, [], ◌∷◌,
  ◌++◌, length, if◌then◌else◌, arith,
}
use mscs.Common.Int.{ℤ, pos, negsuc, ◌+ℤ◌, ◌-ℤ◌, ◌*ℤ◌, quot, eqb_ℤ, is_positive, is_negative}
use mscs.Common.Outcome.{Outcome, ok, fail, undefined, invalid_label}
use mscs.Common.Text.{
  Text, codes, text_eq, starts_with, find, find_last, find_from, contains_text, atoi, parse_signed,
  parse_digits, skip_space, int_or_undefined, decimal, print_int,
}
use mscs.Common.Dict.{Dict, lookup, contains, assign, insert}
use mscs.Simulator.Double.{Double}
use mscs.Simulator.Machine.{Machine}
use mscs.Simulator.Execute.{Halt, finished, failed, running, crashed, step, at_end, execute_program}
use mscs.Simulator.Transfer.{execute_li, execute_s}
use mscs.Simulator.Arithmetic.{execute_sub}
use mscs.Simulator.Branch.{execute_bgtz, jump}
use mscs.Simulator.Program.{Files, Ending, exits, dumps, load_files, blank_machine}
use mscs.Simulator.Program.Ends.{load_files-fetch}

abbrev pub whole_numbers : Double
whole_numbers = record {
  Value = ℤ;
  zero_value = pos 0;
  add = ◌+ℤ◌;
  sub = ◌-ℤ◌;
  mul = ◌*ℤ◌;
  div = quot;
  equal = eqb_ℤ;
  above_zero = is_positive;
  below_zero = is_negative;
  of_int = λ v. v;
  to_int = some;
  parse = λ s. parse_signed (skip_space s);
  print = λ v. print_int v ++ codes ".000000";
  print_short = print_int;
}

-- R3 counts down from 3 to 0, and its last value but one is stored.
abbrev pub countdown : Files
countdown = record {
  arch_params =
      some (codes "LI  2" ∷ codes "S    2" ∷ codes "SUB 2" ∷ codes "BGTZ 1" ∷ codes "--" ∷ []);
  init_mem = some (b'7' ∷ []);
  assembly = some (
      codes "  LI R1,1  ; one"
      ∷ codes "LI R3,3"
      ∷ codes "; a comment"
      ∷ codes "loop: S R3,8(R2)"
      ∷ codes "SUB R3,R3,R1"
      ∷ codes "BGTZ R3,loop"
      ∷ codes "NOOP "
      ∷ []);
  output = true;
}

abbrev pub loaded_or : Machine ℤ → Outcome (Bool × Machine ℤ) → Machine ℤ
loaded_or other (ok (_, m)) = m
loaded_or other _ = other

abbrev pub loaded : Machine ℤ
loaded =
    loaded_or (blank_machine whole_numbers (λ _. 0)) (load_files whole_numbers countdown 0 (λ _. 0))

pub loads : load_files whole_numbers countdown 0 (λ _. 0) ≡ ok (true, loaded)
unfolding load_files parse_signed parse_digits skip_space int_or_undefined
loads = refl

-- Values at the end of a run.
abbrev summary : Halt ℤ → Option (Option ℤ × ℤ × ℕ × List ℕ)
summary (finished m) = some (
  lookup (codes "R3") m.integer_registers,
  m.cycle_count,
  m.instruction_count,
  m.mem 0 ∷ m.mem 8 ∷ m.mem 9 ∷ [],
)
summary _ = none

counts_down :
    summary (execute_program whole_numbers 20 loaded)
    ≡ some (some (pos 0), pos 19, 12, b'7' ∷ b'1' ∷ 0 ∷ [])
unfolding load_files execute_program parse_signed parse_digits skip_space int_or_undefined print_int
    decimal execute_li lookup execute_s contains_text execute_sub execute_bgtz jump
counts_down = refl

-- A machine with opcodes of known cycles, a label, and values in some registers.
abbrev pub machine : Machine ℤ
machine = record {
  opcode_cycles =
      (codes "ADD", pos 2)
      ∷ (codes "DIV", pos 5)
      ∷ (codes "S", pos 3)
      ∷ (codes "L", pos 4)
      ∷ (codes "BEQ", pos 1)
      ∷ [];
  integer_registers =
      (codes "R0", pos 0)
      ∷ (codes "R1", pos 7)
      ∷ (codes "R2", negsuc 1)
      ∷ (codes "R3", pos 9999)
      ∷ (codes "R10", pos 0)
      ∷ [];
  float_registers = (codes "F0", pos 0) ∷ (codes "F1", pos 10) ∷ [];
  mlabels = (codes "loop", 0) ∷ [];
  vprogram = codes "ADD R3,R1,R2" ∷ codes "S R3,8(R0)" ∷ [];
  mem = λ _. 0;
  cycle_count = pos 0;
  instruction_count = 0;
  program_counter = pos 0;
}
