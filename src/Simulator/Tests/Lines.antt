-- ===== src/Simulator/Tests/Lines.antt =====
-- The theorems on single lines, at concrete machines.
use mscs.Common.{◌≡◌, refl, not, some, if◌then◌else◌, arith}
use mscs.Common.Int.{ℤ, pos, negsuc, ◌+ℤ◌}
use mscs.Common.Outcome.{ok, Post}
use mscs.Common.Text.{
  text_eq, starts_with, codes, contains_text, atoi, parse_signed, parse_digits, skip_space,
  int_or_undefined, decimal, print_int,
}
use mscs.Common.Dict.{lookup}
use mscs.Simulator.Machine.{Machine, validate_register, integer_register}
use mscs.Simulator.Execute.{execute_line, increment}
use mscs.Simulator.Operand.{dot_d}
use mscs.Simulator.Arithmetic.{execute_add}
use mscs.Simulator.Arithmetic.Encode.{Computed, execute_add-Computed}
use mscs.Simulator.Transfer.{address, execute_l, execute_s}
use mscs.Simulator.Transfer.Reload.{Stored, execute_s-Stored, reload}
use mscs.Simulator.Branch.{registers_equal, execute_beq, execute_bneq}
use mscs.Simulator.Branch.Taken.{branched, beq_or_bneq}
use mscs.Simulator.Frame.{Frame, line_branches}
use mscs.Simulator.Frame.Handlers.{execute_line-Frame}
use mscs.Simulator.Tests.{whole_numbers, machine}

execute_add-Computed_example :
    (m' : Machine ℤ) × (execute_add whole_numbers (codes "ADD") (codes "R3,R1,R2") machine ≡ ok m')
    × Computed (codes "R3") (pos 7 +ℤ negsuc 1) (pos 2) machine m'
unfolding contains_text starts_with text_eq lookup validate_register integer_register ◌+ℤ◌
execute_add-Computed_example =
    execute_add-Computed whole_numbers (codes "ADD") (codes "R3") (codes "R1") (codes "R2") (pos 2)
      machine refl (omega arith) refl (omega arith, refl) (omega arith, refl) (omega arith, refl)
      refl

execute_s-Stored_example :
    Post (Stored machine) (execute_s whole_numbers (codes "S") (codes "R1,8(R0)") machine)
execute_s-Stored_example = execute_s-Stored whole_numbers (codes "S") (codes "R1,8(R0)") machine

reload_example :
    (m1 : Machine ℤ) × (m2 : Machine ℤ) × (execute_s whole_numbers
        (codes "S")
        (codes "R3,8(R0)")
        machine
      ≡ ok m1)
    × (execute_l whole_numbers (codes "L") (codes "R1,8(R0)") m1 ≡ ok m2)
    × (lookup (codes "R1") m2.integer_registers ≡ some (pos 9999))
unfolding contains_text starts_with text_eq validate_register integer_register lookup print_int
    decimal address atoi parse_signed parse_digits skip_space int_or_undefined
reload_example =
    reload whole_numbers (codes "R3") (codes "R1") (codes "8") (codes "R0") (codes "S") (codes "L")
      (pos 8) (pos 3) (pos 4) 8 machine (omega arith) (omega arith) (omega arith) (omega arith)
      (omega arith) refl refl refl refl refl refl refl (omega arith) (omega arith) refl refl refl
      (omega arith)

beq_or_bneq_example :
    let equal =
      registers_equal whole_numbers
        (contains_text dot_d (codes "BEQ"))
        (codes "R1")
        (codes "R2")
        machine in
    (execute_beq whole_numbers (codes "BEQ") (codes "R1,R2,loop") machine
      ≡ ok (branched equal 0 (pos 1) machine))
    × (execute_bneq whole_numbers (codes "BEQ") (codes "R1,R2,loop") machine
        ≡ ok (branched (not equal) 0 (pos 1) machine))
    × (increment (branched equal 0 (pos 1) machine).program_counter
        ≡ (if equal then pos 0 else increment (pos 0)))
    × (increment (branched (not equal) 0 (pos 1) machine).program_counter
        ≡ (if equal then increment (pos 0) else pos 0))
unfolding contains_text starts_with text_eq validate_register lookup
beq_or_bneq_example =
    beq_or_bneq whole_numbers (codes "BEQ") (codes "R1") (codes "loop") 0 (pos 1) machine
      (omega arith) (omega arith) refl refl (omega arith) refl (codes "R2") (omega arith) refl

execute_line-Frame_example :
    Post
      (Frame (line_branches (codes "ADD R3,R1,R2")) machine)
      (execute_line whole_numbers (codes "ADD R3,R1,R2") machine)
execute_line-Frame_example = execute_line-Frame whole_numbers (codes "ADD R3,R1,R2") machine
