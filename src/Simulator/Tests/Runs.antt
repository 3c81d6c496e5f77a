-- ===== src/Simulator/Tests/Runs.antt =====
-- The theorems on whole files and runs, at concrete ones.
use mscs.Common.{
  suc, length, ap, zero, ℕ, ◌+◌, ◌≡◌, ◌≢◌, refl, true, some, List, [], ◌∷◌, take, arith,
}
use mscs.Common.Int.{ℤ, pos}
use mscs.Common.Outcome.{undefined, ok}
use mscs.Common.Text.{
  Text, codes, text_eq, starts_with, find, atoi, parse_signed, parse_digits, skip_space,
  int_or_undefined,
}
use mscs.Common.Dict.{lookup}
use mscs.Simulator.Machine.{memory_size, Machine}
use mscs.Simulator.Execute.{
  decode, Halt, finished, running, step, at_end, fetch_at, execute_program,
}
use mscs.Simulator.Transfer.{execute_li}
use mscs.Simulator.Assembly.{Assembly, parse_assembly_file}
use mscs.Simulator.Assembly.Lines.{IsParsed, parse_assembly_file-IsParsed}
use mscs.Simulator.Assembly.Words.{IsWord}
use mscs.Simulator.Run.Words.{execute_program-words}
use mscs.Simulator.Params.{parse_arch_params}
use mscs.Simulator.Params.Table.{IsEntry, Entry, insert_entries, parse_arch_params-entries}
use mscs.Simulator.Program.{copy_memory_file, dump_memory_file, load_files}
use mscs.Simulator.Program.Image.{copy_memory_file-undefined, dump-copy}
use mscs.Simulator.Program.Ends.{load_files-fetch}
use mscs.Simulator.Run.{here, next}
use mscs.Simulator.Run.Straight.{execute_program-IsStraight}
use mscs.Simulator.Tests.{whole_numbers, countdown, loaded, loads, machine}

abbrev machine_of : Machine ℤ → Halt ℤ → Machine ℤ
machine_of other (running m) = m
machine_of other (finished m) = m
machine_of other _ = other

-- After one round, and after both lines of the program.
abbrev first_round : Machine ℤ
first_round = machine_of loaded (step whole_numbers loaded)

load_files-fetch_example :
    ((line : Text) × (fetch_at first_round.program_counter first_round.vprogram ≡ some line))
    × (first_round.instruction_count ≡ loaded.instruction_count + 1)
unfolding load_files parse_signed parse_digits skip_space int_or_undefined step at_end execute_li
    lookup
load_files-fetch_example =
    load_files-fetch whole_numbers countdown 0 (λ _. 0) loaded first_round 1 loads
      (next here refl refl) refl

execute_program-IsStraight_example : execute_program whole_numbers 2 machine ≢ running machine
unfolding find decode text_eq starts_with
execute_program-IsStraight_example =
    execute_program-IsStraight whole_numbers machine machine (refl, (refl, tt)) refl

parse_assembly_file-IsParsed_example :
    IsParsed
      (codes "x: ADD R1,R1,R1 ;" ∷ codes " NOOP " ∷ [])
      (parse_assembly_file (codes "x: ADD R1,R1,R1 ;" ∷ codes " NOOP " ∷ []))
parse_assembly_file-IsParsed_example =
    parse_assembly_file-IsParsed (codes "x: ADD R1,R1,R1 ;" ∷ codes " NOOP " ∷ [])

abbrev words : List Text
words = codes "NOOP" ∷ codes "NOSUCH" ∷ []

noop-IsWord : IsWord (codes "NOOP")
noop-IsWord = (omega arith, omega arith, omega arith, omega arith)

nosuch-IsWord : IsWord (codes "NOSUCH")
nosuch-IsWord = (omega arith, omega arith, omega arith, omega arith)

execute_program-words_example :
    (parse_assembly_file words ≡ ok (record { mlabels = []; vprogram = []; line_number = 0 }))
    × ((a : Assembly) × (parse_assembly_file (codes "NOOP " ∷ codes "NOSUCH " ∷ []) ≡ ok a)
        × (a.vprogram ≡ words)
        × (execute_program whole_numbers 2
              (record machine { vprogram = a.vprogram; program_counter = pos 0 })
            ≡ finished (record machine {
              vprogram = words;
              program_counter = pos 2;
              instruction_count = 2;
              cycle_count = pos 0;
            })))
execute_program-words_example =
    execute_program-words whole_numbers words machine (noop-IsWord, (nosuch-IsWord, tt))

abbrev entries : List Entry
entries =
    record { op = codes "ADD"; spaces = 3; digits = codes "2"; cycles = pos 2 }
    ∷ record { op = codes "MUL.D"; spaces = 0; digits = codes "12"; cycles = pos 12 }
    ∷ []

add-IsEntry : IsEntry (record { op = codes "ADD"; spaces = 3; digits = codes "2"; cycles = pos 2 })
unfolding atoi parse_signed parse_digits skip_space int_or_undefined starts_with
add-IsEntry = record {
  op_free = omega arith;
  digits_free = omega arith;
  op_short = omega arith;
  digits_short = omega arith;
  line_short = omega arith;
  no_dash = refl;
  value = refl;
  positive = refl;
}

mul-IsEntry :
    IsEntry (record { op = codes "MUL.D"; spaces = 0; digits = codes "12"; cycles = pos 12 })
unfolding atoi parse_signed parse_digits skip_space int_or_undefined starts_with
mul-IsEntry = record {
  op_free = omega arith;
  digits_free = omega arith;
  op_short = omega arith;
  digits_short = omega arith;
  line_short = omega arith;
  no_dash = refl;
  value = refl;
  positive = refl;
}

parse_arch_params-entries_example :
    parse_arch_params (codes "ADD    2" ∷ codes "MUL.D 12" ∷ codes "--" ∷ codes "loads 3" ∷ []) []
    ≡ ok (true, insert_entries entries [])
unfolding atoi parse_signed parse_digits skip_space int_or_undefined starts_with
parse_arch_params-entries_example =
    parse_arch_params-entries entries (codes "-") (codes "loads 3" ∷ []) []
      (add-IsEntry, (mul-IsEntry, tt))

dump-copy_example :
    (f : ℕ → ℕ) × (copy_memory_file (b'7' ∷ 0 ∷ []) 0 (λ _. 1) ≡ ok f)
    × (take 2 (dump_memory_file f) ≡ b'7' ∷ 0 ∷ [])
dump-copy_example = dump-copy (b'7' ∷ 0 ∷ []) 0 (λ _. 1) (omega arith)

-- A file of zeros.
zeros : ℕ → List ℕ
zeros zero = []
zeros (suc n) = 0 ∷ zeros n

length-zeros : (n : ℕ) → length (zeros n) ≡ n
unfolding zeros
length-zeros zero = refl
length-zeros (suc n) = ap suc (length-zeros n)

copy_memory_file-undefined_example : copy_memory_file (zeros memory_size) 0 (λ _. 1) ≡ undefined
copy_memory_file-undefined_example =
    copy_memory_file-undefined (zeros memory_size) 0 (λ _. 1)
      (omega (arith, length-zeros memory_size))
