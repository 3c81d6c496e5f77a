-- ===== src/Simulator/Run/Words.antt =====
-- A program whose lines are single words.
use mscs.Common.{
  ℕ, zero, suc, ◌+◌, ◌<◌, ◌≡◌, refl, ap, ◌∙◌, false, true, ◌==◌, some, List, [], ◌∷◌, length,
  get_elem?, get_elem?-lt, All, map, arith,
}
use mscs.Common.Int.{pos}
use mscs.Common.Outcome.{ok}
use mscs.Common.Text.{Text, find-none}
use mathlib.Core.Path.{subst}
use mscs.Simulator.Double.{Double}
use mscs.Simulator.Machine.{Machine}
use mscs.Simulator.Execute.{
  execute_split, execute_line, finished, running, increment, fetch_at, at_end, advance, after_line,
  execute_fetched, step, go_on, loop, execute_program,
}
use mscs.Simulator.Assembly.{Assembly, parse_assembly_file}
use mscs.Simulator.Assembly.Words.{IsWord, with_space, parse_lines-with_space, parse_lines-words}

get_elem?-IsWord :
    (program : List Text) (n : ℕ) (w : Text)
    → All IsWord program
    → get_elem? program n ≡ some w
    → IsWord w
get_elem?-IsWord [] n w h e = cc
get_elem?-IsWord (v ∷ program) zero w h e = let same : v ≡ w = cc in subst IsWord same h.0
get_elem?-IsWord (v ∷ program) (suc n) w h e = get_elem?-IsWord program n w h.1 e

before_end : (n fuel size : ℕ) → n + suc fuel ≡ size → (n == size) ≡ false
before_end n fuel size h = ground arith

at_size : (n size : ℕ) → n + 0 ≡ size → (n == size) ≡ true
at_size n size h = ground arith

module _ (D : Double) where
  open D use {Value}

  -- The machine `m` in the line `n` of a program, with the rounds that have been counted.
  abbrev pub at_line : List Text → ℕ → ℕ → Machine Value → Machine Value
  at_line program n rounds m = record m {
    vprogram = program;
    program_counter = pos n;
    instruction_count = rounds;
  }

  execute_line-word : (w : Text) (m : Machine Value) → IsWord w → execute_line D w m ≡ ok m
  unfolding execute_line execute_split
  execute_line-word [] m h = elim h [ ]
  execute_line-word (c ∷ s) m h = rw (find-none 32 (c ∷ s) h.0)

  step-word :
      (program : List Text) (n rounds : ℕ) (m : Machine Value)
      → All IsWord program
      → n < length program
      → step D (at_line program n rounds m) ≡ running (at_line program (suc n) (rounds + 1) m)
  unfolding step fetch_at execute_fetched after_line advance increment
  step-word program n rounds m h below =
      let (w, e) = get_elem?-lt program n below in
      rw
        (
          e,
          execute_line-word w (at_line program n (rounds + 1) m) (get_elem?-IsWord program n w h e),
        )
        refl

  loop-words :
      (fuel n rounds : ℕ) (program : List Text) (m : Machine Value)
      → All IsWord program
      → n + fuel ≡ length program
      → loop D fuel (at_line program n rounds m)
        ≡ finished (at_line program (n + fuel) (rounds + fuel) m)
  unfolding loop at_end go_on
  loop-words zero n rounds program m h left = rw (at_size n (length program) left) (
      ap {A = ℕ × ℕ} (λ p. finished (at_line program p.0 p.1 m))
        (ap (λ k. (k, rounds)) (omega arith) ∙ ap (λ k. (n + 0, k)) (omega arith)))
  loop-words (suc fuel) n rounds program m h left =
      rw (before_end n fuel (length program) left, step-word program n rounds m h (omega arith))
        (loop-words fuel (suc n) (rounds + 1) program m h (omega arith)
          ∙ ap {A = ℕ × ℕ} (λ p. finished (at_line program p.0 p.1 m))
              (ap (λ k. (k, rounds + 1 + fuel)) (omega arith)
                ∙ ap (λ k. (n + suc fuel, k)) (omega arith)))

  -- A file whose lines are words of fewer than 198 characters, with no space, colon or semicolon in
  -- them (`NOOP` has no operands, so it is such a word). Where one space stands behind every word,
  -- the parser keeps all the words, and the program that they are runs to its end, for whatever
  -- cycles the opcodes have: every word is counted as an instruction, and nothing else changes, no
  -- cycle is counted, and no opcode is looked at, be it unknown. Where no space stands behind them,
  -- the parser keeps none of them.
  pub execute_program-words :
      (words : List Text) (m : Machine Value)
      → All IsWord words
      → (parse_assembly_file words ≡ ok (record { mlabels = []; vprogram = []; line_number = 0 }))
        × ((a : Assembly) × (parse_assembly_file (map with_space words) ≡ ok a)
            × (a.vprogram ≡ words)
            × (execute_program D
                  (length words)
                  (record m { vprogram = a.vprogram; program_counter = pos 0 })
                ≡ finished (record m {
                  vprogram = words;
                  program_counter = pos (length words);
                  instruction_count = length words;
                  cycle_count = pos 0;
                })))
  unfolding parse_assembly_file execute_program
  execute_program-words words m h = (
    parse_lines-words words _ h,
    (
      record { mlabels = []; vprogram = words; line_number = 0 + length words },
      parse_lines-with_space words _ h,
      refl,
      loop-words (length words) 0 0 words (record m { cycle_count = pos 0 }) h (omega arith)
          ∙ ap (λ n. finished (at_line words n n (record m { cycle_count = pos 0 }))) (omega arith),
    ),
  )
