-- ===== src/Simulator/Execute.antt =====
-- `executeProgram`: fetch, split off the opcode, dispatch, and go on to the next line.
use mscs.Common.{
  ℕ, zero, suc, ◌+◌, Bool, false, ◌==◌, if◌then◌else◌, Option, none, some, List, [], ◌∷◌, length,
  get_elem?, take, drop,
}
use mscs.Common.Int.{ℤ, pos, negsuc}
use mscs.Common.Outcome.{Outcome, ok, fail, undefined, ◌>>=◌, Error, invalid_opcode}
use mscs.Common.Text.{Text, codes, text_eq, starts_with, find}
use mscs.Simulator.Double.{Double}
use mscs.Simulator.Operand.{c_string}
use mscs.Simulator.Machine.{Machine}
use mscs.Simulator.Arithmetic.{
  execute_noop, execute_add, execute_sub, execute_mul, execute_div, execute_move,
}
use mscs.Simulator.Transfer.{execute_l, execute_li, execute_s}
use mscs.Simulator.Branch.{execute_beq, execute_bneq, execute_bgtz, execute_bltz}

-- `ltrim`: the spaces at the front.
unfoldable pub ltrim : Text → Text
ltrim [] = []
ltrim (c ∷ s) = if c == 32 then ltrim s else c ∷ s

-- The instructions that the ladder of comparisons tells apart.
pub data Opcode : Type 0 where
  noop add sub mul div li l s beq bneq bgtz bltz move : Opcode

unfoldable pub decode : Text → Option Opcode
unfolding text_eq starts_with
decode op =
    if text_eq op (codes "NOOP")
    then some noop
    else if starts_with (codes "ADD") op
    then some add
    else if starts_with (codes "SUB") op
    then some sub
    else if starts_with (codes "MUL") op
    then some mul
    else if starts_with (codes "DIV") op
    then some div
    else if starts_with (codes "LI") op
    then some li
    else if starts_with (codes "L") op
    then some l
    else if starts_with (codes "S") op
    then some s
    else if starts_with (codes "BEQ") op
    then some beq
    else if starts_with (codes "BNEQ") op
    then some bneq
    else if starts_with (codes "BGTZ") op
    then some bgtz
    else if starts_with (codes "BLTZ") op
    then some bltz
    else if starts_with (codes "MOVE") op
    then some move
    else none

-- How `executeProgram` ends. `failed` keeps the machine, since `main` still dumps its memory;
-- `running` is a machine whose loop has not ended when the fuel has.
pub data Halt (V : Type 0) : Type 0 where
  finished : Machine V → Halt V
  failed : Error → Machine V → Halt V
  running : Machine V → Halt V
  crashed : Halt V

-- `++programCounter`
unfoldable pub increment : ℤ → ℤ
increment (pos n) = pos (suc n)
increment (negsuc zero) = pos 0
increment (negsuc (suc n)) = negsuc n

-- `vprogram[programCounter]`
unfoldable pub fetch_at : ℤ → List Text → Option Text
fetch_at (pos n) program = get_elem? program n
fetch_at (negsuc n) program = none

-- `programCounter != vprogram.size()`
unfoldable pub at_end : ℤ → List Text → Bool
at_end (pos n) program = n == length program
at_end (negsuc n) program = false

module _ (D : Double) where
  open D use {Value}

  unfoldable pub execute_opcode :
      Option Opcode → Text → Text → Machine Value → Outcome (Machine Value)
  execute_opcode none op line m = fail invalid_opcode
  execute_opcode (some noop) op line m = execute_noop D op line m
  execute_opcode (some add) op line m = execute_add D op line m
  execute_opcode (some sub) op line m = execute_sub D op line m
  execute_opcode (some mul) op line m = execute_mul D op line m
  execute_opcode (some div) op line m = execute_div D op line m
  execute_opcode (some li) op line m = execute_li D op line m
  execute_opcode (some l) op line m = execute_l D op line m
  execute_opcode (some s) op line m = execute_s D op line m
  execute_opcode (some beq) op line m = execute_beq D op line m
  execute_opcode (some bneq) op line m = execute_bneq D op line m
  execute_opcode (some bgtz) op line m = execute_bgtz D op line m
  execute_opcode (some bltz) op line m = execute_bltz D op line m
  execute_opcode (some move) op line m = execute_move D op line m

  -- A line by where its first space is: a line with no space, or with one in front, is passed over.
  unfoldable pub execute_split : Text → Option ℕ → Machine Value → Outcome (Machine Value)
  unfolding c_string ltrim decode execute_opcode
  execute_split line none m = ok m
  execute_split line (some zero) m = ok m
  execute_split line (some (suc k)) m = do
    op ← c_string 10 (take (suc k) line)
    execute_opcode (decode op) op (ltrim (drop (suc k) line)) m

  unfoldable pub execute_line : Text → Machine Value → Outcome (Machine Value)
  unfolding execute_split find
  execute_line line m = execute_split line (find 32 line) m

  -- The end of the round, and whether `bRetVal` lets the loop go on. A handler that fails has
  -- changed nothing.
  unfoldable pub advance : Machine Value → Machine Value
  unfolding increment
  advance m = record m { program_counter = increment m.program_counter }

  -- The round after its handler, which gave the outcome; `m` is the machine before the handler.
  unfoldable pub after_line : Machine Value → Outcome (Machine Value) → Halt Value
  unfolding advance
  after_line m (ok m') = running (advance m')
  after_line m (fail e) = failed e (advance m)
  after_line m undefined = crashed

  -- `lInstructionCount++`
  abbrev pub counted : Machine Value → Machine Value
  counted m = record m { instruction_count = m.instruction_count + 1 }

  unfoldable pub execute_fetched : Option Text → Machine Value → Halt Value
  unfolding after_line execute_line
  execute_fetched none m = crashed
  execute_fetched (some line) m = after_line (counted m) (execute_line line (counted m))

  -- One round of the loop, for a machine that is not at the end.
  unfoldable pub step : Machine Value → Halt Value
  unfolding execute_fetched fetch_at
  step m = execute_fetched (fetch_at m.program_counter m.vprogram) m

  unfoldable pub go_on : (Machine Value → Halt Value) → Halt Value → Halt Value
  go_on rest (running m) = rest m
  go_on rest (finished m) = finished m
  go_on rest (failed e m) = failed e m
  go_on rest crashed = crashed

  -- The `while` loop, `fuel` rounds of it at most.
  unfoldable pub loop : ℕ → Machine Value → Halt Value
  unfolding at_end step go_on
  loop zero m = if at_end m.program_counter m.vprogram then finished m else running m
  loop (suc fuel) m =
      if at_end m.program_counter m.vprogram then finished m else go_on (loop fuel) (step m)

  -- `executeProgram`, on `fuel` rounds.
  unfoldable pub execute_program : ℕ → Machine Value → Halt Value
  unfolding loop
  execute_program fuel m = loop fuel (record m { instruction_count = 0; cycle_count = pos 0 })
