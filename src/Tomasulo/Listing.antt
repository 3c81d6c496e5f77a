-- ===== src/Tomasulo/Listing.antt =====
-- `parseAssemblyFile` and `Instruction::setInstruction`: the lines of the program become
-- instructions whose operands are still text.
use mscs.Common.{
  ℕ, zero, suc, ◌+◌, if◌then◌else◌, Option, none, some, List, [], ◌∷◌, ◌++◌, take, drop,
}
use mscs.Common.Outcome.{invalid_opcode, no_opcode, Outcome, fail, ok, ◌>>=◌}
use mscs.Common.Text.{Text, codes, find, starts_with, text_eq, contains_text}
use mscs.Simulator.Operand.{dot_d}
use mscs.Simulator.Execute.{ltrim}
use mscs.Simulator.Assembly.{Assembly, strip_comment, take_label, drop_spaces}
use mscs.Pipeline.Assembly.{chop}
use mscs.Tomasulo.Types.{Instruction, blank_instruction}
use mscs.Tomasulo.Parameters.{find_opcode}

-- The end of the opcode: `NOOP` may stand alone.
unfoldable pub opcode_end : Option ℕ → Text → Outcome ℕ
unfolding starts_with
opcode_end (some (suc k)) s = ok (suc k)
opcode_end (some zero) s = if starts_with (codes "NOOP") s then ok 4 else fail no_opcode
opcode_end none s = if starts_with (codes "NOOP") s then ok 4 else fail no_opcode

-- `ltrim(sLine); rtrim(sLine);`
abbrev trim : Text → Text
unfolding ltrim drop_spaces
trim line = drop_spaces (ltrim line)

-- `setInstruction`, of an instruction that holds nothing else.
unfoldable pub set_instruction : Text → Outcome Instruction
unfolding opcode_end find find_opcode text_eq contains_text ltrim drop_spaces
set_instruction s = do
  i ← opcode_end (find 32 s) s
  let op = take i s
  elim (find_opcode op) as (λ _. Outcome Instruction) [
    | none ↦ fail invalid_opcode
    | some o ↦ ok (record blank_instruction {
      s_instruction = s;
      s_line = if text_eq op (codes "NOOP") then [] else trim (drop i s);
      is_double = contains_text dot_d op;
      opcode = o;
    })
  ]

-- The labels and the line number, with the texts and the instructions read so far.
pub record Listing : Type 0 where
  pub texts : Assembly
  pub instructions : List Instruction

-- Steps 3 and 4: a line with nothing left is skipped.
unfoldable pub push_line : Text → Assembly → Listing → Outcome Listing
unfolding set_instruction
push_line [] a l = ok (record l { texts = a })
push_line (c ∷ t) a l = do
  i ← set_instruction (c ∷ t)
  ok (record {
    texts = record a { vprogram = a.vprogram ++ (c ∷ t) ∷ []; line_number = a.line_number + 1 };
    instructions = l.instructions ++ i ∷ [];
  })

unfoldable pub parse_line : Text → Listing → Outcome Listing
unfolding strip_comment take_label push_line ltrim drop_spaces
parse_line line l =
    let (rest, a) = take_label (strip_comment line) l.texts in push_line (trim rest) a l

-- The last character of every line but the last one is cut off.
unfoldable pub parse_lines : List Text → Listing → Outcome Listing
unfolding chop parse_line
parse_lines [] l = ok l
parse_lines (line ∷ []) l = parse_line line l
parse_lines (line ∷ next ∷ lines) l = do
  text ← chop line
  l' ← parse_line text l
  parse_lines (next ∷ lines) l'

unfoldable pub parse_assembly_file : List Text → Outcome Listing
unfolding parse_lines
parse_assembly_file lines =
    parse_lines lines (record {
      texts = record { mlabels = []; vprogram = []; line_number = 0 };
      instructions = [];
    })
