-- ===== src/Simulator/Assembly.antt =====
-- `parseAssemblyFile`: comments and labels off, and the instructions into the program.
pub mod Lines
pub mod Words
use mscs.Common.{
  ℕ, zero, suc, ◌+◌, ◌==◌, Bool, ltb, length, if◌then◌else◌, Option, none, some, List, [], ◌∷◌,
  ◌++◌, take, drop,
}
use mscs.Common.Outcome.{Outcome, ok, fail, undefined, never_returns, ◌>>=◌}
use mscs.Common.Text.{Text, find}
use mscs.Common.Dict.{Dict, insert}
use mscs.Simulator.Execute.{ltrim}

-- A character in front of a text whose end has been trimmed.
unfoldable pub cons_trimmed : ℕ → Text → Text
cons_trimmed c [] = if c == 32 then [] else c ∷ []
cons_trimmed c (d ∷ t) = c ∷ d ∷ t

-- A text without the spaces at its end.
unfoldable pub drop_spaces : Text → Text
unfolding cons_trimmed
drop_spaces [] = []
drop_spaces (c ∷ s) = cons_trimmed c (drop_spaces s)

unfoldable pub unless_empty : Text → Outcome Text
unless_empty [] = undefined
unless_empty (c ∷ t) = ok (c ∷ t)

-- `rtrim`. Where nothing is left, `compare(i-1,..)` throws `out_of_range` at -1.
unfoldable pub rtrim : Text → Outcome Text
unfolding drop_spaces unless_empty
rtrim s = unless_empty (drop_spaces s)

-- `mlabels`, `vprogram` and `iLineNumber`.
pub record Assembly : Type 0 where
  pub mlabels : Dict ℕ
  pub vprogram : List Text
  pub line_number : ℕ

-- Step 1: `sLine` without the comment.
unfoldable pub cut_at : Text → Option ℕ → Text
cut_at line none = line
cut_at line (some i) = take i line

unfoldable pub strip_comment : Text → Text
unfolding cut_at find
strip_comment line = cut_at line (find b';' line)

-- Step 2: a label is marked with the number of the next instruction, and taken off.
unfoldable pub label_at : Text → Option ℕ → Assembly → Text × Assembly
unfolding insert
label_at line none a = (line, a)
label_at line (some i) a =
    (drop (i + 1) line, record a { mlabels = insert (take i line) a.line_number a.mlabels })

unfoldable pub take_label : Text → Assembly → Text × Assembly
unfolding label_at find
take_label line a = label_at line (find b':' line) a

-- Steps 3 and 4: a line with a space behind its first word is kept, trimmed; another is skipped.
unfoldable pub push_instruction : Text → Option ℕ → Assembly → Outcome Assembly
unfolding ltrim rtrim
push_instruction line none a = ok a
push_instruction line (some zero) a = ok a
push_instruction line (some (suc k)) a = do
  instruction ← rtrim (ltrim line)
  ok (record a { vprogram = a.vprogram ++ instruction ∷ []; line_number = a.line_number + 1 })

unfoldable pub parse_line : Text → Assembly → Outcome Assembly
unfolding strip_comment take_label push_instruction ltrim find
parse_line line a =
    let (rest, a') = take_label (strip_comment line) a in
    let trimmed = ltrim rest in push_instruction trimmed (find 32 trimmed) a'

-- What `getline(cCommand,MAXCHARS-1)` stores of a line, and whether the line is longer.
abbrev pub line_room : ℕ
line_room = 198

abbrev pub is_long : Text → Bool
is_long line = ltb line_room (length line)

-- The loop over the lines of the file, up to its end. A longer line than `getline` has room for
-- sets the failbit, and no read that follows gets to the end of the file: the loop goes on for ever
-- with empty lines.
unfoldable pub parse_lines : List Text → Assembly → Outcome Assembly
unfolding parse_line
parse_lines [] a = ok a
parse_lines (line ∷ lines) a = do
  a' ← parse_line (take line_room line) a
  let rest = parse_lines lines a'
  if is_long line then fail never_returns else rest

unfoldable pub parse_assembly_file : List Text → Outcome Assembly
unfolding parse_lines
parse_assembly_file lines =
    parse_lines lines (record { mlabels = []; vprogram = []; line_number = 0 })
