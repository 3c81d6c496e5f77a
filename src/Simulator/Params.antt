-- ===== src/Simulator/Params.antt =====
-- `parseArchParams`: the opcodes and their cycles, up to a line that begins with `-`.
pub mod Table
use mscs.Common.{
  ℕ, zero, suc, ◌+◌, ◌==◌, Bool, true, false, if◌then◌else◌, Option, none, some, List, [], ◌∷◌,
  take, drop,
}
use mscs.Common.Int.{ℤ, pos, pos_part, neg_part}
use mscs.Common.Outcome.{Outcome, ok, ◌>>=◌}
use mscs.Common.Text.{Text, codes, starts_with, find, find_last, atoi}
use mscs.Common.Dict.{Dict, insert}
use mscs.Simulator.Operand.{c_string}
use mscs.Simulator.Assembly.{line_room, is_long}

-- The opcode of a line and its number of cycles, by the places of the first space and of the last;
-- `none` where `find` gives -1.
unfoldable pub read_entry : Text → Option ℕ → Option ℕ → Outcome (Option (Text × ℤ))
unfolding c_string atoi
read_entry line none last = ok none
read_entry line (some i) none = ok none
read_entry line (some i) (some j) = do
  op ← c_string 10 (take i line)
  digits ← c_string 4 (drop (suc j) line)
  cycles ← atoi digits
  ok (some (op, cycles))

-- What is done with an entry: `rest` reads the rest of the file. 0 cycles end the loop with an
-- error, as a line without a space does.
unfoldable pub accept :
    (Dict ℤ → Outcome (Bool × Dict ℤ)) → Dict ℤ → Option (Text × ℤ) → Outcome (Bool × Dict ℤ)
unfolding insert
accept rest table none = ok (false, table)
accept rest table (some (op, cycles)) =
    if pos_part cycles + neg_part cycles == 0
    then ok (false, table)
    else rest (insert op cycles table)

-- The loop, over the lines of the file, and the value that the function returns. Behind a line that
-- is longer than `getline` has room for, an empty one is read, which has no space.
unfoldable pub parse_arch_params : List Text → Dict ℤ → Outcome (Bool × Dict ℤ)
unfolding read_entry accept find find_last starts_with
parse_arch_params [] table = ok (true, table)
parse_arch_params (line ∷ lines) table =
    let read = take line_room line in
    let rest : Dict ℤ → Outcome (Bool × Dict ℤ) =
      λ t. (let more = parse_arch_params lines t in if is_long line then ok (false, t) else more) in
    if starts_with (codes "-") read
    then ok (true, table)
    else (read_entry read (find 32 read) (find_last 32 read) >>= accept rest table)
