-- ===== src/TicTacToe.antt =====
-- `Google Code Jam 2013/Qualification Round/tictactoetomek/tictactoetomek.cpp`: the verdicts on
-- the boards of an input file. `lineCount` is an `int`; `testCasesCount` is never ahead of it,
-- and `rowNumber` and `emptyCount` start again with every fifth line.
pub mod Winning
pub mod Board
pub mod Marks
pub mod Cases
pub mod Lengths
mod Tests
use mscs.Common.{
  ℕ, zero, suc, ◌+◌, ◌*◌, ◌%◌, ◌==◌, Bool, true, false, ltb, if◌then◌else◌, Option, none, some,
  List, [], ◌∷◌, ◌++◌, map, ◌&&◌, get_elem?, length,
}
use mscs.Common.Int.{ℤ, pos, negsuc}
use mscs.Common.Outcome.{Outcome, ok, undefined, ◌>>=◌}
use mscs.Common.Text.{Text, codes, atoi, print_int}

-- `std::find(positions.begin(), positions.end(), p) != positions.end()`
unfoldable pub has : ℕ → List ℕ → Bool
has p [] = false
has p (q ∷ qs) = if q == p then true else has p qs

-- The test on one winning sequence: its places are looked up in turn.
unfoldable pub has_all : List ℕ → List ℕ → Bool
unfolding has
has_all [] positions = true
has_all (p ∷ ps) positions = has p positions && has_all ps positions

unfoldable pub winner : List (List ℕ) → List ℕ → Bool
unfolding has_all
winner [] positions = false
winner (seq ∷ seqs) positions = if has_all seq positions then true else winner seqs positions

-- `std::set<vector<int>>`: sequences in lexicographic order, each once.
unfoldable pub lex_lt : List ℕ → List ℕ → Bool
lex_lt xs [] = false
lex_lt [] (y ∷ ys) = true
lex_lt (x ∷ xs) (y ∷ ys) = if x == y then lex_lt xs ys else ltb x y

unfoldable pub set_insert : List ℕ → List (List ℕ) → List (List ℕ)
unfolding lex_lt
set_insert s [] = s ∷ []
set_insert s (t ∷ ts) =
    if lex_lt s t then s ∷ t ∷ ts else if lex_lt t s then t ∷ set_insert s ts else t ∷ ts

unfoldable pub insert_all : List (List ℕ) → List (List ℕ) → List (List ℕ)
unfolding set_insert
insert_all [] set = set
insert_all (s ∷ ss) set = insert_all ss (set_insert s set)

-- The values of a loop variable, from the first one on.
unfoldable pub count_from : ℕ → ℕ → List ℕ
count_from first zero = []
count_from first (suc n) = first ∷ count_from (first + 1) n

unfoldable pub row_sequence : ℕ → List ℕ
unfolding count_from
row_sequence row = map (λ col. 4 * row + col) (count_from 1 4)

unfoldable pub column_sequence : ℕ → List ℕ
unfolding count_from
column_sequence col = map (λ row. 4 * row + col) (count_from 0 4)

abbrev pub diagonal_sequences : List (List ℕ)
diagonal_sequences = (1 ∷ 6 ∷ 11 ∷ 16 ∷ []) ∷ (4 ∷ 7 ∷ 10 ∷ 13 ∷ []) ∷ []

unfoldable pub build_winning_sequence : List (List ℕ)
unfolding insert_all row_sequence column_sequence
build_winning_sequence =
    let rows = insert_all (map row_sequence (count_from 0 4)) [] in
    let columns = insert_all (map column_sequence (count_from 1 4)) rows in
    insert_all diagonal_sequences columns

-- The local variables of `play`, the two global lists, and the lines of output.txt.
pub record Game : Type 0 where
  pub test_cases_count : ℕ
  pub line_count : ℕ
  pub row_number : ℕ
  pub empty_count : ℕ
  pub player_x : List ℕ
  pub player_o : List ℕ
  pub outfile : List Text

-- `line[column]`: the place behind the last one holds 0.
unfoldable pub char_at : Text → ℕ → Outcome ℕ
char_at [] zero = ok 0
char_at [] (suc i) = undefined
char_at (c ∷ s) zero = ok c
char_at (c ∷ s) (suc i) = char_at s i

-- The `switch` on a character: `X`, `O`, `.` and `T`.
unfoldable pub scan_char : ℕ → ℕ → Game → Game
scan_char position c g =
    if c == 88
    then record g { player_x = g.player_x ++ position ∷ [] }
    else if c == 79
    then record g { player_o = g.player_o ++ position ∷ [] }
    else if c == 46
    then record g { empty_count = g.empty_count + 1 }
    else if c == 84
    then record g { player_x = g.player_x ++ position ∷ []; player_o = g.player_o ++ position ∷ [] }
    else g

-- The loop over the columns, of which `left` are left.
unfoldable pub scan_columns : (left column : ℕ) → Text → Game → Outcome Game
unfolding char_at scan_char
scan_columns zero column line g = ok g
scan_columns (suc left) column line g = do
  c ← char_at line column
  scan_columns left (column + 1) line (scan_char (4 * g.row_number + (column + 1)) c g)

abbrev pub case_line : ℕ → Text → Text
case_line n verdict = codes "Case #" ++ print_int (pos n) ++ codes ": " ++ verdict

unfoldable pub verdict : List (List ℕ) → Game → Text
unfolding winner
verdict sequences g =
    if winner sequences g.player_x
    then codes "X won"
    else if winner sequences g.player_o
    then codes "O won"
    else if g.empty_count == 0
    then codes "Draw"
    else codes "Game has not completed"

-- After the fourth row.
unfoldable pub decide : List (List ℕ) → Game → Game
unfolding verdict
decide sequences g =
    if g.row_number == 4
    then record g { outfile = g.outfile ++ case_line g.test_cases_count (verdict sequences g) ∷ [] }
    else g

-- A line of a board; a blank line is passed over.
unfoldable pub read_row : List (List ℕ) → Text → Game → Outcome Game
unfolding scan_columns decide
read_row sequences [] g = ok g
read_row sequences (c ∷ s) g = do
  scanned ← scan_columns 5 0 (c ∷ s) g
  ok (decide sequences (record scanned { row_number = scanned.row_number + 1 }))

unfoldable pub start_case : Game → Game
start_case g =
    if g.line_count % 5 == 0
    then record g {
      test_cases_count = g.test_cases_count + 1;
      row_number = 0;
      empty_count = 0;
      player_x = [];
      player_o = [];
    }
    else g

-- `count > limit`
unfoldable pub exceeds : ℕ → ℤ → Bool
exceeds count (pos limit) = ltb limit count
exceeds count (negsuc n) = true

-- `lineCount++`
unfoldable pub count_line : Game → Outcome Game
count_line g =
    if ltb g.line_count 2147483647
    then ok (record g { line_count = g.line_count + 1 })
    else undefined

-- A round of the loop over the lines, and the loop.
unfoldable pub play_line : List (List ℕ) → ℤ → (Game → Outcome Game) → Text → Game → Outcome Game
unfolding read_row exceeds count_line
play_line sequences limit rest line g = do
  counted ← count_line g
  if exceeds counted.test_cases_count limit
      then ok counted
      else (read_row sequences line counted >>= rest)

unfoldable pub play_lines : List (List ℕ) → ℤ → List Text → Game → Outcome Game
unfolding play_line start_case
play_lines sequences limit [] g = ok g
play_lines sequences limit (line ∷ lines) g =
    play_line sequences limit (play_lines sequences limit lines) line (start_case g)

abbrev pub new_game : Game
new_game = record {
  test_cases_count = 0;
  line_count = 0;
  row_number = 0;
  empty_count = 0;
  player_x = [];
  player_o = [];
  outfile = [];
}

-- `exit` with a status, or the lines of output.txt.
pub data Ending : Type 0 where
  exits : ℕ → Ending
  writes : List Text → Ending

-- The input file is `none` where it cannot be opened.
unfoldable pub play : List (List ℕ) → Option (List Text) → Outcome Ending
unfolding play_lines
play sequences none = ok (exits 1)
play sequences (some []) = ok (exits 1)
play sequences (some (line ∷ lines)) = do
  limit ← atoi line
  g ← play_lines sequences limit lines new_game
  ok (writes g.outfile)

-- `main`, over the arguments behind the program's name and what is in the files.
unfoldable pub run_main : (Text → Option (List Text)) → List Text → Outcome Ending
unfolding play build_winning_sequence
run_main files [] = ok (exits 1)
run_main files (input ∷ rest) = play build_winning_sequence (files input)
