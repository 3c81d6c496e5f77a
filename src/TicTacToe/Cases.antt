-- ===== src/TicTacToe/Cases.antt =====
-- `play` on a file of boards that are written out in full.
use mscs.Common.{
  ℕ, ◌+◌, ◌*◌, ◌%◌, ◌<◌, ◌≤◌, ◌==◌, ◌≡◌, refl, sym, ap, ◌∙◌, true, false, Option, some, List, [],
  ◌∷◌, ◌++◌, arith, length,
}
use mscs.Common.Int.{ℤ, pos, fits_int}
use mscs.Common.Outcome.{Outcome, ok, ◌>>=◌}
use mscs.Common.Text.{Text, print_int, atoi-print_int}
use mscs.TicTacToe.{
  build_winning_sequence, Game, case_line, verdict, decide, read_row, start_case, exceeds,
  count_line, play_line, play_lines, new_game, writes, play, run_main,
}
use mathlib.Core.List.{append-nil, append_assoc}
use mscs.TicTacToe.Marks.{next_row, read_row-row, tally, tally-count_cells, cells, winner-has_line}
use mscs.TicTacToe.Board.{Row, Board, row_cells, marks_x, marks_o, empty_cells, board_verdict}

-- The game when a case begins, and behind its fourth row.
abbrev fresh : Game → Game
fresh g = record g {
  test_cases_count = g.test_cases_count + 1;
  row_number = 0;
  empty_count = 0;
  player_x = [];
  player_o = [];
}

abbrev counted : Game → Game
counted g = record g { line_count = g.line_count + 1 }

abbrev four_rows : Board → Game → Game
four_rows t g = next_row t.fourth (
    counted (
      next_row t.third
        (counted (next_row t.second (counted (next_row t.first (counted (fresh g))))))))

verdict-four_rows :
    (t : Board) (g : Game) → verdict build_winning_sequence (four_rows t g) ≡ board_verdict t
unfolding verdict board_verdict tally
verdict-four_rows t g =
    let empty : tally (cells t) 0 ≡ empty_cells t = omega (arith, tally-count_cells (cells t) 0) in
    rw (winner-has_line marks_x t, winner-has_line marks_o t, empty) refl

decide-four_rows :
    (t : Board) (g : Game)
    → decide build_winning_sequence (four_rows t g) ≡ record (four_rows t g) {
      outfile = g.outfile ++ case_line (g.test_cases_count + 1) (board_verdict t) ∷ [];
    }
unfolding decide
decide-four_rows t g =
    ap
      (λ v. record (four_rows t g) {
        outfile = g.outfile ++ case_line (g.test_cases_count + 1) v ∷ [];
      })
      (verdict-four_rows t g)

-- The game behind a board and the blank line after it.
abbrev board_game : Board → Game → Game
board_game t g = counted (record (four_rows t g) {
  outfile = g.outfile ++ case_line (g.test_cases_count + 1) (board_verdict t) ∷ [];
})

count_line-counted : (g : Game) → g.line_count < 2147483647 → count_line g ≡ ok (counted g)
unfolding count_line
count_line-counted g h = ground arith

play_line-row :
    (limit : ℤ) (rest : Game → Outcome Game) (r : Row) (g : Game)
    → g.line_count < 2147483647
    → exceeds g.test_cases_count limit ≡ false
    → play_line build_winning_sequence limit rest (row_cells r) g
      ≡ rest (decide build_winning_sequence (next_row r (counted g)))
unfolding play_line
play_line-row limit rest r g fits h =
    rw (count_line-counted g fits, h)
      (ap (λ m. m >>= rest) (read_row-row build_winning_sequence r (counted g)))

-- A line that is not the first of a case.
play_lines-row :
    (limit : ℤ) (lines : List Text) (r : Row) (g : Game)
    → g.line_count < 2147483647
    → exceeds g.test_cases_count limit ≡ false
    → (g.line_count % 5 == 0) ≡ false
    → play_lines build_winning_sequence limit (row_cells r ∷ lines) g
      ≡ play_lines build_winning_sequence limit lines
          (decide build_winning_sequence (next_row r (counted g)))
unfolding play_lines start_case
play_lines-row limit lines r g fits h k =
    rw k (play_line-row limit (play_lines build_winning_sequence limit lines) r g fits h)

play_lines-first :
    (limit : ℤ) (lines : List Text) (r : Row) (g : Game)
    → g.line_count < 2147483647
    → exceeds (g.test_cases_count + 1) limit ≡ false
    → (g.line_count % 5 == 0) ≡ true
    → play_lines build_winning_sequence limit (row_cells r ∷ lines) g
      ≡ play_lines build_winning_sequence limit lines
          (decide build_winning_sequence (next_row r (counted (fresh g))))
unfolding play_lines start_case
play_lines-first limit lines r g fits h k =
    rw k (play_line-row limit (play_lines build_winning_sequence limit lines) r (fresh g) fits h)

play_lines-blank :
    (limit : ℤ) (lines : List Text) (g : Game)
    → g.line_count < 2147483647
    → exceeds g.test_cases_count limit ≡ false
    → (g.line_count % 5 == 0) ≡ false
    → play_lines build_winning_sequence limit ([] ∷ lines) g
      ≡ play_lines build_winning_sequence limit lines (counted g)
unfolding play_lines start_case play_line read_row
play_lines-blank limit lines g fits h k = rw (k, count_line-counted g fits, h) refl

abbrev board_lines : Board → List Text → List Text
board_lines t lines =
    row_cells t.first ∷ row_cells t.second ∷ row_cells t.third ∷ row_cells t.fourth ∷ [] ∷ lines

play_lines-board :
    (limit : ℤ) (lines : List Text) (t : Board) (g : Game)
    → g.line_count + 5 < 2147483648
    → exceeds (g.test_cases_count + 1) limit ≡ false
    → g.line_count % 5 ≡ 0
    → play_lines build_winning_sequence limit (board_lines t lines) g
      ≡ play_lines build_winning_sequence limit lines (board_game t g)
unfolding decide
play_lines-board limit lines t g fits h k =
    let s1 = next_row t.first (counted (fresh g)) in
    let s2 = next_row t.second (counted s1) in
    let s3 = next_row t.third (counted s2) in
    play_lines-first limit
      (row_cells t.second ∷ row_cells t.third ∷ row_cells t.fourth ∷ [] ∷ lines) t.first g
      (omega arith) h (ground arith)
    ∙ play_lines-row limit (row_cells t.third ∷ row_cells t.fourth ∷ [] ∷ lines) t.second s1
        (omega arith) h (ground arith)
    ∙ play_lines-row limit (row_cells t.fourth ∷ [] ∷ lines) t.third s2 (omega arith) h
        (ground arith)
    ∙ play_lines-row limit ([] ∷ lines) t.fourth s3 (omega arith) h (ground arith)
    ∙ ap (play_lines build_winning_sequence limit ([] ∷ lines)) (decide-four_rows t g)
    ∙ play_lines-blank limit lines _ (omega arith) h (ground arith)

abbrev pub file_lines : List Board → List Text
file_lines [] = []
file_lines (t ∷ ts) = board_lines t (file_lines ts)

-- The lines of output.txt for boards that are numbered from `n` on.
abbrev pub reports : ℕ → List Board → List Text
reports n [] = []
reports n (t ∷ ts) = case_line n (board_verdict t) ∷ reports (n + 1) ts

play_lines-boards :
    (limit : ℕ) (ts : List Board) (g : Game)
    → g.test_cases_count + length ts ≤ limit
    → g.line_count + 5 * length ts < 2147483648
    → g.line_count % 5 ≡ 0
    → (g' : Game) × (play_lines build_winning_sequence (pos limit) (file_lines ts) g ≡ ok g')
      × (g'.outfile ≡ g.outfile ++ reports (g.test_cases_count + 1) ts)
unfolding play_lines exceeds
play_lines-boards limit [] g h fits k = (g, refl, sym (append-nil g.outfile))
play_lines-boards limit (t ∷ ts) g h fits k =
    let (g', run, out) =
      play_lines-boards limit ts (board_game t g) (omega arith) (omega arith) (omega arith) in
    (
      g',
      play_lines-board (pos limit) (file_lines ts) t g (omega arith) (ground arith) k ∙ run,
      out ∙ append_assoc g.outfile _ _,
    )

-- A file of boards whose lines, five for each board, are fewer than 2^31, written out with their
-- number in the first line and a blank line after each board, gets one line of output for each board in turn: its number, and the
-- verdict that its rows, columns and diagonals give.
pub run_main-boards :
    (files : Text → Option (List Text)) (input : Text) (rest : List Text) (ts : List Board)
    → 5 * length ts < 2147483648
    → files input ≡ some (print_int (pos (length ts)) ∷ file_lines ts)
    → run_main files (input ∷ rest) ≡ ok (writes (reports 1 ts))
unfolding run_main play
run_main-boards files input rest ts h k =
    let fits : fits_int (pos (length ts)) ≡ true = ground arith in
    let (g, run, out) =
      play_lines-boards (length ts) ts new_game (omega arith) (omega arith) refl in
    rw (k, atoi-print_int (pos (length ts)) fits, run, out) refl
