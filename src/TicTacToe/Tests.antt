-- ===== src/TicTacToe/Tests.antt =====
-- The sample boards of the contest, and the theorems at them.
use mscs.Common.{◌≡◌, refl, Option, none, some, List, [], ◌∷◌, length, if◌then◌else◌, arith}
use mscs.Common.Int.{pos}
use mscs.Common.Outcome.{ok}
use mscs.Common.Text.{decimal, Text, codes, print_int, text_eq}
use mscs.TicTacToe.{writes, run_main}
use mscs.TicTacToe.Board.{board_verdict, Row, Board}
use mscs.TicTacToe.Cases.{file_lines, run_main-boards}

abbrev row_of : Text → Row
row_of (p ∷ q ∷ r ∷ s ∷ _) = record { a = p; b = q; c = r; d = s }
row_of _ = record { a = 0; b = 0; c = 0; d = 0 }

abbrev samples : List Board
samples =
    record {
      first = row_of (codes "XXXT");
      second = row_of (codes "....");
      third = row_of (codes "OO..");
      fourth = row_of (codes "....");
    }
    ∷ record {
      first = row_of (codes "XOXT");
      second = row_of (codes "XXOO");
      third = row_of (codes "OXOX");
      fourth = row_of (codes "XXOO");
    }
    ∷ record {
      first = row_of (codes "XXXO");
      second = row_of (codes "..O.");
      third = row_of (codes ".O..");
      fourth = row_of (codes "T...");
    }
    ∷ []

abbrev files : Text → Option (List Text)
files name =
    if text_eq name (codes "input.txt")
    then some (print_int (pos (length samples)) ∷ file_lines samples)
    else none

run_main-boards_example :
    run_main files (codes "input.txt" ∷ [])
    ≡ ok (writes (codes "Case #1: X won" ∷ codes "Case #2: Draw" ∷ codes "Case #3: O won" ∷ []))
unfolding text_eq print_int decimal board_verdict
run_main-boards_example = run_main-boards files (codes "input.txt") [] samples (omega arith) refl
