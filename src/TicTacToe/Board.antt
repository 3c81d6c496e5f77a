-- ===== src/TicTacToe/Board.antt =====
-- What a board is and which verdict it has, apart from how `tictactoetomek.cpp` finds it.
use mscs.Common.{ℕ, ◌+◌, ◌==◌, Bool, ◌||◌, List, [], ◌∷◌, ◌++◌, if◌then◌else◌}
use mscs.Common.Text.{Text, codes}
use mscs.TicTacToe.Winning.{all_of, any_of}

-- Four characters from left to right, and four rows from the top.
pub record Row : Type 0 where
  pub a : ℕ
  pub b : ℕ
  pub c : ℕ
  pub d : ℕ

pub record Board : Type 0 where
  pub first : Row
  pub second : Row
  pub third : Row
  pub fourth : Row

abbrev pub row_cells : Row → List ℕ
row_cells r = r.a ∷ r.b ∷ r.c ∷ r.d ∷ []

abbrev pub rows : Board → List (List ℕ)
rows t = row_cells t.first ∷ row_cells t.second ∷ row_cells t.third ∷ row_cells t.fourth ∷ []

abbrev pub columns : Board → List (List ℕ)
columns t =
    (t.first.a ∷ t.second.a ∷ t.third.a ∷ t.fourth.a ∷ [])
    ∷ (t.first.b ∷ t.second.b ∷ t.third.b ∷ t.fourth.b ∷ [])
    ∷ (t.first.c ∷ t.second.c ∷ t.third.c ∷ t.fourth.c ∷ [])
    ∷ (t.first.d ∷ t.second.d ∷ t.third.d ∷ t.fourth.d ∷ [])
    ∷ []

abbrev pub diagonals : Board → List (List ℕ)
diagonals t =
    (t.first.a ∷ t.second.b ∷ t.third.c ∷ t.fourth.d ∷ [])
    ∷ (t.first.d ∷ t.second.c ∷ t.third.b ∷ t.fourth.a ∷ [])
    ∷ []

-- The characters of a player; `T` counts for both.
abbrev pub marks_x : ℕ → Bool
marks_x c = c == 88 || c == 84

abbrev pub marks_o : ℕ → Bool
marks_o c = c == 79 || c == 84

unfoldable pub count_cells : (ℕ → Bool) → List ℕ → ℕ
count_cells f [] = 0
count_cells f (c ∷ cs) = (if f c then 1 else 0) + count_cells f cs

abbrev pub empty_cells : Board → ℕ
empty_cells t =
    count_cells (λ c. c == 46)
      (row_cells t.first ++ row_cells t.second ++ row_cells t.third ++ row_cells t.fourth)

-- A line of the board is all the player's.
unfoldable pub has_line : (ℕ → Bool) → Board → Bool
unfolding any_of all_of
has_line marks t =
    any_of (all_of marks) (diagonals t)
    || (any_of (all_of marks) (columns t) || any_of (all_of marks) (rows t))

unfoldable pub board_verdict : Board → Text
unfolding has_line count_cells
board_verdict t =
    if has_line marks_x t
    then codes "X won"
    else if has_line marks_o t
    then codes "O won"
    else if empty_cells t == 0
    then codes "Draw"
    else codes "Game has not completed"
