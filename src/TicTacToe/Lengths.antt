-- ===== src/TicTacToe/Lengths.antt =====
-- Lines of a board that do not have four characters.
use mscs.Common.{ℕ, ◌+◌, ◌*◌, ◌<◌, ◌≡◌, refl, ap, ◌∙◌, true, List, [], ◌∷◌, ◌++◌, arith, length}
use mscs.Common.Outcome.{ok, undefined, ◌>>=◌}
use mscs.Common.Text.{Text}
use mscs.TicTacToe.{has, Game, char_at, scan_columns, read_row, decide}
use mscs.TicTacToe.Board.{Row, row_cells, marks_x}
use mscs.TicTacToe.Marks.{push, marked, scan_columns-suc, has-append}

-- A line of one, two or three characters is read past the place behind its end.
pub read_row-short :
    (seqs : List (List ℕ)) (line : Text) (g : Game)
    → 0 < length line
    → length line < 4
    → read_row seqs line g ≡ undefined
unfolding read_row scan_columns char_at
read_row-short seqs [] g h k = elim h [ ]
read_row-short seqs (a ∷ []) g h k = refl
read_row-short seqs (a ∷ b ∷ []) g h k = refl
read_row-short seqs (a ∷ b ∷ c ∷ []) g h k = refl
read_row-short seqs (a ∷ b ∷ c ∷ d ∷ s) g h k = ground arith

decide-player_x : (seqs : List (List ℕ)) (g : Game) → (decide seqs g).player_x ≡ g.player_x
unfolding decide
decide-player_x seqs g = ground arith

has-push :
    (c k p : ℕ) (ps : List ℕ) → marks_x c ≡ true → k ≡ p → has k (push (marks_x c) p ps) ≡ true
has-push c k p ps h e = rw h (ground (arith, has-append k p ps))

-- A fifth character of a line that counts for X is recorded for X, as the first cell of the next
-- row.
pub read_row-fifth :
    (seqs : List (List ℕ)) (r : Row) (c : ℕ) (rest : Text) (g : Game)
    → marks_x c ≡ true
    → (g' : Game) × (read_row seqs (row_cells r ++ c ∷ rest) g ≡ ok g')
      × (has (4 * (g.row_number + 1) + 1) g'.player_x ≡ true)
unfolding read_row char_at scan_columns
read_row-fifth seqs r c rest g h =
    let line = row_cells r ++ c ∷ rest in
    let g1 = marked (4 * g.row_number + 1) r.a g in
    let g2 = marked (4 * g.row_number + 2) r.b g1 in
    let g3 = marked (4 * g.row_number + 3) r.c g2 in
    let g4 = marked (4 * g.row_number + 4) r.d g3 in
    let g5 = marked (4 * g.row_number + 5) c g4 in
    let run : scan_columns 5 0 line g ≡ ok g5 =
      scan_columns-suc 4 0 line g refl
      ∙ scan_columns-suc 3 1 line g1 refl
      ∙ scan_columns-suc 2 2 line g2 refl
      ∙ scan_columns-suc 1 3 line g3 refl
      ∙ scan_columns-suc 0 4 line g4 refl in
    let done = record g5 { row_number = g5.row_number + 1 } in
    (
      decide seqs done,
      ap (λ m. m >>= λ s. ok (decide seqs (record s { row_number = s.row_number + 1 }))) run,
      ap (has (4 * (g.row_number + 1) + 1)) (decide-player_x seqs done)
          ∙ has-push c (4 * (g.row_number + 1) + 1) (4 * g.row_number + 5) g4.player_x h
              (omega arith),
    )
