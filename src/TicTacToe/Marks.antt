-- ===== src/TicTacToe/Marks.antt =====
-- The characters of a board as `play` scans them, and what `winner` then finds.
use mscs.Common.{
  ℕ, suc, ◌+◌, ◌*◌, ◌<◌, ◌==◌, ◌≡◌, refl, ap, ◌∙◌, Bool, true, false, ◌||◌, List, [], ◌∷◌, ◌++◌,
  arith, if◌then◌else◌,
}
use mscs.Common.Outcome.{ok, ◌>>=◌}
use mscs.Common.Text.{Text}
use mscs.TicTacToe.{
  has, winner, count_from, row_sequence, column_sequence, build_winning_sequence, Game, scan_char,
  scan_columns, char_at, decide, read_row,
}
use mscs.TicTacToe.Winning.{all_of, any_of, or_false, winner-any_of, any_of-build}
use mscs.TicTacToe.Board.{Row, Board, row_cells, marks_x, marks_o, count_cells, has_line}

abbrev pub push : Bool → ℕ → List ℕ → List ℕ
push b p ps = if b then ps ++ p ∷ [] else ps

-- `scan_char` field by field.
abbrev pub marked : ℕ → ℕ → Game → Game
marked p c g = record g {
  empty_count = g.empty_count + (if c == 46 then 1 else 0);
  player_x = push (marks_x c) p g.player_x;
  player_o = push (marks_o c) p g.player_o;
}

scan_char-marked : (p c : ℕ) (g : Game) → scan_char p c g ≡ marked p c g
unfolding scan_char
scan_char-marked p c g = ground arith

abbrev pub next_row : Row → Game → Game
next_row r g =
    let g' = marked (4 * g.row_number + 4) r.d (
      marked (4 * g.row_number + 3) r.c
        (marked (4 * g.row_number + 2) r.b (marked (4 * g.row_number + 1) r.a g))) in
    record g' { row_number = g.row_number + 1 }

pub scan_columns-suc :
    (left column : ℕ) {c : ℕ} (line : Text) (g : Game)
    → char_at line column ≡ ok c
    → scan_columns (suc left) column line g
      ≡ scan_columns left (column + 1) line (marked (4 * g.row_number + (column + 1)) c g)
unfolding scan_columns
scan_columns-suc left column {c} line g h =
    rw (h, scan_char-marked (4 * g.row_number + (column + 1)) c g) refl

-- The fifth character of a row of four is the 0 behind it.
scan_columns-end : (r : Row) (g : Game) → scan_columns 1 4 (row_cells r) g ≡ ok g
unfolding scan_columns char_at scan_char
scan_columns-end r g = refl

scan_columns-row :
    (r : Row) (g : Game)
    → scan_columns 5 0 (row_cells r) g
      ≡ ok (
          marked (4 * g.row_number + 4) r.d (
            marked
              (4 * g.row_number + 3)
              r.c
              (marked (4 * g.row_number + 2) r.b (marked (4 * g.row_number + 1) r.a g))))
unfolding char_at
scan_columns-row r g =
    let line = row_cells r in
    let g1 = marked (4 * g.row_number + 1) r.a g in
    let g2 = marked (4 * g.row_number + 2) r.b g1 in
    let g3 = marked (4 * g.row_number + 3) r.c g2 in
    scan_columns-suc 4 0 line g refl
    ∙ scan_columns-suc 3 1 line g1 refl
    ∙ scan_columns-suc 2 2 line g2 refl
    ∙ scan_columns-suc 1 3 line g3 refl
    ∙ scan_columns-end r (marked (4 * g.row_number + 4) r.d g3)

pub read_row-row :
    (seqs : List (List ℕ)) (r : Row) (g : Game)
    → read_row seqs (row_cells r) g ≡ ok (decide seqs (next_row r g))
unfolding read_row
read_row-row seqs r g =
    ap (λ m. m >>= λ s. ok (decide seqs (record s { row_number = s.row_number + 1 })))
      (scan_columns-row r g)

-- The positions that a run of cells adds, and what is then found.
abbrev pub spread : (ℕ → Bool) → List ℕ → ℕ → List ℕ → List ℕ
spread f [] p ps = ps
spread f (c ∷ cs) p ps = spread f cs (p + 1) (push (f c) p ps)

abbrev holds_at : (ℕ → Bool) → List ℕ → ℕ → ℕ → Bool
holds_at f [] p k = false
holds_at f (c ∷ cs) p k = if p == k then f c else holds_at f cs (p + 1) k

holds_at-lt : (f : ℕ → Bool) (cs : List ℕ) (p k : ℕ) → k < p → holds_at f cs p k ≡ false
holds_at-lt f [] p k h = refl
holds_at-lt f (c ∷ cs) p k h = ground (arith, holds_at-lt f cs (p + 1) k (omega arith))

pub has-append :
    (k p : ℕ) (ps : List ℕ) → has k (ps ++ p ∷ []) ≡ (if p == k then true else has k ps)
unfolding has
has-append k p [] = refl
has-append k p (q ∷ ps) = ground (arith, has-append k p ps)

has-spread :
    (f : ℕ → Bool) (cs : List ℕ) (p k : ℕ) (ps : List ℕ)
    → has k (spread f cs p ps) ≡ holds_at f cs p k || has k ps
has-spread f [] p k ps = refl
has-spread f (c ∷ cs) p k ps = ground (
  arith,
  has-spread f cs (p + 1) k (push (f c) p ps),
  has-append k p ps,
  holds_at-lt f cs (p + 1) k,
)

abbrev pub cells : Board → List ℕ
cells t = row_cells t.first ++ row_cells t.second ++ row_cells t.third ++ row_cells t.fourth

pub winner-has_line :
    (f : ℕ → Bool) (t : Board)
    → winner build_winning_sequence (spread f (cells t) 1 []) ≡ has_line f t
unfolding has_line any_of all_of row_sequence column_sequence count_from has
winner-has_line f t =
    winner-any_of (holds_at f (cells t) 1) (spread f (cells t) 1 []) build_winning_sequence
      (λ k. has-spread f (cells t) 1 k [] ∙ or_false (holds_at f (cells t) 1 k))
    ∙ any_of-build (all_of (holds_at f (cells t) 1))

unfoldable pub tally : List ℕ → ℕ → ℕ
tally [] n = n
tally (c ∷ cs) n = tally cs (n + (if c == 46 then 1 else 0))

pub tally-count_cells : (cs : List ℕ) (n : ℕ) → tally cs n ≡ n + count_cells (λ c. c == 46) cs
unfolding tally count_cells
tally-count_cells [] n = omega arith
tally-count_cells (c ∷ cs) n = omega (arith, tally-count_cells cs (n + (if c == 46 then 1 else 0)))
