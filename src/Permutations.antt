-- ===== src/Permutations.antt =====
-- `B565 - Data Mining/Tic Tac Toe Permutations/permute.cpp`: the outcomes of all orders in which
-- the nine squares can be filled. The `long` counters end at 9! and are taken as numbers.
pub mod Counts
mod Tests
use mscs.Common.{
  ℕ, zero, suc, ◌+◌, ◌%◌, ◌==◌, Bool, true, false, leb, if◌then◌else◌, Option, none, some, List, [],
  ◌∷◌, ◌++◌, length, ◌&&◌,
}
use mscs.Common.Outcome.{Outcome, ok, undefined, ◌>>=◌}
use mscs.Common.Text.{Text, codes, find}

-- The global counters, `mark`, and the lines that are printed: an order and its result.
pub record Totals : Type 0 where
  pub count : ℕ
  pub winx : ℕ
  pub win0 : ℕ
  pub draw : ℕ
  pub mark : List Bool
  pub printed : List (Text × ℕ)

abbrev pub winning_lines : List Text
winning_lines =
    codes "210"
    ∷ codes "345"
    ∷ codes "876"
    ∷ codes "630"
    ∷ codes "147"
    ∷ codes "258"
    ∷ codes "840"
    ∷ codes "642"
    ∷ []

-- `player.find(c) <= 8`: where nothing is found the place is `npos`.
unfoldable pub place_le_8 : Option ℕ → Bool
place_le_8 none = false
place_le_8 (some i) = leb i 8

unfoldable pub owns_line : Text → Text → Bool
unfolding place_le_8 find
owns_line player [] = true
owns_line player (c ∷ seq) = place_le_8 (find c player) && owns_line player seq

unfoldable pub owns_some : Text → List Text → Bool
unfolding owns_line
owns_some player [] = false
owns_some player (seq ∷ seqs) = if owns_line player seq then true else owns_some player seqs

-- The test after a move.
unfoldable pub wins : Text → Bool
unfolding owns_some
wins player = if leb 3 (length player) then owns_some player winning_lines else false

-- The loop over the moves from `i` on, of which `left` are left; `at` throws behind the end.
unfoldable pub moves :
    (left i : ℕ) → Text → (player_x player_0 : Text) → Totals → Outcome (ℕ × Totals)
unfolding wins
moves zero i rest player_x player_0 t = ok (3, record t { draw = t.draw + 1 })
moves (suc left) i [] player_x player_0 t = undefined
moves (suc left) i (c ∷ rest) player_x player_0 t =
    let after_x = moves left (i + 1) rest (player_x ++ c ∷ []) player_0 t in
    let after_0 = moves left (i + 1) rest player_x (player_0 ++ c ∷ []) t in
    if i % 2 == 0
    then if wins (player_x ++ c ∷ []) then ok (1, record t { winx = t.winx + 1 }) else after_x
    else if wins (player_0 ++ c ∷ [])
    then ok (2, record t { win0 = t.win0 + 1 })
    else after_0

unfoldable pub winner : Text → Totals → Outcome (ℕ × Totals)
unfolding moves
winner permuted t = moves 9 0 permuted [] [] t

-- `mark[i]`, and `mark.set(i)` or `mark.reset(i)`, which throws behind the end.
unfoldable pub marked_at : ℕ → List Bool → Outcome Bool
marked_at i [] = undefined
marked_at zero (b ∷ bs) = ok b
marked_at (suc i) (b ∷ bs) = marked_at i bs

unfoldable pub set_mark : ℕ → Bool → List Bool → Outcome (List Bool)
set_mark i v [] = undefined
set_mark zero v (b ∷ bs) = ok (v ∷ bs)
set_mark (suc i) v (b ∷ bs) = do rest ← set_mark i v bs; ok (b ∷ rest)

-- A full order.
unfoldable pub print_order : Text → Totals → Outcome Totals
unfolding winner
print_order permuted t = do
  (result, t') ← winner permuted t
  ok (record t' { count = t'.count + 1; printed = t'.printed ++ (permuted, result) ∷ [] })

-- The body of the loop, where `deeper` is the recursive call.
unfoldable pub choose :
    (Text → Totals → Outcome Totals) → ℕ → ℕ → Text → Bool → Totals → Outcome Totals
unfolding set_mark
choose deeper i c permuted true t = ok t
choose deeper i c permuted false t = do
  set ← set_mark i true t.mark
  t' ← deeper (permuted ++ c ∷ []) (record t { mark = set })
  reset ← set_mark i false t'.mark
  ok (record t' { mark = reset })

-- The loop over the characters of `original` from place `i` on.
unfoldable pub choices :
    (Text → Totals → Outcome Totals) → ℕ → Text → Text → Totals → Outcome Totals
unfolding choose marked_at
choices deeper i [] permuted t = ok t
choices deeper i (c ∷ rest) permuted t = do
  used ← marked_at i t.mark
  t' ← choose deeper i c permuted used t
  choices deeper (suc i) rest permuted t'

-- `left` is `length - level`.
unfoldable pub permute : (left : ℕ) → Text → Text → Totals → Outcome Totals
unfolding print_order choices
permute zero original permuted t = print_order permuted t
permute (suc left) original permuted t = choices (permute left original) 0 original permuted t

abbrev pub no_totals : Totals
no_totals = record {
  count = 0;
  winx = 0;
  win0 = 0;
  draw = 0;
  mark = false ∷ false ∷ false ∷ false ∷ false ∷ false ∷ false ∷ false ∷ false ∷ [];
  printed = [];
}

-- `main`, without the time that it prints.
unfoldable pub count_orders : Outcome Totals
unfolding permute
count_orders = permute 9 (codes "012345678") [] no_totals
