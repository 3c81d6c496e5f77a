-- ===== src/TicTacToe/Winning.antt =====
-- `winner` and `buildWinningSequence`: what the set of sequences comes to.
use mscs.Common.{ℕ, ◌≡◌, refl, ap, ◌∙◌, Bool, true, false, ◌&&◌, ◌||◌, List, [], ◌∷◌, map, arith}
use mscs.TicTacToe.{
  has, has_all, winner, lex_lt, set_insert, insert_all, count_from, row_sequence, column_sequence,
  diagonal_sequences, build_winning_sequence,
}

-- The quantifiers over a list, as Boolean tests.
unfoldable pub all_of : (ℕ → Bool) → List ℕ → Bool
all_of f [] = true
all_of f (x ∷ xs) = f x && all_of f xs

unfoldable pub any_of : (List ℕ → Bool) → List (List ℕ) → Bool
any_of f [] = false
any_of f (x ∷ xs) = f x || any_of f xs

pub or_swap : (a b c : Bool) → a || (b || c) ≡ (b || a) || c
or_swap true true c = refl
or_swap true false c = refl
or_swap false true c = refl
or_swap false false c = refl

lex_lt-eq : (s t : List ℕ) → lex_lt s t ≡ false → lex_lt t s ≡ false → s ≡ t
unfolding lex_lt
lex_lt-eq [] [] h k = refl
lex_lt-eq [] (y ∷ ys) h k = cc
lex_lt-eq (x ∷ xs) [] h k = cc
lex_lt-eq (x ∷ xs) (y ∷ ys) h k = ground (arith, lex_lt-eq xs ys)

any_of-set_insert :
    (f : List ℕ → Bool) (s : List ℕ) (ts : List (List ℕ))
    → any_of f (set_insert s ts) ≡ f s || any_of f ts
unfolding any_of set_insert
any_of-set_insert f s [] = refl
any_of-set_insert f s (t ∷ ts) =
    ground (arith, lex_lt-eq s t, any_of-set_insert f s ts, or_swap (f s) (f t) (any_of f ts))

pub any_of-insert_all :
    (f : List ℕ → Bool) (ss ts : List (List ℕ))
    → any_of f (insert_all ss ts) ≡ any_of f ss || any_of f ts
unfolding any_of insert_all
any_of-insert_all f [] ts = refl
any_of-insert_all f (s ∷ ss) ts =
    rw (any_of-insert_all f ss (set_insert s ts), any_of-set_insert f s ts)
      (or_swap (any_of f ss) (f s) (any_of f ts))

has_all-all_of :
    (f : ℕ → Bool) (positions seq : List ℕ)
    → ((p : ℕ) → has p positions ≡ f p)
    → has_all seq positions ≡ all_of f seq
unfolding has_all all_of
has_all-all_of f positions [] h = refl
has_all-all_of f positions (p ∷ ps) h = rw (h p, has_all-all_of f positions ps h) refl

-- A set of sequences is searched for one whose places all have the property `f`, where `f` is
-- what the list of positions answers.
pub winner-any_of :
    (f : ℕ → Bool) (positions : List ℕ) (seqs : List (List ℕ))
    → ((p : ℕ) → has p positions ≡ f p)
    → winner seqs positions ≡ any_of (all_of f) seqs
unfolding winner any_of
winner-any_of f positions [] h = refl
winner-any_of f positions (s ∷ seqs) h =
    ground (arith, has_all-all_of f positions s h, winner-any_of f positions seqs h)

pub or_false : (b : Bool) → b || false ≡ b
or_false true = refl
or_false false = refl

-- The set that `build_winning_sequence` makes has the rows, the columns and the diagonals.
pub any_of-build :
    (f : List ℕ → Bool)
    → any_of f build_winning_sequence
      ≡ any_of f diagonal_sequences
        || (any_of f (map column_sequence (count_from 1 4))
            || any_of f (map row_sequence (count_from 0 4)))
unfolding build_winning_sequence any_of
any_of-build f =
    let rows = map row_sequence (count_from 0 4) in
    let columns = map column_sequence (count_from 1 4) in
    any_of-insert_all f diagonal_sequences (insert_all columns (insert_all rows []))
    ∙ ap (λ b. any_of f diagonal_sequences || b)
        (any_of-insert_all f columns (insert_all rows [])
          ∙ ap (λ b. any_of f columns || b)
              (any_of-insert_all f rows [] ∙ or_false (any_of f rows)))
