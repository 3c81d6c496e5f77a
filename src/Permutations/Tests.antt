-- ===== src/Permutations/Tests.antt =====
-- Single orders, and the theorem at a board with one free square and at an empty one.
use mscs.Common.{◌≡◌, refl, true, false, [], ◌∷◌}
use mscs.Common.Outcome.{ok}
use mscs.Common.Text.{codes}
use mscs.Permutations.{Totals, permute, no_totals, count_orders}
use mscs.Permutations.Counts.{free_from, IsAfter, factorial, permute-IsAfter}

-- Only the square 0 is left.
abbrev last_square : Totals
last_square = record no_totals {
  mark = false ∷ true ∷ true ∷ true ∷ true ∷ true ∷ true ∷ true ∷ true ∷ [];
}

permute-IsAfter_example :
    (t' : Totals) × (permute 1 (codes "012345678") (codes "12345678") last_square ≡ ok t')
    × IsAfter 1 last_square t'
unfolding factorial free_from
permute-IsAfter_example =
    permute-IsAfter 1 (codes "012345678") (codes "12345678") last_square refl refl refl refl

-- All orders: 9! lines.
all_orders : (t : Totals) × (count_orders ≡ ok t) × (t.count ≡ 362880)
unfolding factorial free_from count_orders
all_orders =
    let (t, run, after) = permute-IsAfter 9 (codes "012345678") [] no_totals refl refl refl refl in
    (t, run, after.counted)
