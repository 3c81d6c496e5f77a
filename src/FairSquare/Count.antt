-- ===== src/FairSquare/Count.antt =====
-- The count of a test case.
use mscs.Common.{ℕ, zero, suc, ◌+◌, ◌-◌, ◌≤◌, ◌<◌, ◌≡◌, ap, List, ◌∷◌, arith, lt→ltb}
use mscs.Common.Outcome.{ok}
use mscs.FairSquare.{count_loop, count_case, largest}

count_loop-first :
    (left lower upper first : ℕ)
    → lower + left ≡ suc upper
    → first ≤ upper
    → count_loop left lower upper first ≡ suc first - lower
unfolding count_loop
count_loop-first zero lower upper first h k = omega arith
count_loop-first (suc left) lower upper first h k =
    ground (arith, count_loop-first left (suc lower) upper first)

-- Where neither the lower limit nor the smallest number of the set exceeds the upper limit, and
-- the upper limit is below the largest `unsigned long`, the count of a test case is the number of
-- values from the lower limit to that smallest number, whatever else the set has.
pub count_case-first :
    (first : ℕ) (rest : List ℕ) (lower upper : ℕ)
    → lower ≤ upper
    → first ≤ upper
    → upper < largest
    → count_case (first ∷ rest) lower upper ≡ ok (suc first - lower)
unfolding count_case
count_case-first first rest lower upper order h bound =
    rw (lt→ltb upper largest bound)
      (ap ok (count_loop-first (suc upper - lower) lower upper first (omega arith) h))
