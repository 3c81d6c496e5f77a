-- ===== src/FairSquare/Tests.antt =====
-- The palindromes of the contest's example, and the theorems at concrete numbers. The set begins
-- with 1, 4 and 9.
use mscs.Common.{◌≡◌, refl, ◌↔◌, true, false, [], ◌∷◌, arith}
use mscs.Common.Outcome.{ok}
use mscs.Common.Text.{decimal}
use mscs.FairSquare.{print_unsigned, is_palindrome, count_case}
use mscs.FairSquare.Palindrome.{IsMirror, is_palindrome_iff}
use mscs.FairSquare.Count.{count_case-first}

palindrome_test : is_palindrome 484 ≡ true
unfolding is_palindrome decimal
palindrome_test = refl

no_palindrome_test : is_palindrome 100 ≡ false
unfolding is_palindrome decimal
no_palindrome_test = refl

is_palindrome_iff_example : (is_palindrome 484 ≡ true) ↔ IsMirror (print_unsigned 484)
is_palindrome_iff_example = is_palindrome_iff 484

-- Two numbers of the set, 1 and 4, are between 1 and 4.
count_case-first_example : count_case (1 ∷ 4 ∷ 9 ∷ []) 1 4 ≡ ok 1
count_case-first_example =
    count_case-first 1 (4 ∷ 9 ∷ []) 1 4 (omega arith) (omega arith) (omega arith)
