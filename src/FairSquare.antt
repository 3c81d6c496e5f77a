-- ===== src/FairSquare.antt =====
-- `Google Code Jam 2013/Qualification Round/fairandsquare/fairandsquare.cpp`: palindromes, the set
-- of fair and square numbers, and the loop over the test cases. `sqrt` on doubles is a parameter.
pub mod Palindrome
pub mod Count
mod Tests
use mscs.Common.{
  ℕ, zero, suc, ◌+◌, ◌-◌, ◌/◌, ◌==◌, Bool, true, false, leb, ltb, if◌then◌else◌, Option, none, some,
  List, [], ◌∷◌, ◌++◌, length, take, drop, get_elem?, ◌&&◌,
}
use mscs.Common.Int.{ℤ, pos, negsuc}
use mscs.Common.Outcome.{Outcome, ok, undefined, defined, ◌>>=◌, ◌>>◌}
use mscs.Common.Text.{Text, codes, find, atoi, print_int, decimal}

-- An `unsigned long` as text, which has twenty digits at most.
unfoldable pub print_unsigned : ℕ → Text
unfolding decimal
print_unsigned n = decimal 20 n

-- `str[i] == str[j]`; both places are inside the string where this is called.
unfoldable pub same : Option ℕ → Option ℕ → Bool
same none _ = false
same (some a) none = false
same (some a) (some b) = a == b

-- The loop of `ispalindrome` from `j` on, with `left` rounds left.
unfoldable pub mirrored : (left j : ℕ) → Text → Bool
unfolding same
mirrored zero j str = true
mirrored (suc left) j str =
    let rest = mirrored left (suc j) str in
    if same (get_elem? str j) (get_elem? str (length str - 1 - j)) then rest else false

unfoldable pub is_palindrome : ℕ → Bool
unfolding mirrored print_unsigned
is_palindrome num = let str = print_unsigned num in mirrored (length str / 2) 0 str

-- `floor(dnum) == dnum` for `dnum = sqrt(n)`: `root n` is the number that `dnum` is, if it is one.
unfoldable pub is_fair_square : Option ℕ → ℕ → Bool
unfolding is_palindrome
is_fair_square none n = false
is_fair_square (some r) n = is_palindrome n && is_palindrome r

-- The loop that builds the set, from `lower` on, with `left` rounds left; the set is in ascending
-- order, as its numbers come.
unfoldable pub build_set : (ℕ → Option ℕ) → (left lower : ℕ) → List ℕ
unfolding is_fair_square
build_set root zero lower = []
build_set root (suc left) lower =
    let rest = build_set root left (suc lower) in
    if is_fair_square (root lower) lower then lower ∷ rest else rest

-- The loop of a test case. `*iter` is `first` throughout.
unfoldable pub count_loop : (left lower upper first : ℕ) → ℕ
count_loop zero lower upper first = 0
count_loop (suc left) lower upper first =
    (if leb lower first && leb first upper then 1 else 0) + count_loop left (suc lower) upper first

-- `lowerlimit <= upperlimit` always holds for the largest number, and the loop has no effect
-- that would make it a defined one.
abbrev pub largest : ℕ
largest = 18446744073709551615

unfoldable pub count_case : List ℕ → (lower upper : ℕ) → Outcome ℕ
unfolding count_loop
count_case [] lower upper = if leb lower upper then undefined else ok 0
count_case (first ∷ rest) lower upper =
    defined (ltb upper largest) >> ok (count_loop (suc upper - lower) lower upper first)

-- An `int` as an `unsigned long`.
unfoldable pub unsigned_long : ℤ → ℕ
unsigned_long (pos n) = n
unsigned_long (negsuc n) = largest - n

-- `getline(ss, s, ' ')`
unfoldable pub up_to : Option ℕ → Text → Text
up_to none s = s
up_to (some i) s = take i s

-- Both limits; the second keeps its value where the line has no space.
unfoldable pub limits : Option ℕ → Text → Text → Text × Text
unfolding up_to find
limits none line upper = (line, upper)
limits (some i) line upper =
    let rest = drop (suc i) line in (take i line, up_to (find 32 rest) rest)

-- A test case of number `n`: the text of its upper limit, and its line of output.
unfoldable pub run_case : List ℕ → ℕ → Text → Text → Outcome (Text × Text)
unfolding limits count_case unsigned_long print_unsigned
run_case palindromes n line upper = do
  let (lower', upper') = limits (find 32 line) line upper
  a ← atoi lower'
  b ← atoi upper'
  count ← count_case palindromes (unsigned_long a) (unsigned_long b)
  ok (upper', codes "Case #" ++ print_int (pos n) ++ codes ": " ++ print_unsigned count)

-- `testCasesCount == nTestCases`
unfoldable pub is_last : ℕ → ℤ → Bool
is_last n (pos k) = n == k
is_last n (negsuc k) = false

unfoldable pub run_cases : List ℕ → ℤ → ℕ → List Text → Text → Outcome (List Text)
unfolding run_case is_last
run_cases palindromes limit n [] upper = ok []
run_cases palindromes limit n (line ∷ lines) upper = do
  (upper', out) ← run_case palindromes (suc n) line upper
  rest ← (if is_last (suc n) limit then ok [] else run_cases palindromes limit (suc n) lines upper')
  ok (out ∷ rest)

-- `main` behind the reading of the first line: the numbers of the set, which are written with
-- their count before, and the lines of the test cases.
unfoldable pub run_file : (ℕ → Option ℕ) → Text → List Text → Outcome (List ℕ × List Text)
unfolding build_set run_cases
run_file root header lines = do
  limit ← atoi header
  let palindromes = build_set root 100000000000000 1
  out ← run_cases palindromes limit 0 lines []
  ok (palindromes, out)
