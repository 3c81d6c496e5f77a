-- ===== src/Common/Text/Decimal.antt =====
-- `atoi` and the `%d` of `sprintf`.
use Prim.Native.Nat.{ℕ, zero, suc, ◌+◌, ◌-◌, ◌*◌, ◌/◌, ◌%◌, ◌^◌, ◌<◌}
use mscs.Common.Tests.{ltb, leb, ◌==◌, if◌then◌else◌, Bool-cases, ltb→lt}
use mscs.Common.Int.{ℤ, pos, negsuc, sub_ℕ, fits_int}
use mscs.Common.Outcome.{Outcome, ok, undefined}
use mscs.Common.Text.Search.{Text}
use mathlib.Core.Path.{◌≡◌, ◌∙◌, ap}
use mathlib.Core.Bool.{Bool, true, ◌&&◌, ◌||◌}
use mathlib.Core.List.{[], ◌∷◌, ◌++◌, append_assoc}
use mathlib.Core.Logic.{inl, inr}
use native.Mathlib.Omega.{arith}
use native.Mathlib.Nat.{pow-suc}

abbrev pub is_digit : ℕ → Bool
is_digit c = leb b'0' c && leb c b'9'

-- `isspace` in the C locale.
abbrev pub is_space : ℕ → Bool
is_space c = c == 32 || (leb 9 c && leb c 13)

-- The digits at the front, behind those that gave `acc`.
unfoldable pub parse_digits : ℕ → Text → ℕ
parse_digits acc [] = acc
parse_digits acc (c ∷ s) =
    let rest = parse_digits (acc * 10 + (c - 48)) s in if is_digit c then rest else acc

unfoldable pub parse_signed : Text → ℤ
parse_signed [] = pos 0
parse_signed (c ∷ s) =
    if c == b'-'
    then sub_ℕ 0 (parse_digits 0 s)
    else if c == b'+'
    then pos (parse_digits 0 s)
    else pos (parse_digits 0 (c ∷ s))

unfoldable pub skip_space : Text → Text
skip_space [] = []
skip_space (c ∷ s) = if is_space c then skip_space s else c ∷ s

unfoldable pub int_or_undefined : ℤ → Outcome ℤ
int_or_undefined v = if fits_int v then ok v else undefined

-- `atoi(s)`, whose result is undefined where it is not an `int`.
unfoldable pub atoi : Text → Outcome ℤ
atoi s = int_or_undefined (parse_signed (skip_space s))

-- The decimal digits of a number, most significant first; `f` bounds their count.
unfoldable pub decimal : ℕ → ℕ → Text
decimal zero n = []
decimal (suc f) n =
    let front = decimal f (n / 10) in
    if ltb n 10 then (n + 48) ∷ [] else front ++ (n % 10 + 48) ∷ []

-- An `int` has ten digits at most.
abbrev pub int_digits : ℕ
int_digits = 10

-- `sprintf(s, "%d", v)`
unfoldable pub print_int : ℤ → Text
print_int (pos n) = decimal int_digits n
print_int (negsuc n) = b'-' ∷ decimal int_digits (suc n)

-- One more digit in front.
pub parse_digits-digit :
    (acc d : ℕ) (rest : Text)
    → d < 10
    → parse_digits acc ((d + 48) ∷ rest) ≡ parse_digits (acc * 10 + d) rest
unfolding parse_digits
parse_digits-digit acc d rest h =
    let test : is_digit (d + 48) ≡ true = ground arith in
    let value : acc * 10 + (d + 48 - 48) ≡ acc * 10 + d = omega arith in
    rw test (ap (λ v. parse_digits v rest) value)

-- Reading what `decimal` writes, with any text behind it.
pub parse_digits-decimal :
    (f n : ℕ) (rest : Text)
    → n < 10 ^ f
    → parse_digits 0 (decimal f n ++ rest) ≡ parse_digits n rest
unfolding decimal
parse_digits-decimal zero n rest h = let none_left : n ≡ 0 = omega arith in rw none_left
parse_digits-decimal (suc f) n rest h = elim (Bool-cases (ltb n 10)) [
  | inl short ↦ rw short (
      parse_digits-digit 0 n rest (ltb→lt n 10 short) ∙ ap (λ v. parse_digits v rest) (omega arith))
  | inr long ↦
      rw (long, append_assoc)
        (parse_digits-decimal f (n / 10) ((n % 10 + 48) ∷ rest) (omega (arith, pow-suc 10 f))
          ∙ parse_digits-digit (n / 10) (n % 10) rest (omega arith)
          ∙ ap (λ v. parse_digits v rest) (omega arith))
]
