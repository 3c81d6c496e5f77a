-- ===== src/Common/Text/RoundTrip.antt =====
-- `atoi` reads what `%d` prints.
use mathlib.Core.List.{append-nil}
use native.Mathlib.Nat.{pow-suc}
use mscs.Common.Tests.{ltb, ltb, ◌==◌, Bool-cases, ltb→lt}
use mscs.Common.Lists.{All, All-append}
use mscs.Common.Int.{ℤ, pos, negsuc, sub_ℕ, fits_int}
use mscs.Common.Outcome.{ok}
use mscs.Common.Text.Search.{Text}
use mscs.Common.Text.Decimal.{
  int_or_undefined, is_space, parse_digits, parse_signed, skip_space, atoi, decimal, int_digits,
  print_int, parse_digits-decimal,
}
use Prim.Native.Nat.{ℕ, zero, suc, ◌+◌, ◌/◌, ◌%◌, ◌^◌, ◌≤◌, ◌<◌}
use mathlib.Core.Path.{◌≡◌, refl, ◌∙◌, ap}
use mathlib.Core.Bool.{true, false}
use mathlib.Core.Logic.{◌≢◌, inl, inr}
use mathlib.Core.List.{[], ◌∷◌, ◌++◌}
use native.Mathlib.Omega.{arith}

-- The codes of the digits.
abbrev pub IsDigit : ℕ → Type 0
IsDigit c = (48 ≤ c) × (c ≤ 57)

-- A text of digits that is not empty.
abbrev pub IsNumeral : Text → Type 0
IsNumeral [] = ⊥
IsNumeral (c ∷ s) = IsDigit c × All IsDigit s

append-IsNumeral : (s : Text) (d : ℕ) → IsNumeral s → IsDigit d → IsNumeral (s ++ d ∷ [])
append-IsNumeral [] d h k = elim h [ ]
append-IsNumeral (c ∷ s) d h k = (h.0, All-append IsDigit s (d ∷ []) h.1 (k, tt))

pub decimal-IsNumeral : (f n : ℕ) → n < 10 ^ suc f → IsNumeral (decimal (suc f) n)
unfolding decimal
decimal-IsNumeral zero n h = elim (Bool-cases (ltb n 10)) [
  | inl short ↦ rw short (omega (arith, ltb→lt n 10 short))
  | inr long ↦ absurd (ground arith)
]
decimal-IsNumeral (suc f) n h = elim (Bool-cases (ltb n 10)) [
  | inl short ↦ rw short (omega (arith, ltb→lt n 10 short))
  | inr long ↦ rw long (
      append-IsNumeral (decimal (suc f) (n / 10)) (n % 10 + 48)
        (decimal-IsNumeral f (n / 10) (omega (arith, pow-suc 10 (suc f)))) (omega arith))
]

-- Text that begins with a digit has no space and no sign in front.
signless :
    (c : ℕ) (s : Text)
    → IsDigit c
    → parse_signed (skip_space (c ∷ s)) ≡ pos (parse_digits 0 (c ∷ s))
unfolding parse_signed skip_space
signless c s h =
    let space : is_space c ≡ false = ground arith in
    let minus : (c == b'-') ≡ false = ground arith in
    let plus : (c == b'+') ≡ false = ground arith in rw (space, minus, plus) refl

parse_signed-IsNumeral :
    (s : Text) → IsNumeral s → parse_signed (skip_space s) ≡ pos (parse_digits 0 s)
parse_signed-IsNumeral [] h = elim h [ ]
parse_signed-IsNumeral (c ∷ s) h = signless c s h.0

parse_signed-minus : (s : Text) → parse_signed (skip_space (b'-' ∷ s)) ≡ sub_ℕ 0 (parse_digits 0 s)
unfolding parse_signed skip_space
parse_signed-minus s = refl

parse_digits-all : (n : ℕ) → n < 10 ^ int_digits → parse_digits 0 (decimal int_digits n) ≡ n
unfolding parse_digits
parse_digits-all n h = rw append-nil at (parse_digits-decimal int_digits n [] h)

int_or_undefined-ok : (v : ℤ) → fits_int v ≡ true → int_or_undefined v ≡ ok v
unfolding int_or_undefined
int_or_undefined-ok v h = rw h

minus : (n : ℕ) → sub_ℕ 0 (suc n) ≡ negsuc n
minus n = ground arith

-- `atoi` gives back every `int` that `%d` has printed.
pub atoi-print_int : (v : ℤ) → fits_int v ≡ true → atoi (print_int v) ≡ ok v
unfolding atoi print_int
atoi-print_int (pos n) h =
    let small : n < 10 ^ int_digits = ground arith in
    rw
      (
        parse_signed-IsNumeral (decimal int_digits n) (decimal-IsNumeral 9 n small),
        parse_digits-all n small,
      )
      (int_or_undefined-ok (pos n) h)
atoi-print_int (negsuc n) h =
    let small : suc n < 10 ^ int_digits = ground arith in
    rw (parse_signed-minus (decimal int_digits (suc n)), parse_digits-all (suc n) small)
      (ap int_or_undefined (minus n) ∙ int_or_undefined-ok (negsuc n) h)

digits-nonzero : (s : Text) → All IsDigit s → All (λ c. c ≢ 0) s
digits-nonzero [] h = tt
digits-nonzero (c ∷ s) h = (omega arith, digits-nonzero s h.1)

IsNumeral-nonzero : (s : Text) → IsNumeral s → All (λ c. c ≢ 0) s
IsNumeral-nonzero [] h = elim h [ ]
IsNumeral-nonzero (c ∷ s) h = (omega arith, digits-nonzero s h.1)

-- No character that `%d` prints is NUL.
pub print_int-nonzero : (v : ℤ) → fits_int v ≡ true → All (λ c. c ≢ 0) (print_int v)
unfolding print_int
print_int-nonzero (pos n) h =
    IsNumeral-nonzero (decimal int_digits n) (decimal-IsNumeral 9 n (ground arith))
print_int-nonzero (negsuc n) h = (
  omega arith,
  IsNumeral-nonzero (decimal int_digits (suc n)) (decimal-IsNumeral 9 (suc n) (ground arith)),
)
