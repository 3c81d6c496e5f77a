-- ===== src/Pipeline/Buffers/Texts.antt =====
-- What is read back from a buffer after a number has been printed into it.
use mscs.Common.{
  false, ℕ, zero, suc, ◌+◌, ◌≤◌, ◌<◌, ◌≡◌, ◌≢◌, refl, ap, ◌∙◌, true, List, [], ◌∷◌, ◌++◌, length,
  drop, All, arith, length-append, if-true, Bool-cases, inl, inr, ltb, leb, ◌/◌, ◌%◌,
}
use mscs.Common.Int.{ℤ, pos, negsuc, fits_int}
use mscs.Common.Outcome.{ok}
use mscs.Common.Text.{Text, decimal, print_int, print_int-nonzero}
use mathlib.Core.List.{append_assoc}
use mscs.Pipeline.Buffers.{is_empty, copy_into, print_into, c_text}

c_text-append : (t r : List ℕ) → All (λ c. c ≢ 0) t → c_text (t ++ 0 ∷ r) ≡ ok t
unfolding c_text
c_text-append [] r h = refl
c_text-append (c ∷ t) r h = rw (c_text-append t r h.1) (ground arith)

length-decimal : (f n : ℕ) → length (decimal (suc f) n) ≤ suc f
unfolding decimal
length-decimal zero n = elim (Bool-cases (ltb n 10)) [
  | inl short ↦ rw short (omega arith)
  | inr long ↦ rw long (omega arith)
]
length-decimal (suc f) n = elim (Bool-cases (ltb n 10)) [
  | inl short ↦ rw short (omega arith)
  | inr long ↦ rw long (
      omega (
        arith,
        length-decimal f (n / 10),
        length-append (decimal (suc f) (n / 10)) ((n % 10 + 48) ∷ []),
      ))
]

pub length-print_int : (v : ℤ) → length (print_int v) < 12
unfolding print_int
length-print_int (pos n) = omega (arith, length-decimal 9 n)
length-print_int (negsuc n) = omega (arith, length-decimal 9 (suc n))

-- The buffer holds a number.
pub record Holds (buffer : List ℕ) (v : ℤ) : Type 0 where
  pub text : c_text buffer ≡ ok (print_int v)

pub print_into-Holds :
    (v : ℤ) (buffer : List ℕ)
    → length buffer ≡ 20
    → fits_int v ≡ true
    → (b : List ℕ) × (print_into (print_int v) buffer ≡ ok b) × Holds b v
unfolding print_into copy_into
print_into-Holds v buffer size fits =
    let written = print_int v ++ 0 ∷ [] in
    let short : length written ≤ length buffer =
      omega (arith, length-append (print_int v) (0 ∷ []), length-print_int v) in
    (
      written ++ drop (length written) buffer,
      if-true (leb (length written) (length buffer)) _ _ (ground arith),
      record {
        text =
            ap c_text (append_assoc (print_int v) (0 ∷ []) (drop (length written) buffer))
            ∙ c_text-append (print_int v) (drop (length written) buffer) (print_int-nonzero v fits);
      },
    )

is_empty-snoc : (xs : Text) (x : ℕ) → is_empty (xs ++ x ∷ []) ≡ false
unfolding is_empty
is_empty-snoc [] x = refl
is_empty-snoc (y ∷ xs) x = refl

decimal-Printed : (f n : ℕ) → is_empty (decimal (suc f) n) ≡ false
unfolding decimal is_empty
decimal-Printed f n = elim (Bool-cases (ltb n 10)) [
  | inl short ↦ rw short refl
  | inr long ↦ rw long (is_empty-snoc (decimal f (n / 10)) (n % 10 + 48))
]

-- No number is printed as nothing.
pub print_int-Printed : (v : ℤ) → is_empty (print_int v) ≡ false
unfolding print_int is_empty
print_int-Printed (pos n) = decimal-Printed 9 n
print_int-Printed (negsuc n) = refl
