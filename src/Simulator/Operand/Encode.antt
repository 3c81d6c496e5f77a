-- ===== src/Simulator/Operand/Encode.antt =====
-- Reading back operands that are separated by commas.
use mscs.Common.{ℕ, suc, ◌<◌, ◌≡◌, refl, [], ◌∷◌, ◌++◌, length, drop, take-append}
use mscs.Common.Outcome.{ok}
use mscs.Common.Text.{Text, Free, find-Free, find-none}
use mscs.Simulator.Operand.{c_string-lt, operand_at, next_operand}

-- A text that fits an array of `size` characters, with no comma, and not empty.
abbrev pub IsOperand : ℕ → Text → Type 0
IsOperand size [] = ⊥
IsOperand size (c ∷ s) = Free b',' (c ∷ s) × (length (c ∷ s) < size)

-- Operands with commas between them.
abbrev pub two_operands : Text → Text → Text
two_operands a b = a ++ b',' ∷ b

abbrev pub three_operands : Text → Text → Text → Text
three_operands a b c = a ++ b',' ∷ (b ++ b',' ∷ c)

pub drop-append_cons : (s rest : Text) (c : ℕ) → drop (suc (length s)) (s ++ c ∷ rest) ≡ rest
drop-append_cons [] rest c = refl
drop-append_cons (d ∷ s) rest c = drop-append_cons s rest c

pub next_operand-comma :
    (size : ℕ) (s rest : Text)
    → IsOperand size s
    → next_operand size (s ++ b',' ∷ rest) ≡ ok (s, rest)
unfolding next_operand operand_at
next_operand-comma size [] rest h = elim h [ ]
next_operand-comma size (c ∷ s) rest h =
    rw
      (
        find-Free b',' (c ∷ s) rest h.0,
        take-append s (b',' ∷ rest),
        c_string-lt size (c ∷ s) h.1,
        drop-append_cons s rest b',',
      )
      refl

pub next_operand-last : (size : ℕ) (s : Text) → IsOperand size s → next_operand size s ≡ ok (s, s)
unfolding next_operand operand_at
next_operand-last size [] h = elim h [ ]
next_operand-last size (c ∷ s) h =
    rw (find-none b',' (c ∷ s) h.0, c_string-lt size (c ∷ s) h.1) refl
