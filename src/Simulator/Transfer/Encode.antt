-- ===== src/Simulator/Transfer/Encode.antt =====
-- Loads and stores on lines of the form `reg,offset(base)`.
use mscs.Common.{
  ℕ, zero, suc, ◌+◌, ◌-◌, ◌<◌, ◌≡◌, refl, Bool, true, false, some, [], ◌∷◌, ◌++◌, length, take,
  drop, take-append, drop-append, arith,
}
use mscs.Common.Outcome.{ok, ◌>>=◌, ◌>>◌, guard, invalid_register}
use mscs.Common.Text.{Text, find_from, Free, find-Free}
use mscs.Simulator.Operand.{c_string, c_string-lt}
use mscs.Simulator.Operand.Encode.{IsOperand, drop-append_cons}
use mscs.Simulator.Machine.{Machine, validate_register}
use mscs.Simulator.Transfer.{positive, first_register, offset_and_base}

abbrev pub offset_base : Text → Text → Text
offset_base offset base = offset ++ b'(' ∷ (base ++ b')' ∷ [])

abbrev pub transfer_line : Text → Text → Text → Text
transfer_line reg offset base = reg ++ b',' ∷ offset_base offset base

-- A text before `(` that fits an array of ten characters.
abbrev pub IsOffset : Text → Type 0
IsOffset [] = ⊥
IsOffset (c ∷ s) = Free b'(' (c ∷ s) × (length (c ∷ s) < 10)

pub positive-suc : (n : ℕ) → 0 < n → positive (some n) ≡ ok n
unfolding positive
positive-suc zero h = elim h [ ]
positive-suc (suc n) h = refl

pub find_from-base :
    (offset base : Text)
    → Free b')' base
    → find_from b')' (length offset) (offset_base offset base)
      ≡ some (length offset + suc (length base))
unfolding find_from
find_from-base offset base h =
    rw
      (
        drop-append offset (b'(' ∷ (base ++ b')' ∷ [])),
        find-Free b')' (b'(' ∷ base) [] (omega arith, h),
      )
      refl

pub take-base :
    (c : ℕ) (s base : Text)
    → take
        (length (c ∷ s) + suc (length base) - length (c ∷ s) - 1)
        (drop (suc (length (c ∷ s))) (offset_base (c ∷ s) base))
      ≡ base
take-base c s base =
    let size : length (c ∷ s) + suc (length base) - length (c ∷ s) - 1 ≡ length base =
      omega arith in
    rw (size, drop-append_cons s (base ++ b')' ∷ []) b'(') (take-append base (b')' ∷ []))

module _ {V : Type 0} where
  pub first_register-transfer_line :
      (is_double : Bool) (reg rest : Text) (m : Machine V)
      → IsOperand 4 reg
      → validate_register is_double reg m ≡ true
      → first_register is_double (reg ++ b',' ∷ rest) m ≡ ok (reg, rest)
  unfolding first_register positive
  first_register-transfer_line is_double [] rest m h valid = elim h [ ]
  first_register-transfer_line is_double (c ∷ s) rest m h valid =
      rw
        (
          find-Free b',' (c ∷ s) rest h.0,
          take-append s (b',' ∷ rest),
          c_string-lt 4 (c ∷ s) h.1,
          valid,
          drop-append_cons s rest b',',
        )
        refl

  -- What is left to do with the base register: its copy has three places only.
  pub offset_and_base-offset_base :
      (offset base : Text) (m : Machine V)
      → IsOffset offset
      → Free b')' base
      → offset_and_base (offset_base offset base) m ≡ (do
        b ← c_string 3 base
        guard (validate_register false b m) invalid_register
        ok (offset, b))
  unfolding offset_and_base positive c_string
  offset_and_base-offset_base [] base m h free = elim h [ ]
  offset_and_base-offset_base (c ∷ s) base m h free =
      rw
        (
          find-Free b'(' (c ∷ s) (base ++ b')' ∷ []) h.0,
          take-append s (b'(' ∷ (base ++ b')' ∷ [])),
          c_string-lt 10 (c ∷ s) h.1,
          find_from-base (c ∷ s) base free,
          positive-suc (length (c ∷ s) + suc (length base)) (omega arith),
          take-base c s base,
        )
        refl
