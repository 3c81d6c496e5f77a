-- ===== src/Tomasulo/Decode/Base.antt =====
-- The base register that a load or a store gets.
use mscs.Common.{
  ℕ, zero, suc, ◌≡◌, ◌≢◌, refl, sym, ap, ◌∙◌, false, ◌==◌, [], ◌∷◌, ◌+◌, ◌<◌, true, ◌++◌, length,
  take, drop, take-append, replicate, All, arith,
}
use mscs.Common.Outcome.{Outcome, ok, ◌>>◌, guard, invalid_register}
use mscs.Common.Text.{Text, Free, find-Free}
use mscs.Simulator.Operand.{c_string-lt}
use mscs.Simulator.Operand.Encode.{IsOperand, drop-append_cons}
use mscs.Simulator.Transfer.{until_nul, positive}
use mscs.Simulator.Transfer.Encode.{
  offset_base, transfer_line, positive-suc, find_from-base, take-base,
}
use mscs.Tomasulo.Types.{Instruction, Machine}
use mscs.Tomasulo.Registers.{validate_register}
use mscs.Tomasulo.Decode.{
  base_over, decode_address, decode_load_store, set_source_reg1, set_target_register,
}

nonzero : (c : ℕ) → c ≢ 0 → (c == 0) ≡ false
nonzero c h = ground arith

append_nil : (t : Text) → t ++ [] ≡ t
append_nil [] = refl
append_nil (c ∷ t) = ap (λ s. c ∷ s) (append_nil t)

past_end :
    (base : Text) (n : ℕ) → All (λ c. c ≢ 0) base → until_nul (base ++ take 1 (drop n [])) ≡ base
unfolding until_nul
past_end [] zero h = refl
past_end [] (suc n) h = refl
past_end (c ∷ t) n h = rw (nonzero c h.0) (ap (λ s. c ∷ s) (past_end t n h.1))

text_of :
    (target : Text) (k : ℕ)
    → All (λ c. c ≢ 0) target
    → until_nul (take 1 (target ++ replicate k 0)) ≡ take 1 target
unfolding until_nul
text_of [] zero h = refl
text_of [] (suc k) h = refl
text_of (c ∷ t) k h = rw (nonzero c h.0) refl

nul_after :
    (base : Text) (k : ℕ)
    → All (λ c. c ≢ 0) base
    → until_nul (base ++ take 1 (drop (length base) (replicate k 0))) ≡ base
unfolding until_nul
nul_after [] zero h = refl
nul_after [] (suc k) h = refl
nul_after (c ∷ t) zero h = past_end (c ∷ t) (length (c ∷ t)) h
nul_after (c ∷ t) (suc k) h = rw (nonzero c h.0) (ap (λ s. c ∷ s) (nul_after t k h.1))

until_nul-over :
    (target base : Text) (k : ℕ)
    → All (λ c. c ≢ 0) target
    → All (λ c. c ≢ 0) base
    → until_nul (base ++ take 1 (drop (length base) (target ++ replicate k 0)))
      ≡ base ++ take 1 (drop (length base) target)
unfolding until_nul
until_nul-over target [] k h g = text_of target k h
until_nul-over [] (c ∷ t) k h g = nul_after (c ∷ t) k g ∙ sym (append_nil (c ∷ t))
until_nul-over (d ∷ target) (c ∷ t) k h g =
    rw (nonzero c g.0) (ap (λ s. c ∷ s) (until_nul-over target t k h.1 g.1))

base_over_lem :
    (target base : Text)
    → All (λ c. c ≢ 0) target
    → All (λ c. c ≢ 0) base
    → base_over target base ≡ base ++ take 1 (drop (length base) target)
unfolding base_over
base_over_lem target base h g = until_nul-over target base 4 h g

-- The text between the comma and `(`, which has to be there and to fit an array of 20 characters.
abbrev pub IsOffset : Text → Type 0
IsOffset [] = ⊥
IsOffset (c ∷ s) = Free b'(' (c ∷ s) × (length (c ∷ s) < 20)

-- The name that the code looks up, and the end of the decoding.
abbrev pub addressed :
    {V : Type 0} → Text → Text → Text → Instruction → Machine V → Outcome Instruction
addressed reg target offset i m =
    guard (validate_register false reg m) invalid_register
    >> ok (set_source_reg1 reg (record (set_target_register target i) { temp_a = offset }))

module _ {V : Type 0} where
  decode_address-over :
      (target offset base : Text) (i : Instruction) (m : Machine V)
      → IsOffset offset
      → Free b')' base
      → length base < 3
      → decode_address target (offset_base offset base) i m ≡ (
          guard (validate_register false (base_over target base) m) invalid_register
          >> ok (set_source_reg1 (base_over target base) (record i { temp_a = offset })))
  unfolding decode_address positive
  decode_address-over target [] base i m h free short = elim h [ ]
  decode_address-over target (c ∷ s) base i m h free short =
      rw
        (
          find-Free b'(' (c ∷ s) (base ++ b')' ∷ []) h.0,
          take-append s (b'(' ∷ (base ++ b')' ∷ [])),
          c_string-lt 20 (c ∷ s) h.1,
          find_from-base (c ∷ s) base free,
          positive-suc (length (c ∷ s) + suc (length base)) (omega arith),
          take-base c s base,
          c_string-lt 3 base short,
        )
        refl

  split-line :
      (target offset base : Text) (i : Instruction) (m : Machine V)
      → i.s_line ≡ transfer_line target offset base
      → IsOperand 4 target
      → validate_register i.is_double target m ≡ true
      → decode_load_store i m
        ≡ decode_address target (offset_base offset base) (set_target_register target i) m
  unfolding decode_load_store positive
  split-line [] offset base i m e h valid = elim h [ ]
  split-line (c ∷ s) offset base i m e h valid =
      rw
        (
          e,
          find-Free b',' (c ∷ s) (offset_base offset base) h.0,
          take-append s (b',' ∷ offset_base offset base),
          c_string-lt 4 (c ∷ s) h.1,
          valid,
          drop-append_cons s (offset_base offset base) b',',
        )
        refl

  -- A load or a store on a line `target,offset(base)` whose target is a register, with at most three
  -- characters, an offset of one to 19 and a base of at most two, without a NUL in the names: it is
  -- decoded with the target, the offset, and as the base the register that is called like the base
  -- followed by the character that the name of the target has at that place, if it has one; it fails
  -- when that is no register. So a target with a longer name than the base spoils the base.
  pub decode_load_store-over :
      (target offset base : Text) (i : Instruction) (m : Machine V)
      → i.s_line ≡ transfer_line target offset base
      → IsOperand 4 target
      → validate_register i.is_double target m ≡ true
      → IsOffset offset
      → Free b')' base
      → length base < 3
      → All (λ c. c ≢ 0) target
      → All (λ c. c ≢ 0) base
      → decode_load_store i m
        ≡ addressed (base ++ take 1 (drop (length base) target)) target offset i m
  decode_load_store-over target offset base i m e h valid off free short full full_base =
      split-line target offset base i m e h valid
      ∙ decode_address-over target offset base (set_target_register target i) m off free short
      ∙ ap (λ reg. addressed reg target offset i m) (base_over_lem target base full full_base)
