-- ===== src/Simulator/Branch/Taken.antt =====
-- Which branches are taken, and where they lead.
use mscs.Common.{ℕ, ◌<◌, ◌≡◌, refl, ◌∙◌, Bool, true, false, not, some, length, if◌then◌else◌, arith}
use mscs.Common.Int.{ℤ, pos, sub_ℕ, ◌+ℤ◌, is_positive, is_negative}
use mscs.Common.Outcome.{ok, ◌>>=◌}
use mscs.Common.Text.{Text, contains_text}
use mscs.Common.Dict.{lookup}
use mscs.Simulator.Double.{Double}
use mscs.Simulator.Operand.{dot_d}
use mscs.Simulator.Operand.Encode.{
  IsOperand, two_operands, three_operands, next_operand-comma, next_operand-last,
}
use mscs.Simulator.Machine.{Machine, validate_register, integer_register, charge}
use mscs.Simulator.Arithmetic.Encode.{charge_lem}
use mscs.Simulator.Execute.{increment}
use mscs.Simulator.Run.{increment-sub_ℕ}
use mscs.Simulator.Branch.{
  jump, jump_if, branch_register, registers_equal, register_above, register_below, execute_beq,
  execute_bneq, execute_bgtz, execute_bltz,
}

if-not {ℓ} : {A : Type ℓ} (b : Bool) (x y : A) → (if not b then x else y) ≡ (if b then y else x)
if-not true x y = refl
if-not false x y = refl

not_both : (v : ℤ) → is_positive v ≡ true → is_negative v ≡ false
not_both v h = ground arith

neither : (v : ℤ) → (is_positive v ≡ false) × (is_negative v ≡ false) → v ≡ pos 0
neither v h = ground arith

module _ {V : Type 0} where
  branch_register-comma :
      (is_double : Bool) (a rest : Text) (m : Machine V)
      → IsOperand 20 a
      → validate_register is_double a m ≡ true
      → branch_register is_double (two_operands a rest) m ≡ ok (a, rest)
  unfolding branch_register
  branch_register-comma is_double a rest m h valid = rw (next_operand-comma 20 a rest h, valid) refl

  -- The machine behind a branch to the line `t` that is taken or not, and that costs `cycles`.
  abbrev pub branched : Bool → ℕ → ℤ → Machine V → Machine V
  branched taken t cycles m = record m {
    program_counter = if taken then sub_ℕ t 1 else m.program_counter;
    cycle_count = m.cycle_count +ℤ cycles;
  }

  jump-found :
      (label : Text) (t : ℕ) (m : Machine V)
      → lookup label m.mlabels ≡ some t
      → jump label m ≡ ok (record m { program_counter = sub_ℕ t 1 })
  jump-found label t m found = unfold jump in rw (found, jump)

  jump_if-branched :
      (taken : Bool) (op label : Text) (t : ℕ) (cycles : ℤ) (m : Machine V)
      → lookup label m.mlabels ≡ some t
      → length op < 10
      → lookup op m.opcode_cycles ≡ some cycles
      → (jump_if taken label m >>= charge op) ≡ ok (branched taken t cycles m)
  unfolding jump_if
  jump_if-branched true op label t cycles m found short known =
      rw (jump-found label t m found)
        (charge_lem op cycles (record m { program_counter = sub_ℕ t 1 }) short known)
  jump_if-branched false op label t cycles m found short known = charge_lem op cycles m short known

  -- The next line behind a branch.
  next_line :
      (taken : Bool) (t : ℕ) (cycles : ℤ) (m : Machine V)
      → increment (branched taken t cycles m).program_counter
        ≡ (if taken then pos t else increment m.program_counter)
  next_line true t cycles m = increment-sub_ℕ t
  next_line false t cycles m = refl

module _ (D : Double) (op a label : Text) (t : ℕ) (cycles : ℤ) (m : Machine (D.Value))
    (name : IsOperand 20 a) (target : IsOperand 20 label)
    (valid : validate_register (contains_text dot_d op) a m ≡ true)
    (found : lookup label m.mlabels ≡ some t) (short : length op < 10)
    (known : lookup op m.opcode_cycles ≡ some cycles) where
  open D use {Value}

  -- `BEQ` and `BNEQ` on the same two registers and the same label, which is there: both succeed,
  -- exactly one of them goes to the label's line and the other to the next line, by whether the
  -- registers are equal; they change nothing but the program counter and the count of cycles.
  pub beq_or_bneq :
      (b : Text)
      → IsOperand 20 b
      → validate_register (contains_text dot_d op) b m ≡ true
      → let equal = registers_equal D (contains_text dot_d op) a b m in
        (execute_beq D op (three_operands a b label) m ≡ ok (branched equal t cycles m))
        × (execute_bneq D op (three_operands a b label) m ≡ ok (branched (not equal) t cycles m))
        × (increment (branched equal t cycles m).program_counter
            ≡ (if equal then pos t else increment m.program_counter))
        × (increment (branched (not equal) t cycles m).program_counter
            ≡ (if equal then increment m.program_counter else pos t))
  unfolding execute_beq execute_bneq
  beq_or_bneq b name' valid' =
      let is_double = contains_text dot_d op in
      let equal = registers_equal D is_double a b m in
      (
        rw
            (
              branch_register-comma is_double a (two_operands b label) m name valid,
              branch_register-comma is_double b label m name' valid',
              next_operand-last 20 label target,
            )
            (jump_if-branched equal op label t cycles m found short known),
        rw
            (
              branch_register-comma is_double a (two_operands b label) m name valid,
              branch_register-comma is_double b label m name' valid',
              next_operand-last 20 label target,
            )
            (jump_if-branched (not equal) op label t cycles m found short known),
        next_line equal t cycles m,
        next_line (not equal) t cycles m ∙ if-not equal (pos t) (increment m.program_counter),
      )

  -- `BGTZ` and `BLTZ` of an integer register and a label that is there: both succeed, the first
  -- goes to the label's line if the register is above 0 and the second if it is below, and else
  -- to the next line; so they never both do.
  pub bgtz_or_bltz :
      contains_text dot_d op ≡ false
      → let above = is_positive (integer_register a m) in
        let below = is_negative (integer_register a m) in
        (execute_bgtz D op (two_operands a label) m ≡ ok (branched above t cycles m))
        × (execute_bltz D op (two_operands a label) m ≡ ok (branched below t cycles m))
        × (above ≡ true → below ≡ false)
        × ((above ≡ false) × (below ≡ false) → integer_register a m ≡ pos 0)
  unfolding execute_bgtz execute_bltz register_above register_below
  bgtz_or_bltz int =
      let valid_int : validate_register false a m ≡ true = rw int at valid in
      let above = is_positive (integer_register a m) in
      let below = is_negative (integer_register a m) in
      (
        rw
            (
              int,
              branch_register-comma false a label m name valid_int,
              next_operand-last 20 label target,
            )
            (jump_if-branched above op label t cycles m found short known),
        rw
            (
              int,
              branch_register-comma false a label m name valid_int,
              next_operand-last 20 label target,
            )
            (jump_if-branched below op label t cycles m found short known),
        not_both (integer_register a m),
        neither (integer_register a m),
      )
