-- ===== src/Pipeline/Reads/Branches.antt =====
-- The branches that compare two registers.
use mscs.Common.{◌≡◌, refl, ◌∙◌, true, false, not, Bool, ◌∷◌, ◌++◌}
use mscs.Common.Outcome.{ok, bind-ok}
use mscs.Common.Text.{Text}
use mscs.Simulator.Double.{Double}
use mscs.Simulator.Operand.Encode.{
  IsOperand, three_operands, two_operands, next_operand-comma, next_operand-last,
}
use mscs.Pipeline.Cpu.{Cpu, validate_register, integer_register, float_register}
use mscs.Pipeline.Decode.Compare.{
  valid_operand, branch_if, registers_equal, compare_two, decode_two, decode_beq, decode_bneq,
}
use mscs.Pipeline.Flow.{IsFree, unless_pending-IsFree}

module _ (D : Double) where
  open D use {Value}

  valid_operand_lem :
      (r rest : Text) (c : Cpu Value)
      → IsOperand 20 r
      → validate_register c.decode_execute.is_double r c ≡ true
      → valid_operand 20 c.decode_execute.is_double (r ++ b',' ∷ rest) c ≡ ok (r, rest)
  unfolding valid_operand
  valid_operand_lem r rest c h valid = rw (next_operand-comma 20 r rest h, valid) refl

  decode_two-first :
      (test : Bool → Text → Text → Cpu Value → Bool) (a b label : Text) (c : Cpu Value)
      → IsOperand 20 a
      → IsOperand 20 b
      → IsOperand 20 label
      → validate_register c.decode_execute.is_double a c ≡ true
      → validate_register c.decode_execute.is_double b c ≡ true
      → IsFree D a c
      → decode_two D test (three_operands a b label) c
        ≡ branch_if
            (test c.decode_execute.is_double a b (record c { stall_if = false }))
            label
            (record c { stall_if = false })
  unfolding decode_two compare_two validate_register
  decode_two-first test a b label c ha hb hl va vb free =
      let c' = record c { stall_if = false } in
      bind-ok _ _ (valid_operand_lem a (two_operands b label) c ha va) (
        unless_pending-IsFree D a c _ free
        ∙ bind-ok _ _ (valid_operand_lem b label c' hb vb)
            (bind-ok _ _ (next_operand-last 20 label hl) refl))

  -- `BEQ` and `BNEQ` of two registers that are there, the first of which no instruction in the
  -- pipeline is about to write, compare what the registers hold now and do not wait, whatever
  -- instruction in the pipeline is about to write the second one.
  pub branch-first :
      (a b label : Text) (c : Cpu Value)
      → IsOperand 20 a
      → IsOperand 20 b
      → IsOperand 20 label
      → validate_register c.decode_execute.is_double a c ≡ true
      → validate_register c.decode_execute.is_double b c ≡ true
      → IsFree D a c
      → (decode_beq D (three_operands a b label) c
          ≡ branch_if
              (registers_equal D c.decode_execute.is_double a b c)
              label
              (record c { stall_if = false }))
        × (decode_bneq D (three_operands a b label) c
            ≡ branch_if
                (not (registers_equal D c.decode_execute.is_double a b c))
                label
                (record c { stall_if = false }))
  unfolding decode_beq decode_bneq registers_equal integer_register float_register
  branch-first a b label c ha hb hl va vb free = (
    decode_two-first (registers_equal D) a b label c ha hb hl va vb free,
    decode_two-first (λ is_double x y z. not (registers_equal D is_double x y z)) a b label c ha hb
        hl va vb free,
  )
