-- ===== src/Pipeline/Flow/Operands.antt =====
-- A program of one arithmetic instruction behind its second cycle, in which it is decoded.
use mscs.Common.{
  ℕ, zero, suc, ◌<◌, ◌≡◌, refl, ◌∙◌, true, false, List, [], ◌∷◌, length, length-append, if-false,
  arith,
}
use mscs.Common.Int.{ℤ, fits_int}
use mscs.Common.Outcome.{Outcome, ok, bind-ok}
use mscs.Common.Text.{Text, Free, starts_with}
use mscs.Simulator.Double.{Double}
use mscs.Simulator.Operand.Encode.{IsOperand, three_operands, two_operands}
use mscs.Simulator.Execute.{Opcode}
use mscs.Pipeline.Buffers.{is_empty}
use mscs.Pipeline.Buffers.Texts.{Holds}
use mscs.Pipeline.Cpu.{Cpu, validate_register, integer_register}
use mscs.Pipeline.Hazard.{found_before, is_pending}
use mscs.Pipeline.Decode.Compare.{set_target, register_target}
use mscs.Pipeline.Cycle.{
  instruction_fetch, decode_stage, execute_stage, memory_stage, write_stage, stages, buffer_fetch,
  buffer_decode, clear_decode, end_cycle, cycle,
}
use mscs.Pipeline.Flow.{IsSource, decode_arithmetic-Holds}
use mscs.Pipeline.Flow.Decoded.{instruction_line, IsArithmetic, noted, instruction_decode_lem}
use mscs.Pipeline.Flow.Passage.{latch_of, fetched, decoded}

starts_with-nil : (r : Text) → IsOperand 4 r → starts_with r [] ≡ false
unfolding starts_with
starts_with-nil [] h = elim h [ ]
starts_with-nil (c ∷ s) h = refl

found_before-nil : (n : ℕ) (r : Text) → IsOperand 4 r → found_before n r [] ≡ false
unfolding found_before
found_before-nil zero r h = refl
found_before-nil (suc n) r h = rw (starts_with-nil r h) (found_before-nil n r h)

is_empty-instruction_line :
    (op line : Text) → is_empty op ≡ false → is_empty (instruction_line op line) ≡ false
unfolding is_empty
is_empty-instruction_line [] line h = refl
is_empty-instruction_line (c ∷ op) line h = refl

module _ (D : Double) where
  open D use {Value}

  -- Three integer registers that are there, with names of at most three characters, and two
  -- operands that are `int`s.
  pub record IsReady (t a b : Text) (c : Cpu Value) : Type 0 where
    pub target : IsOperand 4 t × (validate_register false t c ≡ true)
    pub name_a : IsOperand 4 a × (validate_register false a c ≡ true)
    pub name_b : IsOperand 4 b × (validate_register false b c ≡ true)
    pub no_space : Free 32 (three_operands t a b)
    pub fits_a : fits_int (integer_register a c) ≡ true
    pub fits_b : fits_int (integer_register b c) ≡ true

  module _ (operator : ℤ → ℤ → Outcome ℤ) (op : Text) (o : Opcode)
      (h : IsArithmetic D operator op o) (t a b : Text) (c : Cpu Value)
      (ready : IsReady t a b c) where
    abbrev line : Text
    line = instruction_line op (three_operands t a b)

    -- What the decoder gets, in the second cycle.
    abbrev decoding : Cpu Value
    decoding = record (fetched D line c) { cycle_count = 2; ir = []; program_counter = 2 }

    is_source :
        (r : Text)
        → IsOperand 4 r × (validate_register false r c ≡ true)
        → fits_int (integer_register r c) ≡ true
        → IsSource D r (noted D op (three_operands t a b) decoding)
    unfolding validate_register integer_register is_pending
    is_source r name fits = record {
      name = name;
      free = record {
        not_pending = rw (found_before-nil 3 r name.0) refl;
        not_last = found_before-nil 3 r name.0;
      };
      fits = fits;
    }

    has_operands : 0 < length (three_operands t a b)
    has_operands = omega (arith, length-append t (b',' ∷ two_operands a b))

    -- The second cycle.
    pub cycle-decoded :
        (x : List ℕ) × (y : List ℕ) × (cycle D (fetched D line c)
          ≡ ok (decoded D line x y (latch_of D t op line) c))
        × Holds x (integer_register a c)
        × Holds y (integer_register b c)
    unfolding cycle instruction_fetch stages decode_stage execute_stage memory_stage write_stage
        end_cycle buffer_fetch buffer_decode clear_decode set_target register_target
        validate_register integer_register
    cycle-decoded =
        let (x, y, e, hx, hy) =
          decode_arithmetic-Holds D t a b (noted D op (three_operands t a b) decoding) refl
            ready.target (is_source a ready.name_a ready.fits_a)
            (is_source b ready.name_b ready.fits_b) refl refl in
        (
          x,
          y,
          bind-ok _ _
              (bind-ok (decode_stage D decoding) _
                (if-false (is_empty line) _ _ (is_empty-instruction_line op _ h.opcode)
                  ∙ instruction_decode_lem D operator op (three_operands t a b) o decoding h
                      ready.no_space has_operands refl
                  ∙ e)
                refl)
              refl,
          hx,
          hy,
        )
