-- ===== src/Pipeline/Flow/Opcodes.antt =====
-- What the stages do with `ADD`, `MUL` and `DIV`.
use mscs.Common.{refl, arith}
use mscs.Common.Text.{codes, contains_text, starts_with, text_eq}
use mscs.Simulator.Double.{Double}
use mscs.Simulator.Arithmetic.{add_int, mul_int, div_int}
use mscs.Simulator.Execute.{add, mul, div, decode}
use mscs.Pipeline.Buffers.{is_empty}
use mscs.Pipeline.WriteBack.{has_result}
use mscs.Pipeline.Alu.{alu_output, arithmetic_output}
use mscs.Pipeline.MemoryStage.{access}
use mscs.Pipeline.Decode.{decode_opcode}
use mscs.Pipeline.Flow.Decoded.{IsArithmetic}

module _ (D : Double) where
  pub add-IsArithmetic : IsArithmetic D add_int (codes "ADD") add
  unfolding alu_output arithmetic_output access has_result starts_with contains_text decode text_eq
      decode_opcode is_empty
  add-IsArithmetic = record {
    known = refl;
    decodes = λ l s. refl;
    computes = λ s. refl;
    passes = λ s. refl;
    has = refl;
    integers = refl;
    operands = refl;
    short = omega arith;
    there = omega arith;
    opcode = refl;
    free = omega arith;
  }

  pub mul-IsArithmetic : IsArithmetic D mul_int (codes "MUL") mul
  unfolding alu_output arithmetic_output access has_result starts_with contains_text decode text_eq
      decode_opcode is_empty
  mul-IsArithmetic = record {
    known = refl;
    decodes = λ l s. refl;
    computes = λ s. refl;
    passes = λ s. refl;
    has = refl;
    integers = refl;
    operands = refl;
    short = omega arith;
    there = omega arith;
    opcode = refl;
    free = omega arith;
  }

  pub div-IsArithmetic : IsArithmetic D div_int (codes "DIV") div
  unfolding alu_output arithmetic_output access has_result starts_with contains_text decode text_eq
      decode_opcode is_empty
  div-IsArithmetic = record {
    known = refl;
    decodes = λ l s. refl;
    computes = λ s. refl;
    passes = λ s. refl;
    has = refl;
    integers = refl;
    operands = refl;
    short = omega arith;
    there = omega arith;
    opcode = refl;
    free = omega arith;
  }
