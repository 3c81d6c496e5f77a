-- ===== src/Pipeline/Flow/Sequential.antt =====
-- The cycles of the pipeline against the handlers of the sequential simulator.
use mscs.Common.{◌≡◌, ◌≢◌, refl, sym, ◌∙◌, true, false, none, some, ap}
use mscs.Common.Int.{ℤ, pos, fits_int, quot, ◌+ℤ◌, ◌*ℤ◌}
use mscs.Common.Outcome.{Outcome, ok}
use mscs.Common.Text.{Text, codes, starts_with}
use mscs.Common.Dict.{Dict, lookup, contains, assign}
use mathlib.Core.Path.{subst}
use mscs.Simulator.Double.{Double}
use mscs.Simulator.Operand.Encode.{three_operands}
use mscs.Simulator.Machine
use mscs.Simulator.Machine.{Machine}
use mscs.Simulator.Arithmetic.{
  checked_int, add_int, mul_int, div_int, execute_arithmetic, execute_add, execute_mul, execute_div,
}
use mscs.Simulator.Arithmetic.Encode.{execute_arithmetic_lem, div_int_lem}
use mscs.Simulator.Execute.{Opcode, add, mul, div, decode}
use mscs.Pipeline.Cpu.{Cpu, integer_register, validate_register}
use mscs.Simulator.Execute.{ltrim, execute_line, execute_split, execute_opcode}
use mscs.Simulator.Operand.{c_string}
use mscs.Common.Text.{text_eq, find}
use mscs.Common.{ℕ, suc, ◌+◌, ◌∷◌}
use mscs.Pipeline.Cpu.{cycles_of}
use mscs.Pipeline.Cycle.{is_drained}
use mscs.Pipeline.Fetch.{cycles}
use mscs.Common.{Option}
use mscs.Pipeline.Flow.Opcodes.{add-IsArithmetic, mul-IsArithmetic, div-IsArithmetic}
use mscs.Pipeline.Flow.Passage.{alone}
use mscs.Pipeline.Flow.Operands.{IsReady}
use mscs.Pipeline.Flow.Alone.{alone-Written}
use mscs.Pipeline.Flow.Decoded.{instruction_line, IsArithmetic, ltrim-Free}

module _ (D : Double) where
  open D use {Value}

  -- Both simulators succeed: the pipeline is empty, both have the same integers in the registers,
  -- and the sequential simulator has counted `n` cycles more.
  abbrev pub Same : ℕ → Machine Value → Outcome (Cpu Value) → Outcome (Machine Value) → Type 0
  Same n m piped sequential =
      (c : Cpu Value) × (m' : Machine Value) × (piped ≡ ok c)
      × (sequential ≡ ok m')
      × (is_drained c ≡ true)
      × (c.integer_registers ≡ m'.integer_registers)
      × (m'.cycle_count ≡ m.cycle_count +ℤ pos n)

  module _ (t a b : Text) (c : Cpu Value) (m : Machine Value) (ready : IsReady D t a b c)
      (same : Machine.integer_registers m ≡ c.integer_registers)
      (priced : Machine.opcode_cycles m ≡ c.opcode_cycles) where
    same_name :
        (r : Text) → validate_register false r c ≡ true → Machine.validate_register false r m ≡ true
    unfolding validate_register Machine.validate_register
    same_name r h = subst (λ (d : Dict ℤ). contains r d ≡ true) (sym same) h

    same_value : (r : Text) → Machine.integer_register r m ≡ integer_register r c
    unfolding integer_register Machine.integer_register
    same_value r = ap (λ (d : Dict ℤ). elim (lookup r d) [ none ↦ pos 0 | some v ↦ v ]) same

    abbrev line : Text
    line = three_operands t a b

    known_cycles : (op : Text) (n : ℤ) → lookup op c.opcode_cycles ≡ some n → cycles_of op c ≡ n
    unfolding cycles_of
    known_cycles op n e = ap (λ (q : Option ℤ). elim q [ none ↦ pos 0 | some v ↦ v ]) e

    arithmetic-Same :
        (operator : ℤ → ℤ → Outcome ℤ) (g : Value → Value → Value) (op : Text) (o : Opcode) (k : ℕ)
        (v : ℤ)
        → IsArithmetic D operator op o
        → ((rest : Text)
            → execute_line D (instruction_line op rest) m
              ≡ execute_arithmetic D.zero_value operator g op (ltrim (32 ∷ rest)) m)
        → lookup op c.opcode_cycles ≡ some (pos (suc k))
        → fits_int v ≡ true
        → operator (integer_register a c) (integer_register b c) ≡ ok v
        → Same
            (suc k)
            m
            (cycles D (suc k + 4) (alone D (instruction_line op line) c))
            (execute_line D (instruction_line op line) m)
    unfolding Machine.set_integer
    arithmetic-Same operator g op o k v h dispatches counted fits defined =
        let (c', e, drained, registers) =
          alone-Written D operator op o h t a b c ready k v (known_cycles op (pos (suc k)) counted)
            fits defined in
        let e' =
          execute_arithmetic_lem D.zero_value operator g op t a b v (pos (suc k)) m h.integers
            h.short (ap (lookup op) priced ∙ counted) (ready.target.0, same_name t ready.target.1)
            (ready.name_a.0, same_name a ready.name_a.1)
            (ready.name_b.0, same_name b ready.name_b.1)
            (ap (λ x. operator x (Machine.integer_register b m)) (same_value a)
              ∙ ap (λ y. operator (integer_register a c) y) (same_value b)
              ∙ defined) in
        (
          c',
          _,
          e,
          dispatches line
              ∙ ap (λ l. execute_arithmetic D.zero_value operator g op l m)
                  (ltrim-Free line ready.no_space)
              ∙ e',
          drained,
          registers ∙ ap (λ d. assign t v d) (sym same),
          refl,
        )

    abbrev x : ℤ
    x = integer_register a c

    abbrev y : ℤ
    y = integer_register b c

    -- A pipelined and a sequential simulator with the same integer registers and the same cycles of
    -- the opcodes. `ADD`, `MUL` and `DIV` of integer registers that are there, with names of at most
    -- three characters without spaces, with operands and all three results that are `int`s, a
    -- divisor that is not 0, and opcodes of one cycle or more. The instruction is the only line of
    -- the pipelined program, and nothing has been executed: after as many cycles as the opcode takes
    -- and four more (the fetch, the decoding, the execute stage with its freeze, the memory stage and
    -- the last one) the pipeline is empty, and its registers have the same integers as those of the
    -- sequential simulator behind the line, which has counted the cycles of the opcode.
    pub alone-Same :
        (i j k : ℕ)
        → lookup (codes "ADD") c.opcode_cycles ≡ some (pos (suc i))
        → lookup (codes "MUL") c.opcode_cycles ≡ some (pos (suc j))
        → lookup (codes "DIV") c.opcode_cycles ≡ some (pos (suc k))
        → fits_int (x +ℤ y) ≡ true
        → fits_int (x *ℤ y) ≡ true
        → y ≢ pos 0
        → fits_int (quot x y) ≡ true
        → Same
            (suc i)
            m
            (cycles D (suc i + 4) (alone D (instruction_line (codes "ADD") line) c))
            (execute_line D (instruction_line (codes "ADD") line) m)
          × Same
              (suc j)
              m
              (cycles D (suc j + 4) (alone D (instruction_line (codes "MUL") line) c))
              (execute_line D (instruction_line (codes "MUL") line) m)
          × Same
              (suc k)
              m
              (cycles D (suc k + 4) (alone D (instruction_line (codes "DIV") line) c))
              (execute_line D (instruction_line (codes "DIV") line) m)
    unfolding execute_add execute_mul execute_div execute_line execute_split execute_opcode find
        decode starts_with text_eq c_string add_int mul_int checked_int
    alone-Same i j k add_cycles mul_cycles div_cycles add_fits mul_fits nonzero div_fits = (
      arithmetic-Same add_int D.add (codes "ADD") add i (x +ℤ y) (add-IsArithmetic D) (λ rest. refl)
          add_cycles add_fits (rw add_fits refl),
      arithmetic-Same mul_int D.mul (codes "MUL") mul j (x *ℤ y) (mul-IsArithmetic D) (λ rest. refl)
          mul_cycles mul_fits (rw mul_fits refl),
      arithmetic-Same div_int D.div (codes "DIV") div k (quot x y) (div-IsArithmetic D)
          (λ rest. refl) div_cycles div_fits (div_int_lem x y nonzero div_fits),
    )
