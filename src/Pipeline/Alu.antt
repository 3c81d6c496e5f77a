-- ===== src/Pipeline/Alu.antt =====
-- `instructionExecute`: the cycles of an instruction, for which the stages before it are frozen,
-- and its result as text.
use mscs.Common.{ℕ, Bool, true, false, not, ◌&&◌, ltb, if◌then◌else◌, Option, none, some, List}
use mscs.Common.Int.{ℤ, pos, ◌-ℤ◌, pos_part, eqb_ℤ}
use mscs.Common.Outcome.{Outcome, ok, ◌>>=◌}
use mscs.Common.Text.{atoi, print_int}
use mscs.Simulator.Double.{Double}
use mscs.Simulator.Operand.{c_string}
use mscs.Simulator.Arithmetic.{add_int, sub_int, mul_int, div_int}
use mscs.Simulator.Execute.{
  Opcode, decode, noop, add, sub, mul, div, li, l, s, beq, bneq, bgtz, bltz, move,
}
use mscs.Pipeline.Buffers.{zeros, print_into, c_text}
use mscs.Pipeline.Cpu.{Cpu, cycles_of, subscript_cycles}

-- `atoi` of a buffer.
unfoldable pub buffer_int : List ℕ → Outcome ℤ
unfolding c_text atoi
buffer_int buffer = c_text buffer >>= atoi

unfoldable pub int_output : (ℤ → ℤ → Outcome ℤ) → List ℕ → List ℕ → Outcome (List ℕ)
unfolding buffer_int print_into print_int
int_output operator a b = do
  x ← buffer_int a
  y ← buffer_int b
  v ← operator x y
  print_into (print_int v) zeros

unfoldable pub copy_output : List ℕ → Outcome (List ℕ)
unfolding buffer_int print_into print_int
copy_output a = do x ← buffer_int a; print_into (print_int x) zeros

module _ (D : Double) where
  open D use {Value, parse, print}

  unfoldable pub float_output : (Value → Value → Value) → List ℕ → List ℕ → Outcome (List ℕ)
  unfolding c_text print_into
  float_output operator a b = do
    x ← c_text a
    y ← c_text b
    print_into (print (operator (parse x) (parse y))) zeros

  unfoldable pub move_output : Bool → List ℕ → Outcome (List ℕ)
  unfolding c_text print_into copy_output
  move_output true a = do x ← c_text a; print_into (print (parse x)) zeros
  move_output false a = copy_output a

  unfoldable pub arithmetic_output :
      Bool → (ℤ → ℤ → Outcome ℤ) → (Value → Value → Value) → List ℕ → List ℕ → Outcome (List ℕ)
  unfolding int_output float_output
  arithmetic_output is_double int_operator float_operator a b =
      if is_double then float_output float_operator a b else int_output int_operator a b

  -- `executeMem.ALUOutput`
  unfoldable pub alu_output : Option Opcode → Bool → Cpu Value → Outcome (List ℕ)
  unfolding arithmetic_output copy_output int_output move_output add_int sub_int mul_int div_int
  alu_output (some add) is_double c =
      arithmetic_output is_double add_int (Double.add D) c.temp_a_buffered c.temp_b_buffered
  alu_output (some sub) is_double c =
      arithmetic_output is_double sub_int (Double.sub D) c.temp_a_buffered c.temp_b_buffered
  alu_output (some mul) is_double c =
      arithmetic_output is_double mul_int (Double.mul D) c.temp_a_buffered c.temp_b_buffered
  alu_output (some div) is_double c =
      arithmetic_output is_double div_int (Double.div D) c.temp_a_buffered c.temp_b_buffered
  alu_output (some li) is_double c = copy_output c.immediate_buffered
  alu_output (some l) is_double c = int_output add_int c.temp_a_buffered c.temp_b_buffered
  alu_output (some s) is_double c = int_output add_int c.temp_a_buffered c.temp_b_buffered
  alu_output (some move) is_double c = move_output is_double c.temp_a_buffered
  alu_output (some noop) is_double c = ok zeros
  alu_output (some beq) is_double c = ok zeros
  alu_output (some bneq) is_double c = ok zeros
  alu_output (some bgtz) is_double c = ok zeros
  alu_output (some bltz) is_double c = ok zeros
  alu_output none is_double c = ok zeros

  -- The instruction goes on to the next latch.
  unfoldable pub finish : Cpu Value → Outcome (Cpu Value)
  unfolding alu_output decode
  finish c = do
    let latch = c.decode_execute_buffered
    output ← alu_output (decode latch.opcode) latch.is_double c
    ok (record c { execute_mem = record { latch = latch; output = output } })

  -- `if(opcode_cycles[cOpCode] > 1 && bFreeze == false)`
  unfoldable pub begin : ℤ → Cpu Value → Cpu Value
  begin cycles c =
      if ltb 1 (pos_part cycles) && not c.freeze
      then record c { execute_cycle = cycles; freeze = true }
      else c

  -- One cycle of those that are left; the last one thaws the pipeline.
  unfoldable pub count_down : Cpu Value → Outcome (Cpu Value)
  unfolding finish ◌-ℤ◌
  count_down c =
      let left = c.execute_cycle -ℤ pos 1 in
      if eqb_ℤ left (pos 0)
      then finish (record c { execute_cycle = left; freeze = false })
      else ok (record c { execute_cycle = left })

  unfoldable pub instruction_execute : Cpu Value → Outcome (Cpu Value)
  unfolding c_string cycles_of subscript_cycles begin count_down
  instruction_execute c = do
    name ← c_string 10 c.decode_execute_buffered.opcode
    let c' = begin (cycles_of name c) (subscript_cycles name c)
    if c'.freeze then count_down c' else finish c'
