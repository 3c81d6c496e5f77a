-- ===== src/Pipeline/Decode.antt =====
-- `instructionDecode` and the decoders that it calls: operands are checked against the instructions
-- still in the pipeline, read into the temporary registers, and branches are taken.
pub mod Compare
use mscs.Common.{
  ℕ, zero, suc, ◌+◌, ◌-◌, ◌==◌, Bool, true, false, not, ◌&&◌, if◌then◌else◌, Option, none, some,
  List, [], ◌∷◌, take, drop, length,
}
use mscs.Common.Int.{ℤ, pos, eqb_ℤ, is_positive, is_negative}
use mscs.Common.Outcome.{
  Outcome, ok, fail, undefined, ◌>>=◌, ◌>>◌, guard, invalid_register, invalid_label, invalid_opcode,
  no_opcode,
}
use mscs.Common.Text.{Text, codes, find, find_from, contains_text, starts_with, text_eq, print_int}
use mscs.Common.Dict.{lookup, insert}
use mscs.Simulator.Double.{Double}
use mscs.Simulator.Operand.{c_string, next_operand, dot_d}
use mscs.Simulator.Transfer.{positive}
use mscs.Simulator.Execute.{
  ltrim, Opcode, decode, noop, add, sub, mul, div, li, l, s, beq, bneq, bgtz, bltz, move,
}
use mscs.Simulator.Assembly.{drop_spaces}
use mscs.Pipeline.Buffers.{copy_into, print_into}
use mscs.Pipeline.Cpu.{
  Target, integer_target, float_target, Latch, Cpu, validate_register, integer_register,
  float_register,
}
use mscs.Pipeline.Hazard.{unless_pending}
use mscs.Pipeline.Decode.Compare.{
  set_target, register_target, decode_beq, decode_bneq, decode_bgtz, decode_bltz, valid_operand,
}

-- `if(sOpCode.compare(0,1,"L") == 0) decodeExecute.targetRegister.assign(reg);`
unfoldable pub load_name : Text → Text → Text → Text
unfolding starts_with
load_name op reg name = if starts_with (codes "L") op then reg else name

-- The opcode is the first word; `NOOP` may stand alone.
unfoldable pub opcode_end : Option ℕ → Text → Outcome ℕ
unfolding starts_with
opcode_end (some (suc k)) instruction = ok (suc k)
opcode_end (some zero) instruction =
    if starts_with (codes "NOOP") instruction then ok 4 else fail no_opcode
opcode_end none instruction =
    if starts_with (codes "NOOP") instruction then ok 4 else fail no_opcode

module _ (D : Double) where
  open D use {Value, zero_value, print, print_short}

  -- `sprintf(buffer,"%g",*ds)` or `sprintf(buffer,"%d",*is)`
  unfoldable pub read_register : Bool → Text → List ℕ → Cpu Value → Outcome (List ℕ)
  unfolding print_into float_register integer_register print_int
  read_register is_double reg buffer c =
      if is_double
      then print_into (print_short (float_register zero_value reg c)) buffer
      else print_into (print_int (integer_register reg c)) buffer

  unfoldable pub load_a : Text → Cpu Value → Outcome (Cpu Value)
  unfolding read_register
  load_a reg c = do
    a ← read_register c.decode_execute.is_double reg c.temp_a c
    ok (record c { temp_a = a })

  unfoldable pub load_b : Text → Cpu Value → Outcome (Cpu Value)
  unfolding read_register
  load_b reg c = do
    b ← read_register c.decode_execute.is_double reg c.temp_b c
    ok (record c { temp_b = b })

  -- The loop of `decodeArithmatic`: the target, and two sources, each unless it is pending.
  unfoldable pub decode_arithmetic : Text → Cpu Value → Outcome (Cpu Value)
  unfolding valid_operand set_target register_target unless_pending load_a load_b
  decode_arithmetic line c = do
    (target, rest) ← valid_operand 4 c.decode_execute.is_double line c
    let c1 = set_target target (register_target c.decode_execute.is_double target) c
    (source1, rest') ← valid_operand 4 c.decode_execute.is_double rest c1
    unless_pending D source1 c1 λ c2.
        (load_a source1 c2 >>= λ c3.
        (valid_operand 4 c3.decode_execute.is_double rest' c3 >>= λ (source2, _).
        (unless_pending D source2 c3 (load_b source2))))

  -- `decodeLoadStore`: the part behind the first operand. The offset is copied without a NUL; the
  -- base stands in `char reg[4]`, and the NUL is written one place behind its end.
  unfoldable pub decode_address : Text → Cpu Value → Outcome (Cpu Value)
  unfolding positive c_string validate_register find find_from copy_into print_into unless_pending
      integer_register print_int
  decode_address line c = do
    i ← positive (find b'(' line)
    a ← copy_into (take i line) c.temp_a
    i2 ← positive (find_from b')' i line)
    base ← c_string 3 (take (i2 - i - 1) (drop (suc i) line))
    guard (validate_register false base c) invalid_register
    unless_pending D base (record c { temp_a = a })
        λ c'.
          (print_into (print_int (integer_register base c')) c'.temp_b >>= λ b.
          ok (record c' { temp_b = b }))

  unfoldable pub address_unless : Bool → Text → Text → Cpu Value → Outcome (Cpu Value)
  unfolding unless_pending decode_address
  address_unless is_store reg line c =
      if is_store then unless_pending D reg c (decode_address line) else decode_address line c

  -- A load notes the register as its target; a store waits until it is no other's.
  unfoldable pub decode_load_store : Text → Text → Cpu Value → Outcome (Cpu Value)
  unfolding positive c_string validate_register find register_target load_name starts_with
      unless_pending decode_address
  decode_load_store op line c = do
    let is_double = c.decode_execute.is_double
    i ← positive (find b',' line)
    reg ← c_string 4 (take i line)
    guard (validate_register is_double reg c) invalid_register
    let name = load_name op reg c.decode_execute.target_register
    let c' = set_target name (register_target is_double reg) c
    address_unless (starts_with (codes "S") op) reg (drop (suc i) line) c'

  -- `decodeLI`: `&integer_registers[reg]`, also of a name that only `float_registers` has.
  unfoldable pub decode_li : Text → Cpu Value → Outcome (Cpu Value)
  unfolding positive c_string validate_register find copy_into insert set_target
  decode_li line c = do
    i ← positive (find b',' line)
    reg ← c_string 4 (take i line)
    guard (validate_register c.decode_execute.is_double reg c) invalid_register
    immediate ← copy_into (drop (suc i) line) c.immediate
    let c' = record c {
      immediate = immediate;
      integer_registers = insert reg (pos 0) c.integer_registers;
    }
    ok (set_target reg (integer_target reg) c')

  -- `decodeMOVE`: `%f` of a `double`, `%d` of an `int`, and a target of the other kind.
  unfoldable pub load_moved : Text → Cpu Value → Outcome (Cpu Value)
  unfolding print_into float_register integer_register print_int
  load_moved reg c =
      print_into
        (if c.decode_execute.is_double
          then print (float_register zero_value reg c)
          else print_int (integer_register reg c))
        c.temp_a
      >>= λ a. ok (record c { temp_a = a })

  unfoldable pub decode_move : Text → Cpu Value → Outcome (Cpu Value)
  unfolding valid_operand unless_pending load_moved set_target register_target
  decode_move line c = do
    (source, rest) ← valid_operand 4 c.decode_execute.is_double line c
    unless_pending D source c λ c1.
        (load_moved source c1 >>= λ c2.
        (let other = not c2.decode_execute.is_double in
          (valid_operand 4 other rest c2 >>= λ (target, _).
          ok (set_target target (register_target other target) c2))))

  -- The ladder of opcodes.
  unfoldable pub decode_opcode : Option Opcode → Text → Text → Cpu Value → Outcome (Cpu Value)
  unfolding decode_arithmetic decode_li decode_load_store decode_beq decode_bneq decode_bgtz
      decode_bltz decode_move
  decode_opcode none op line c = fail invalid_opcode
  decode_opcode (some noop) op line c = ok c
  decode_opcode (some add) op line c = decode_arithmetic line c
  decode_opcode (some sub) op line c = decode_arithmetic line c
  decode_opcode (some mul) op line c = decode_arithmetic line c
  decode_opcode (some div) op line c = decode_arithmetic line c
  decode_opcode (some li) op line c = decode_li line c
  decode_opcode (some l) op line c = decode_load_store op line c
  decode_opcode (some s) op line c = decode_load_store op line c
  decode_opcode (some beq) op line c = decode_beq D line c
  decode_opcode (some bneq) op line c = decode_bneq D line c
  decode_opcode (some bgtz) op line c = decode_bgtz D line c
  decode_opcode (some bltz) op line c = decode_bltz D line c
  decode_opcode (some move) op line c = decode_move line c

  unfoldable pub instruction_decode : Cpu Value → Outcome (Cpu Value)
  unfolding opcode_end c_string text_eq ltrim contains_text decode decode_opcode find drop_spaces
  instruction_decode c = do
    let instruction = drop_spaces c.ir_buffered
    i ← opcode_end (find 32 instruction) instruction
    op ← c_string 10 (take i instruction)
    let line = if text_eq op (codes "NOOP") then [] else ltrim (drop i instruction)
    let latch = record c.decode_execute {
      instruction = instruction;
      opcode = op;
      is_double = contains_text dot_d op;
    }
    decode_opcode (decode op) op line
        (record c { ir_buffered = instruction; decode_execute = latch })
