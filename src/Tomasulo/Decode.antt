-- ===== src/Tomasulo/Decode.antt =====
-- `InstructionDecode`: the operands of an instruction are checked and noted in it.
-- `detecthazard` is always false.
pub mod Base
use mscs.Common.{
  ℕ, suc, ◌-◌, Bool, false, not, ◌&&◌, leb, if◌then◌else◌, none, some, [], ◌∷◌, ◌++◌, length, take,
  drop, replicate,
}
use mscs.Common.Int.{pos}
use mscs.Common.Outcome.{invalid_register, invalid_label, Outcome, fail, ok, guard, ◌>>=◌, ◌>>◌}
use mscs.Common.Text.{Text, find, find_from, atoi}
use mscs.Common.Dict.{lookup}
use mscs.Simulator.Operand.{c_string, next_operand}
use mscs.Simulator.Transfer.{positive, until_nul}
use mscs.Tomasulo.Types.{
  noop, add, mul_d, load_immediate, load, store, load_d, store_d, beq, bneq, bgtz, bltz, move,
  beq_d, bneq_d, bgtz_d, bltz_d, move_d, code, integer_at, float_at, Instruction, Machine,
}
use mscs.Tomasulo.Registers.{validate_register, eq_opcode}
use mscs.Tomasulo.Adders.{is_one_of}

-- `settargetRegister`: the target of a move is of the other kind.
unfoldable pub set_target_register : Text → Instruction → Instruction
set_target_register reg i =
    let is_float =
      if is_one_of i.opcode (move ∷ move_d ∷ []) then not i.is_double else i.is_double in
    record i { target_reg = reg; target = if is_float then float_at reg else integer_at reg }

-- `setsourceReg1` and `setsourceReg2`
unfoldable pub set_source_reg1 : Text → Instruction → Instruction
set_source_reg1 reg i = record i { source_reg1 = reg }

unfoldable pub set_source_reg2 : Text → Instruction → Instruction
set_source_reg2 reg i = record i { source_reg2 = reg }

-- The name of the base is copied into `char reg[4]`, over the name of the target, and the NUL
-- is written one place behind its end: the place between keeps what was there.
unfoldable pub base_over : Text → Text → Text
unfolding until_nul
base_over target base = until_nul (base ++ take 1 (drop (length base) (target ++ replicate 4 0)))

module _ {V : Type 0} where
  -- The next operand of the line, which has to be a register, and the rest of the line.
  unfoldable pub register_operand : ℕ → Bool → Text → Machine V → Outcome (Text × Text)
  unfolding next_operand validate_register
  register_operand size is_double line m = do
    (reg, rest) ← next_operand size line
    guard (validate_register is_double reg m) invalid_register
    ok (reg, rest)

  -- `decodeArithmatic`
  unfoldable pub decode_arithmetic : Instruction → Machine V → Outcome Instruction
  unfolding register_operand set_target_register set_source_reg1 set_source_reg2
  decode_arithmetic i m = do
    (target, rest) ← register_operand 4 i.is_double i.s_line m
    (source1, rest') ← register_operand 4 i.is_double rest m
    (source2, _) ← register_operand 4 i.is_double rest' m
    ok (set_source_reg2 source2 (set_source_reg1 source1 (set_target_register target i)))

  -- The part of `decodeLoadStore` behind the target.
  unfoldable pub decode_address : Text → Text → Instruction → Machine V → Outcome Instruction
  unfolding positive c_string validate_register find find_from base_over set_source_reg1
  decode_address target line i m = do
    k ← positive (find b'(' line)
    offset ← c_string 20 (take k line)
    k2 ← positive (find_from b')' k line)
    base ← c_string 3 (take (k2 - k - 1) (drop (suc k) line))
    let reg = base_over target base
    guard (validate_register false reg m) invalid_register
    ok (set_source_reg1 reg (record i { temp_a = offset }))

  unfoldable pub decode_load_store : Instruction → Machine V → Outcome Instruction
  unfolding positive c_string validate_register find set_target_register decode_address
  decode_load_store i m = do
    k ← positive (find b',' i.s_line)
    reg ← c_string 4 (take k i.s_line)
    guard (validate_register i.is_double reg m) invalid_register
    decode_address reg (drop (suc k) i.s_line) (set_target_register reg i) m

  -- `decodeLI`
  unfoldable pub decode_li : Instruction → Machine V → Outcome Instruction
  unfolding positive c_string validate_register find set_target_register atoi
  decode_li i m = do
    k ← positive (find b',' i.s_line)
    reg ← c_string 4 (take k i.s_line)
    guard (validate_register i.is_double reg m) invalid_register
    immediate ← c_string 20 (drop (suc k) i.s_line)
    v ← atoi immediate
    ok (set_target_register reg (record i { i_immediate = v }))

  -- `mlabels[reg]` of a label that is there.
  unfoldable pub set_branch_target : Text → Instruction → Machine V → Outcome Instruction
  unfolding lookup
  set_branch_target label i m = elim (lookup label m.mlabels) [
    | none ↦ fail invalid_label
    | some line ↦ ok (record i { branch_target = pos line })
  ]

  -- `decodeBEQ` and `decodeBNEQ`
  unfoldable pub decode_beq : Instruction → Machine V → Outcome Instruction
  unfolding register_operand next_operand set_branch_target set_source_reg1 set_source_reg2
  decode_beq i m = do
    (source1, rest) ← register_operand 20 i.is_double i.s_line m
    (source2, rest') ← register_operand 20 i.is_double rest m
    (label, _) ← next_operand 20 rest'
    set_branch_target label (set_source_reg2 source2 (set_source_reg1 source1 i)) m

  unfoldable pub decode_bneq : Instruction → Machine V → Outcome Instruction
  unfolding decode_beq
  decode_bneq = decode_beq

  -- `decodeBGTZ` and `decodeBLTZ`
  unfoldable pub decode_bgtz : Instruction → Machine V → Outcome Instruction
  unfolding register_operand next_operand set_branch_target set_source_reg1
  decode_bgtz i m = do
    (source, rest) ← register_operand 20 i.is_double i.s_line m
    (label, _) ← next_operand 20 rest
    set_branch_target label (set_source_reg1 source i) m

  unfoldable pub decode_bltz : Instruction → Machine V → Outcome Instruction
  unfolding decode_bgtz
  decode_bltz = decode_bgtz

  -- `decodeMOVE`
  unfoldable pub decode_move : Instruction → Machine V → Outcome Instruction
  unfolding register_operand set_target_register set_source_reg1
  decode_move i m = do
    (source, rest) ← register_operand 4 i.is_double i.s_line m
    (target, _) ← register_operand 4 (not i.is_double) rest m
    ok (set_target_register target (set_source_reg1 source i))

  -- `decode`
  unfoldable pub decode : Instruction → Machine V → Outcome Instruction
  unfolding decode_arithmetic decode_li decode_load_store decode_beq decode_bneq decode_bgtz
      decode_bltz decode_move
  decode i m =
      let op = i.opcode in
      if eq_opcode op noop
      then ok i
      else if leb (code add) (code op) && leb (code op) (code mul_d)
      then decode_arithmetic i m
      else if eq_opcode op load_immediate
      then decode_li i m
      else if is_one_of op (load ∷ store ∷ load_d ∷ store_d ∷ [])
      then decode_load_store i m
      else if is_one_of op (beq ∷ beq_d ∷ [])
      then decode_beq i m
      else if is_one_of op (bneq ∷ bneq_d ∷ [])
      then decode_bneq i m
      else if is_one_of op (bgtz ∷ bgtz_d ∷ [])
      then decode_bgtz i m
      else if is_one_of op (bltz ∷ bltz_d ∷ [])
      then decode_bltz i m
      else decode_move i m
