-- ===== src/Tomasulo/Types.antt =====
-- The types of sim_t.h: opcodes, registers, instructions, functional units and the global state.
use mscs.Common.{ℕ, Bool, false, Option, List, []}
use mscs.Common.Int.{ℤ, pos, negsuc}
use mscs.Common.Text.{Text}
use mscs.Common.Dict.{Dict}

pub data Opcode : Type 0 where
  noop add add_d div div_d sub sub_d mul mul_d load_immediate load store load_d store_d beq bneq
        bgtz bltz move beq_d bneq_d bgtz_d bltz_d move_d :
      Opcode

-- The numbers of the enumeration.
abbrev pub code : Opcode → ℕ
code noop = 0
code add = 1
code add_d = 2
code div = 3
code div_d = 4
code sub = 5
code sub_d = 6
code mul = 7
code mul_d = 8
code load_immediate = 9
code load = 10
code store = 11
code load_d = 12
code store_d = 13
code beq = 14
code bneq = 15
code bgtz = 16
code bltz = 17
code move = 18
code beq_d = 19
code bneq_d = 20
code bgtz_d = 21
code bltz_d = 22
code move_d = 23

-- `waitOnFUid` is `none` where the code has -1.
pub record Register (S : Type 0) : Type 0 where
  pub val : S
  pub wait_on : Option ℕ

-- A `void *` of the code: no address, or that of a register of one of the two files. The maps
-- never move their elements.
pub data Pointer : Type 0 where
  null : Pointer
  integer_at : Text → Pointer
  float_at : Text → Pointer

-- `union final_val`, with the member that was written last. To read the other one is undefined.
pub data FinalValue (V : Type 0) : Type 0 where
  ival : ℤ → FinalValue V
  dval : V → FinalValue V

-- The fields that the code only writes (`istage`, `cImmediate`, `sImmediate`) are left out.
pub record Instruction : Type 0 where
  pub s_instruction : Text
  pub s_line : Text
  pub opcode : Opcode
  pub temp_a : Text
  pub branch_target : ℤ
  pub is_double : Bool
  pub source_reg1 : Text
  pub source_reg2 : Text
  pub target_reg : Text
  pub target : Pointer
  pub i_immediate : ℤ

-- `Instruction()`
abbrev pub blank_instruction : Instruction
blank_instruction = record {
  s_instruction = [];
  s_line = [];
  opcode = noop;
  temp_a = [];
  branch_target = negsuc 0;
  is_double = false;
  source_reg1 = [];
  source_reg2 = [];
  target_reg = [];
  target = null;
  i_immediate = pos 0;
}

-- `instructionReset`, which keeps the branch target and the offset.
unfoldable pub instruction_reset : Instruction → Instruction
instruction_reset i = record i {
  is_double = false;
  opcode = noop;
  s_instruction = [];
  source_reg1 = [];
  source_reg2 = [];
  target_reg = [];
  s_line = [];
  target = null;
  i_immediate = pos 0;
}

pub record WriteBack (V : Type 0) : Type 0 where
  pub target_reg : Text
  pub is_double : Bool
  pub busy : Bool
  pub val : FinalValue V
  pub target : Pointer

-- What the units and the stages share. `memAddress` and the counts of cycles are whole numbers;
-- a count that is not positive is 0, as the code treats both alike.
pub record Machine (V : Type 0) : Type 0 where
  pub integer_registers : Dict (Register ℤ)
  pub float_registers : Dict (Register V)
  pub write_back : WriteBack V
  pub mem : ℕ → ℕ
  pub mlabels : Dict ℕ
  pub opcode_cycles : Opcode → Option ℤ
  pub unit_counts : Dict ℤ
  pub program_counter : ℤ
  pub trigger_end : Bool
  pub stall_if : Bool
  pub stall_due_to_branch : Bool
  pub freeze : Bool
  pub stall_due_to_rs : ℕ → Bool

-- The class `FunctionalUnit`.
pub record FunctionalUnit (V : Type 0) : Type 0 where
  pub ins : Instruction
  pub my_id : ℕ
  pub busy : Bool
  pub final_value : FinalValue V
  pub do_not_execute : Bool
  pub i_count : ℕ
  pub remaining : ℕ
  pub wait_to_write_back : Bool

-- `LSReservationStation`; `lsType` is the list that the unit stands in.
pub record MemoryUnit (V : Type 0) : Type 0 where
  pub fu : FunctionalUnit V
  pub mem_address : ℤ

-- An operand of an arithmetic unit: `Vj`, `Qj` and `s1`, or `Vk`, `Qk` and `s2`.
pub record Operand (S : Type 0) : Type 0 where
  pub v : Pointer
  pub q : Pointer
  pub s : S

-- `IntegerAdd`, `IntegerMul`, `IntegerDiv` (of `int`s), and `FloatAdd`, `FloatMul`, `FloatDiv`.
pub record ArithmeticUnit (V S : Type 0) : Type 0 where
  pub fu : FunctionalUnit V
  pub j : Operand S
  pub k : Operand S

pub record Stations (V : Type 0) : Type 0 where
  pub load_rs : List (MemoryUnit V)
  pub store_rs : List (MemoryUnit V)
  pub iadd_rs : List (ArithmeticUnit V ℤ)
  pub imul_rs : List (ArithmeticUnit V ℤ)
  pub idiv_rs : List (ArithmeticUnit V ℤ)
  pub fadd_rs : List (ArithmeticUnit V V)
  pub fmul_rs : List (ArithmeticUnit V V)
  pub fdiv_rs : List (ArithmeticUnit V V)
