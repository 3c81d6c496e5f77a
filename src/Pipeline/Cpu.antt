-- ===== src/Pipeline/Cpu.antt =====
-- The global state of sim_p.cpp: registers, memory and program as in the sequential simulator, the
-- latches between the stages with their buffered copies, and the flags of the control.
use mscs.Common.{ℕ, Bool, false, if◌then◌else◌, none, some, List, []}
use mscs.Common.Int.{ℤ, pos}
use mscs.Common.Text.{Text, codes}
use mscs.Common.Dict.{Dict, lookup, contains, assign, insert}
use mscs.Simulator.Machine.{integer_names, float_names}
use mscs.Simulator.Machine
use mscs.Pipeline.Buffers.{zeros}

-- `void *target`: a null pointer, or the address of a register's value.
pub data Target : Type 0 where
  null : Target
  integer_target float_target : Text → Target

-- The fields that `DECODE_EXECUTE`, `EXECUTE_MEM` and `MEM_WB` share.
pub record Latch : Type 0 where
  pub target : Target
  pub target_register : Text
  pub is_double : Bool
  pub opcode : Text
  pub instruction : Text

-- `EXECUTE_MEM`, with `char ALUOutput[20]`, and `MEM_WB`, with `char output[20]`.
pub record DataLatch : Type 0 where
  pub latch : Latch
  pub output : List ℕ

abbrev pub no_latch : Latch
no_latch = record {
  target = null;
  target_register = [];
  is_double = false;
  opcode = [];
  instruction = [];
}

abbrev pub no_data : DataLatch
no_data = record { latch = no_latch; output = zeros }

pub record Cpu (V : Type 0) : Type 0 where
  pub opcode_cycles : Dict ℤ
  pub integer_registers : Dict ℤ
  pub float_registers : Dict V
  pub mlabels : Dict ℕ
  pub vprogram : List Text
  pub mem : ℕ → ℕ
  pub ir : Text
  pub ir_buffered : Text
  pub temp_a : List ℕ
  pub temp_b : List ℕ
  pub immediate : List ℕ
  pub temp_a_buffered : List ℕ
  pub temp_b_buffered : List ℕ
  pub immediate_buffered : List ℕ
  pub cycle_count : ℕ
  pub stall_count : ℕ
  pub instruction_count : ℕ
  pub program_counter : ℕ
  pub stall_if : Bool
  pub freeze : Bool
  pub execute_cycle : ℤ
  pub decode_execute : Latch
  pub decode_execute_buffered : Latch
  pub execute_mem : DataLatch
  pub execute_mem_buffered : DataLatch
  pub mem_wb : DataLatch
  pub mem_wb_buffered : DataLatch

module _ {V : Type 0} where
  -- `initializeRegisters`
  unfoldable pub initialize_registers : V → Cpu V → Cpu V
  unfolding Machine.insert_all assign
  initialize_registers zero_value c = record c {
    integer_registers =
        assign (codes "R0") (pos 0) (Machine.insert_all integer_names (pos 0) c.integer_registers);
    float_registers = Machine.insert_all float_names zero_value c.float_registers;
    temp_a = zeros;
    temp_b = zeros;
    immediate = zeros;
  }

  -- `validateRegister`
  unfoldable pub validate_register : Bool → Text → Cpu V → Bool
  unfolding contains
  validate_register is_double reg c =
      if is_double then contains reg c.float_registers else contains reg c.integer_registers

  -- `integer_registers[reg]` and `float_registers[reg]`, of a register that is there.
  unfoldable pub integer_register : Text → Cpu V → ℤ
  integer_register reg c = elim (lookup reg c.integer_registers) [ none ↦ pos 0 | some v ↦ v ]

  unfoldable pub float_register : V → Text → Cpu V → V
  float_register zero_value reg c = elim (lookup reg c.float_registers) [
    | none ↦ zero_value
    | some v ↦ v
  ]

  -- `*target = ..`
  unfoldable pub set_integer : Text → ℤ → Cpu V → Cpu V
  set_integer reg v c = record c { integer_registers = assign reg v c.integer_registers }

  unfoldable pub set_float : Text → V → Cpu V → Cpu V
  set_float reg v c = record c { float_registers = assign reg v c.float_registers }

  -- `opcode_cycles[cOpCode]`, which inserts 0 for a key that is not there.
  unfoldable pub cycles_of : Text → Cpu V → ℤ
  cycles_of op c = elim (lookup op c.opcode_cycles) [ none ↦ pos 0 | some v ↦ v ]

  unfoldable pub subscript_cycles : Text → Cpu V → Cpu V
  unfolding insert
  subscript_cycles op c = record c { opcode_cycles = insert op (pos 0) c.opcode_cycles }
