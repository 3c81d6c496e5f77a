-- ===== src/Simulator/Machine.antt =====
-- The global state of sim_seq.cpp: the register files, the labels, the program, the memory and the
-- counters. `char *mem` points to 2^20 bytes; they are a function of the address, and the code
-- that models an access checks the bounds. Cycle counts are `long`, taken as unbounded.
use mscs.Common.{Option-cases, inl, inr, ℕ, Bool, if◌then◌else◌, none, some, List, [], ◌∷◌}
use mscs.Common.Int.{ℤ, pos, ◌+ℤ◌}
use mscs.Common.Outcome.{Post, Post-bind, holds, Outcome, ok, ◌>>=◌}
use mscs.Common.Text.{Text, codes}
use mscs.Common.Dict.{Dict, lookup, contains, assign, insert}
use mscs.Simulator.Operand.{c_string}

pub record Machine (V : Type 0) : Type 0 where
  pub opcode_cycles : Dict ℤ
  pub integer_registers : Dict ℤ
  pub float_registers : Dict V
  pub mlabels : Dict ℕ
  pub vprogram : List Text
  pub mem : ℕ → ℕ
  pub cycle_count : ℤ
  pub instruction_count : ℕ
  pub program_counter : ℤ

-- 1024 * 1024
abbrev pub memory_size : ℕ
memory_size = 0x10_0000

abbrev pub integer_names : List Text
integer_names =
    codes "R0"
    ∷ codes "R1"
    ∷ codes "R2"
    ∷ codes "R3"
    ∷ codes "R4"
    ∷ codes "R5"
    ∷ codes "R6"
    ∷ codes "R7"
    ∷ codes "R8"
    ∷ codes "R9"
    ∷ codes "R10"
    ∷ codes "R11"
    ∷ codes "R12"
    ∷ codes "R13"
    ∷ codes "R14"
    ∷ codes "R15"
    ∷ []

abbrev pub float_names : List Text
float_names =
    codes "F0"
    ∷ codes "F1"
    ∷ codes "F2"
    ∷ codes "F3"
    ∷ codes "F4"
    ∷ codes "F5"
    ∷ codes "F6"
    ∷ codes "F7"
    ∷ codes "F8"
    ∷ codes "F9"
    ∷ codes "F10"
    ∷ codes "F11"
    ∷ codes "F12"
    ∷ codes "F13"
    ∷ codes "F14"
    ∷ codes "F15"
    ∷ []

unfoldable pub insert_all {ℓ} : {V : Type ℓ} → List Text → V → Dict V → Dict V
unfolding insert
insert_all [] v d = d
insert_all (k ∷ ks) v d = insert_all ks v (insert k v d)

module _ {V : Type 0} where
  -- `initializeRegisters`
  unfoldable pub initialize_registers : V → Machine V → Machine V
  unfolding insert_all assign
  initialize_registers zero_value m = record m {
    integer_registers =
        assign (codes "R0") (pos 0) (insert_all integer_names (pos 0) m.integer_registers);
    float_registers = insert_all float_names zero_value m.float_registers;
  }

  -- `validateRegister`
  unfoldable pub validate_register : Bool → Text → Machine V → Bool
  unfolding contains
  validate_register is_double reg m =
      if is_double then contains reg m.float_registers else contains reg m.integer_registers

  -- `integer_registers[reg]` and `float_registers[reg]`, of a register that is there.
  unfoldable pub integer_register : Text → Machine V → ℤ
  integer_register reg m = elim (lookup reg m.integer_registers) [ none ↦ pos 0 | some v ↦ v ]

  unfoldable pub float_register : V → Text → Machine V → V
  float_register zero_value reg m = elim (lookup reg m.float_registers) [
    | none ↦ zero_value
    | some v ↦ v
  ]

  unfoldable pub set_integer : Text → ℤ → Machine V → Machine V
  set_integer reg v m = record m { integer_registers = assign reg v m.integer_registers }

  unfoldable pub set_float : Text → V → Machine V → Machine V
  set_float reg v m = record m { float_registers = assign reg v m.float_registers }

  -- `opcode_cycles[op]`, which inserts 0 for a key that is not there.
  unfoldable pub subscript_cycles : Text → Machine V → ℤ × Machine V
  subscript_cycles op m = elim (lookup op m.opcode_cycles) [
    | some v ↦ (v, m)
    | none ↦ (pos 0, record m { opcode_cycles = assign op (pos 0) m.opcode_cycles })
  ]

  -- The last lines of every handler, from `char cOpCode[10]` on.
  unfoldable pub charge : Text → Machine V → Outcome (Machine V)
  unfolding subscript_cycles
  charge op m = do
    name ← c_string 10 op
    let (cycles, m') = subscript_cycles name m
    ok (record m' { cycle_count = m'.cycle_count +ℤ cycles })

  -- What holds whatever the counters of cycles are holds behind `charge`.
  pub charge-Post :
      {P : Machine V → Type 0} (op : Text) (m : Machine V)
      → ((d : Dict ℤ) (c : ℤ) → P (record m { opcode_cycles = d; cycle_count = c }))
      → Post P (charge op m)
  unfolding charge
  charge-Post op m h = Post-bind (c_string 10 op) λ name _.
      elim (Option-cases (lookup name m.opcode_cycles)) [
        | inl e ↦ rw (e, subscript_cycles) (holds (h _ _))
        | inr (v, e) ↦ rw (e, subscript_cycles) (holds (h _ _))
      ]
