-- ===== src/Simulator/Frame.antt =====
-- What no instruction changes: the program, the labels, the names of the registers and the count of
-- instructions. The program counter stays, or is one below a label.
pub mod Handlers
use mscs.Simulator.Execute.{Opcode, beq, bneq, bgtz, bltz, decode}
use mscs.Common.{
  ℕ, zero, suc, take, if◌then◌else◌, ◌≡◌, refl, sym, ◌∙◌, ap, Bool, true, false, not, Option, none,
  some, List, inl, inr, ◌⊎◌, arith, Option-cases, Bool-cases,
}
use mscs.Common.Int.{ℤ, sub_ℕ}
use mscs.Common.Outcome.{
  Outcome, ok, ◌>>=◌, guard, Post, holds, fails, stops, Post-bind, guard-eq_ok, Post-map,
  invalid_register,
}
use mscs.Common.Text.{Text, contains_text, find, atoi, print_int}
use mscs.Common.Dict.{Dict, lookup, contains, assign, keys, keys-assign}
use mscs.Simulator.Double.{Double}
use mscs.Simulator.Operand.{c_string, next_operand, dot_d}
use mscs.Simulator.Machine.{
  charge-Post, Machine, validate_register, integer_register, float_register, set_integer, set_float,
  subscript_cycles, charge,
}
use mscs.Simulator.Arithmetic.{
  three_registers, assign_integer, assign_float, execute_arithmetic, execute_add, execute_sub,
  execute_mul, execute_div, add_int, sub_int, mul_int, div_int, execute_noop, execute_move, convert,
}
use mscs.Simulator.Transfer.{
  first_register, offset_and_base, load_integer, load_float, store_integer, store_float, execute_l,
  execute_li, execute_s,
}
use mscs.Simulator.Branch.{
  jump, jump_if, branch_register, registers_equal, register_above, register_below, execute_beq,
  execute_bneq, execute_bgtz, execute_bltz,
}
use mscs.Simulator.Execute.{
  Opcode, noop, add, sub, mul, div, li, l, s, beq, bneq, bgtz, bltz, move, decode, execute_opcode,
  execute_split, execute_line,
}

-- The instructions that can jump, and the lines that hold one.
abbrev pub is_branch : Option Opcode → Bool
is_branch (some beq) = true
is_branch (some bneq) = true
is_branch (some bgtz) = true
is_branch (some bltz) = true
is_branch _ = false

abbrev pub branches_at : Text → Option ℕ → Bool
branches_at line (some (suc k)) = is_branch (decode (take (suc k) line))
branches_at line _ = false

abbrev pub line_branches : Text → Bool
line_branches line = branches_at line (find 32 line)

module _ {V : Type 0} where
  -- The program counter of `m`, or, if jumps are allowed, one below one of its labels.
  abbrev pub Goes : Bool → Machine V → ℤ → Type 0
  Goes b m pc =
      (pc ≡ m.program_counter)
      ⊎ ((b ≡ true)
          × (label : Text) × (t : ℕ) × (lookup label m.mlabels ≡ some t)
          × (pc ≡ sub_ℕ t 1))

  pub record Frame (b : Bool) (m m' : Machine V) : Type 0 where
    pub program : m'.vprogram ≡ m.vprogram
    pub labels : m'.mlabels ≡ m.mlabels
    pub integer_keys : keys m'.integer_registers ≡ keys m.integer_registers
    pub float_keys : keys m'.float_registers ≡ keys m.float_registers
    pub count : m'.instruction_count ≡ m.instruction_count
    pub counter : Goes b m m'.program_counter

  pub Frame-refl : {b : Bool} (m : Machine V) → Frame b m m
  Frame-refl m = record {
    program = refl;
    labels = refl;
    integer_keys = refl;
    float_keys = refl;
    count = refl;
    counter = inl refl;
  }

  Frame-cycles :
      {b : Bool} {m m' : Machine V} (d : Dict ℤ) (c : ℤ)
      → Frame b m m'
      → Frame b m (record m' { opcode_cycles = d; cycle_count = c })
  Frame-cycles d c h = record {
    program = h.program;
    labels = h.labels;
    integer_keys = h.integer_keys;
    float_keys = h.float_keys;
    count = h.count;
    counter = h.counter;
  }

  pub charge-Frame :
      {b : Bool} (op : Text) {m m' : Machine V} → Frame b m m' → Post (Frame b m) (charge op m')
  charge-Frame op {m} {m'} h = charge-Post op m' λ d c. Frame-cycles d c h

  pub set_integer-Frame :
      {b : Bool} (reg : Text) (v : ℤ) (m : Machine V)
      → validate_register false reg m ≡ true
      → Frame b m (set_integer reg v m)
  unfolding set_integer validate_register
  set_integer-Frame reg v m h = record {
    program = refl;
    labels = refl;
    integer_keys = keys-assign reg v m.integer_registers h;
    float_keys = refl;
    count = refl;
    counter = inl refl;
  }

  pub set_float-Frame :
      {b : Bool} (reg : Text) (v : V) (m : Machine V)
      → validate_register true reg m ≡ true
      → Frame b m (set_float reg v m)
  unfolding set_float validate_register
  set_float-Frame reg v m h = record {
    program = refl;
    labels = refl;
    integer_keys = refl;
    float_keys = keys-assign reg v m.float_registers h;
    count = refl;
    counter = inl refl;
  }

  module _ (is_double : Bool) (m : Machine V) where
    -- The names of the operands are registers that are there.
    abbrev AreRegisters : Text × Text × Text → Type 0
    AreRegisters names = validate_register is_double names.0 m ≡ true

    three_registers-AreRegisters :
        (line : Text) → Post AreRegisters (three_registers is_double line m)
    unfolding three_registers
    three_registers-AreRegisters line = Post-bind (next_operand 4 line) λ a _.
        Post-bind (guard (validate_register is_double a.0 m) invalid_register) λ _ valid.
          Post-bind (next_operand 4 a.1) λ b _.
            Post-bind (guard (validate_register is_double b.0 m) invalid_register) λ _ _.
              Post-bind (next_operand 4 b.1) λ c _.
                Post-bind (guard (validate_register is_double c.0 m) invalid_register)
                  λ _ _. holds (guard-eq_ok _ _ valid)

  assign_integer-Frame :
      {b : Bool} (operator : ℤ → ℤ → Outcome ℤ) (names : Text × Text × Text) (m : Machine V)
      → validate_register false names.0 m ≡ true
      → Post (Frame b m) (assign_integer operator names m)
  unfolding assign_integer
  assign_integer-Frame operator (target, _, _) m h =
      Post-bind _ λ v _. holds (set_integer-Frame target v m h)

  assign_float-Frame :
      {b : Bool} (zero_value : V) (operator : V → V → V) (names : Text × Text × Text)
      (m : Machine V)
      → validate_register true names.0 m ≡ true
      → Post (Frame b m) (assign_float zero_value operator names m)
  unfolding assign_float
  assign_float-Frame zero_value operator (target, _, _) m h = holds (set_float-Frame target _ m h)

  pub execute_arithmetic-Frame :
      {b : Bool} (zero_value : V) (f : ℤ → ℤ → Outcome ℤ) (g : V → V → V) (op line : Text)
      (m : Machine V)
      → Post (Frame b m) (execute_arithmetic zero_value f g op line m)
  unfolding execute_arithmetic
  execute_arithmetic-Frame zero_value f g op line m = elim (Bool-cases (contains_text dot_d op)) [
    | inl double ↦ rw double (
        Post-map (three_registers true line m) (three_registers-AreRegisters true m line)
          λ names valid.
            Post-map (assign_float zero_value g names m)
              (assign_float-Frame zero_value g names m valid) λ m' h. charge-Frame op h)
    | inr int ↦ rw int (
        Post-map (three_registers false line m) (three_registers-AreRegisters false m line)
          λ names valid.
            Post-map (assign_integer f names m) (assign_integer-Frame f names m valid)
              λ m' h. charge-Frame op h)
  ]

  -- A jump takes the machine one below a label.
  pub jump_if-Frame :
      (b : Bool) (label : Text) (m : Machine V) → Post (Frame true m) (jump_if b label m)
  unfolding jump_if jump
  jump_if-Frame false label m = holds (Frame-refl m)
  jump_if-Frame true label m = elim (Option-cases (lookup label m.mlabels)) [
    | inl e ↦ rw (e, jump) fails
    | inr (t, e) ↦
        rw (e, jump)
          (holds (record {
            program = refl;
            labels = refl;
            integer_keys = refl;
            float_keys = refl;
            count = refl;
            counter = inr (refl, label, t, e, refl);
          }))
  ]
