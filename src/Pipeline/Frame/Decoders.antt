-- ===== src/Pipeline/Frame/Decoders.antt =====
-- Every decoder, and so `instructionDecode`, keeps the frame.
use mscs.Common.{
  ℕ, suc, ◌-◌, take, drop, Bool, true, false, not, Option, none, some, ◌≡◌, refl, inl, inr,
  Option-cases, Bool-cases, ◌==◌,
}
use mscs.Common.Outcome.{guard, Post, holds, fails, Post-bind, Post-map, invalid_register}
use mscs.Common.Text.{Text, codes, starts_with, find, find_from, print_int}
use mscs.Common.Dict.{lookup}
use mscs.Simulator.Double.{Double}
use mscs.Simulator.Operand.{c_string, next_operand}
use mscs.Simulator.Transfer.{positive}
use mscs.Simulator.Execute.{
  Opcode, decode, noop, add, sub, mul, div, li, l, s, beq, bneq, bgtz, bltz, move,
}
use mscs.Simulator.Assembly.{drop_spaces}
use mscs.Pipeline.Buffers.{copy_into, print_into}
use mscs.Pipeline.Cpu.{Cpu, Target, validate_register, integer_register}
use mscs.Pipeline.Decode.Compare.{
  register_below, register_above, registers_equal, set_target, register_target, valid_operand,
  branch_to, branch, branch_if, compare_two, decode_two, compare_zero, decode_one, decode_beq,
  decode_bneq, decode_bgtz, decode_bltz,
}
use mscs.Pipeline.Decode.{
  read_register, load_a, load_b, decode_arithmetic, decode_address, address_unless,
  decode_load_store, decode_li, load_moved, decode_move, decode_opcode, opcode_end,
  instruction_decode,
}
use mscs.Pipeline.Frame.{
  Kept, Kept-refl, Same, Same-Kept, Kept-Same, Kept-from, unless_pending-Kept,
}

module _ {V : Type 0} where
  branch_to-Kept :
      (label : Text) (line : ℕ) (c : Cpu V)
      → lookup label c.mlabels ≡ some line
      → Kept c (branch_to line c)
  unfolding branch_to
  branch_to-Kept label line c e = elim (Bool-cases (line == c.program_counter)) [
    | inl same ↦ rw same (record { fields = refl; goes = inr (label, e) })
    | inr other ↦ rw other (record { fields = refl; goes = inr (label, e) })
  ]

  branch_if-Kept : (b : Bool) (label : Text) (c : Cpu V) → Post (Kept c) (branch_if b label c)
  unfolding branch_if branch
  branch_if-Kept true label c = elim (Option-cases (lookup label c.mlabels)) [
    | inl e ↦ rw (e, branch) fails
    | inr (line, e) ↦ rw (e, branch) (holds (branch_to-Kept label line c e))
  ]
  branch_if-Kept false label c = holds (Kept-refl c)

module _ (D : Double) where
  open D use {Value}

  compare_two-Kept :
      (test : Bool → Text → Text → Cpu Value → Bool) (source1 rest : Text) (c : Cpu Value)
      → Post (Kept c) (compare_two D test source1 rest c)
  unfolding compare_two
  compare_two-Kept test source1 rest c =
      Post-bind (valid_operand 20 c.decode_execute.is_double rest c) λ a _.
        Post-bind (next_operand 20 a.1)
          λ b _. branch_if-Kept (test c.decode_execute.is_double source1 a.0 c) b.0 c

  decode_two-Kept :
      (test : Bool → Text → Text → Cpu Value → Bool) (line : Text) (c : Cpu Value)
      → Post (Kept c) (decode_two D test line c)
  unfolding decode_two
  decode_two-Kept test line c =
      Post-bind (valid_operand 20 c.decode_execute.is_double line c) λ a _.
        unless_pending-Kept D a.0 c (compare_two D test a.0 a.1) (compare_two-Kept test a.0 a.1)

  compare_zero-Kept :
      (test : Bool → Text → Cpu Value → Bool) (source rest : Text) (c : Cpu Value)
      → Post (Kept c) (compare_zero D test source rest c)
  unfolding compare_zero
  compare_zero-Kept test source rest c =
      Post-bind (next_operand 20 rest)
        λ b _. branch_if-Kept (test c.decode_execute.is_double source c) b.0 c

  decode_one-Kept :
      (test : Bool → Text → Cpu Value → Bool) (line : Text) (c : Cpu Value)
      → Post (Kept c) (decode_one D test line c)
  unfolding decode_one
  decode_one-Kept test line c =
      Post-bind (valid_operand 20 c.decode_execute.is_double line c) λ a _.
        unless_pending-Kept D a.0 c (compare_zero D test a.0 a.1) (compare_zero-Kept test a.0 a.1)

  load_a-Same : (reg : Text) (c : Cpu Value) → Post (Same c) (load_a D reg c)
  unfolding load_a
  load_a-Same reg c =
      Post-bind (read_register D c.decode_execute.is_double reg c.temp_a c)
        λ a _. holds (record { fields = refl; counter = refl })

  load_b-Kept : (reg : Text) (c : Cpu Value) → Post (Kept c) (load_b D reg c)
  unfolding load_b
  load_b-Kept reg c =
      Post-bind (read_register D c.decode_execute.is_double reg c.temp_b c)
        λ a _. holds (record { fields = refl; goes = inl refl })

  set_target-Same :
      (name : Text) (target : Target) (c : Cpu Value) → Same c (set_target name target c)
  unfolding set_target
  set_target-Same name target c = record { fields = refl; counter = refl }

  decode_arithmetic-Kept :
      (line : Text) (c : Cpu Value) → Post (Kept c) (decode_arithmetic D line c)
  unfolding decode_arithmetic
  decode_arithmetic-Kept line c =
      Post-bind (valid_operand 4 c.decode_execute.is_double line c) λ a _.
        let c1 = set_target a.0 (register_target c.decode_execute.is_double a.0) c in
        Post-bind (valid_operand 4 c.decode_execute.is_double a.1 c1) λ b _.
          Kept-from (set_target-Same a.0 (register_target c.decode_execute.is_double a.0) c) (
            unless_pending-Kept D b.0 c1 _ λ c2.
              Post-map (load_a D b.0 c2) (load_a-Same b.0 c2) λ c3 same.
                Post-bind (valid_operand 4 c3.decode_execute.is_double b.1 c3) λ d _.
                  Kept-from same (unless_pending-Kept D d.0 c3 (load_b D d.0) (load_b-Kept d.0)))

  decode_address-Kept : (line : Text) (c : Cpu Value) → Post (Kept c) (decode_address D line c)
  unfolding decode_address
  decode_address-Kept line c = Post-bind (positive (find b'(' line)) λ i _.
      Post-bind (copy_into (take i line) c.temp_a) λ a _.
        Post-bind (positive (find_from b')' i line)) λ i2 _.
          Post-bind (c_string 3 (take (i2 - i - 1) (drop (suc i) line))) λ base _.
            Post-bind (guard (validate_register false base c) invalid_register) λ _ _.
              Kept-from (record { fields = refl; counter = refl })
                (unless_pending-Kept D base (record c { temp_a = a }) _
                  λ c'.
                    Post-bind (print_into (print_int (integer_register base c')) c'.temp_b)
                      λ b _. holds (record { fields = refl; goes = inl refl }))

  address_unless-Kept :
      (is_store : Bool) (reg line : Text) (c : Cpu Value)
      → Post (Kept c) (address_unless D is_store reg line c)
  unfolding address_unless
  address_unless-Kept true reg line c =
      unless_pending-Kept D reg c (decode_address D line) (decode_address-Kept line)
  address_unless-Kept false reg line c = decode_address-Kept line c

  decode_load_store-Kept :
      (op line : Text) (c : Cpu Value) → Post (Kept c) (decode_load_store D op line c)
  unfolding decode_load_store
  decode_load_store-Kept op line c = Post-bind (positive (find b',' line)) λ i _.
      Post-bind (c_string 4 (take i line)) λ reg _.
        Post-bind (guard (validate_register c.decode_execute.is_double reg c) invalid_register)
          λ _ _.
            Kept-from (set_target-Same _ _ c)
              (address_unless-Kept (starts_with (codes "S") op) reg (drop (suc i) line) _)

  decode_li-Kept : (line : Text) (c : Cpu Value) → Post (Kept c) (decode_li D line c)
  unfolding decode_li set_target
  decode_li-Kept line c = Post-bind (positive (find b',' line)) λ i _.
      Post-bind (c_string 4 (take i line)) λ reg _.
        Post-bind (guard (validate_register c.decode_execute.is_double reg c) invalid_register)
          λ _ _.
            Post-bind (copy_into (drop (suc i) line) c.immediate)
              λ imm _. holds (record { fields = refl; goes = inl refl })

  load_moved-Same : (reg : Text) (c : Cpu Value) → Post (Same c) (load_moved D reg c)
  unfolding load_moved
  load_moved-Same reg c =
      Post-bind (print_into _ c.temp_a) λ a _. holds (record { fields = refl; counter = refl })

  decode_move-Kept : (line : Text) (c : Cpu Value) → Post (Kept c) (decode_move D line c)
  unfolding decode_move
  decode_move-Kept line c = Post-bind (valid_operand 4 c.decode_execute.is_double line c) λ a _.
      unless_pending-Kept D a.0 c _ λ c1.
        Post-map (load_moved D a.0 c1) (load_moved-Same a.0 c1) λ c2 same.
          Post-bind (valid_operand 4 (not c2.decode_execute.is_double) a.1 c2)
            λ b _. holds (Same-Kept same (Kept-Same (set_target-Same b.0 _ c2)))

  decode_opcode-Kept :
      (code : Option Opcode) (op line : Text) (c : Cpu Value)
      → Post (Kept c) (decode_opcode D code op line c)
  unfolding decode_opcode decode_beq decode_bneq decode_bgtz decode_bltz
  decode_opcode-Kept none op line c = fails
  decode_opcode-Kept (some noop) op line c = holds (Kept-refl c)
  decode_opcode-Kept (some add) op line c = decode_arithmetic-Kept line c
  decode_opcode-Kept (some sub) op line c = decode_arithmetic-Kept line c
  decode_opcode-Kept (some mul) op line c = decode_arithmetic-Kept line c
  decode_opcode-Kept (some div) op line c = decode_arithmetic-Kept line c
  decode_opcode-Kept (some li) op line c = decode_li-Kept line c
  decode_opcode-Kept (some l) op line c = decode_load_store-Kept op line c
  decode_opcode-Kept (some s) op line c = decode_load_store-Kept op line c
  decode_opcode-Kept (some beq) op line c = decode_two-Kept (registers_equal D) line c
  decode_opcode-Kept (some bneq) op line c =
      decode_two-Kept (λ is_double a b c'. not (registers_equal D is_double a b c')) line c
  decode_opcode-Kept (some bgtz) op line c = decode_one-Kept (register_above D) line c
  decode_opcode-Kept (some bltz) op line c = decode_one-Kept (register_below D) line c
  decode_opcode-Kept (some move) op line c = decode_move-Kept line c

  pub instruction_decode-Kept : (c : Cpu Value) → Post (Kept c) (instruction_decode D c)
  unfolding instruction_decode
  instruction_decode-Kept c =
      let instruction = drop_spaces c.ir_buffered in
      Post-bind (opcode_end (find 32 instruction) instruction) λ i _.
        Post-bind (c_string 10 (take i instruction)) λ op _.
          Kept-from (record { fields = refl; counter = refl })
            (decode_opcode-Kept (decode op) op _ _)
