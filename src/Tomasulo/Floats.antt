-- ===== src/Tomasulo/Floats.antt =====
-- The branches of floats, which `FloatAdd` executes.
use mscs.Common.{
  if_either, ◌≡◌, refl, ◌∙◌, Bool, true, false, not, ◌&&◌, ◌||◌, ltb, if◌then◌else◌, List, [], ◌∷◌,
  arith,
}
use mscs.Common.Outcome.{ok, Post, holds, Post-bind, Post-if, Post-weaken}
use mscs.Common.Text.{Text}
use mscs.Simulator.Double.{Double}
use mscs.Tomasulo.Types.{
  Opcode, add_d, sub_d, beq, bneq, bgtz, bltz, beq_d, bneq_d, bgtz_d, bltz_d, move_d, Pointer,
  FinalValue, Instruction, Machine, FunctionalUnit, ArithmeticUnit,
}
use mscs.Tomasulo.Registers.{File, float_file, may_take, is_null, eq_opcode, send_to_write_back}
use mscs.Tomasulo.Units.{keep_running, at_start, begin, send_or_wait}
use mscs.Tomasulo.Adders.{
  is_one_of, release_branch, jump_if, fetch_some, advance, fadd_cycle, fadd_branch, fadd_finish,
  execute_fadd,
}
use mscs.Tomasulo.Reserved.{IsOnly, set_wait_on-Untouched, float_file-IsOnly}

abbrev pub float_opcodes : List Opcode
float_opcodes = add_d ∷ sub_d ∷ beq_d ∷ bneq_d ∷ bgtz_d ∷ bltz_d ∷ move_d ∷ []

-- None of them is the opcode of an integer branch, which `FloatAdd::execute` compares with.
not_integer :
    (op : Opcode)
    → is_one_of op float_opcodes ≡ true
    → (eq_opcode op bneq ≡ false)
      × (eq_opcode op beq ≡ false)
      × (eq_opcode op bltz ≡ false)
      × (eq_opcode op bgtz ≡ false)
not_integer op h = ground arith

-- The program counter is as before.
abbrev SameCounter : {V : Type 0} → Machine V → Machine V → Type 0
SameCounter m m' = m'.program_counter ≡ m.program_counter

module _ {V S : Type 0} (R : File V S) where
  begin-SameCounter :
      IsOnly R → (u : FunctionalUnit V) (m : Machine V) → SameCounter m (begin R u m).1
  unfolding begin
  begin-SameCounter only u m =
      if_either {A = FunctionalUnit V × Machine V} (λ r. SameCounter m r.1)
        (not (is_null u.ins.target) && may_take R u.my_id u.ins.target_reg m)
        (set_wait_on-Untouched R only u.ins.target_reg u.my_id m).counter refl

  advance-SameCounter :
      IsOnly R
      → (b : Bool) (u : ArithmeticUnit V S) (m : Machine V) → SameCounter m (advance R b u m).1
  unfolding advance
  advance-SameCounter only b u m =
      if_either {A = ArithmeticUnit V S × Machine V} (λ r. SameCounter m r.1) (at_start u.fu && b)
        (begin-SameCounter only u.fu m) refl

module _ (D : Double) where
  open D use {Value, zero_value, equal, above_zero, below_zero}

  no_jump :
      (i : Instruction) (m : Machine Value) (b : Bool)
      → b ≡ false
      → SameCounter m (jump_if b i (release_branch m))
  unfolding jump_if release_branch
  no_jump i m true h = cc
  no_jump i m false h =
      if_either {A = Machine Value} (λ n. SameCounter m n) m.stall_due_to_branch refl refl

  fadd_branch-SameCounter :
      (u : ArithmeticUnit Value Value) (m : Machine Value)
      → is_one_of u.fu.ins.opcode float_opcodes ≡ true
      → SameCounter m (fadd_branch D u m)
  unfolding fadd_branch
  fadd_branch-SameCounter u m h =
      let (ne, eq, lt, gt) = not_integer u.fu.ins.opcode h in
      if_either {A = Machine Value} (λ n. SameCounter m n)
        (is_one_of u.fu.ins.opcode (bneq_d ∷ beq_d ∷ [])) (no_jump u.fu.ins m _ (rw (ne, eq) refl))
        (if_either {A = Machine Value} (λ n. SameCounter m n)
          (is_one_of u.fu.ins.opcode (bltz_d ∷ bgtz_d ∷ []))
          (no_jump u.fu.ins m _ (rw (lt, gt) refl)) refl)

  send-SameCounter :
      (b : Bool) (v : FinalValue Value) (t : Pointer) (reg : Text) (m : Machine Value)
      → SameCounter m (send_to_write_back D b v t reg m).1
  unfolding send_to_write_back
  send-SameCounter b v t reg m =
      if_either {A = Bool × Machine Value} (λ r. SameCounter m r.1) m.write_back.busy refl refl

  send_or_wait-SameCounter :
      (b : Bool) (v : FinalValue Value) (u : ArithmeticUnit Value Value) (m : Machine Value)
      → SameCounter m (send_or_wait D zero_value b v u m).1
  unfolding send_or_wait
  send_or_wait-SameCounter b v u m =
      let r = send_to_write_back D b v u.fu.ins.target u.fu.ins.target_reg m in
      let same = send-SameCounter b v u.fu.ins.target u.fu.ins.target_reg m in
      if_either {A = ArithmeticUnit Value Value × Machine Value} (λ x. SameCounter m x.1) r.0 same
        same

  fadd_cycle-SameCounter :
      (u : ArithmeticUnit Value Value) (m : Machine Value)
      → Post (λ r. SameCounter m r.1) (fadd_cycle D u m)
  unfolding fadd_cycle
  fadd_cycle-SameCounter u m =
      let op = u.fu.ins.opcode in
      let two = is_one_of op (sub_d ∷ add_d ∷ bneq_d ∷ beq_d ∷ []) in
      let one = is_one_of op (bltz_d ∷ bgtz_d ∷ move_d ∷ []) in
      Post-bind (if at_start u.fu then fetch_some (float_file zero_value) two u m else ok u) λ u' e.
        holds (
          if_either {A = ArithmeticUnit Value Value × Machine Value} (λ x. SameCounter m x.1)
            ((two && not (is_null u'.j.v) && not (is_null u'.k.v)) || (one && not (is_null u'.j.v)))
            (advance-SameCounter (float_file zero_value) (float_file-IsOnly zero_value) _ u' m)
            refl)

  keep_running-SameCounter : (b : Bool) (m : Machine Value) → SameCounter m (keep_running b m)
  unfolding keep_running
  keep_running-SameCounter b m = if_either {A = Machine Value} (λ n. SameCounter m n) b refl refl

  -- Whatever a unit of `FloatAdd` executes, of the opcodes that it is given, where that is defined:
  -- the program counter stays. A branch on floats is never taken.
  pub execute_fadd-never_jumps :
      (u : ArithmeticUnit Value Value) (m : Machine Value)
      → is_one_of u.fu.ins.opcode float_opcodes ≡ true
      → Post (λ r. r.1.program_counter ≡ m.program_counter) (execute_fadd D u m)
  unfolding execute_fadd fadd_finish
  execute_fadd-never_jumps u m h =
      let m' = keep_running u.fu.busy m in
      let same = keep_running-SameCounter u.fu.busy m in
      Post-if (u.fu.do_not_execute || not u.fu.busy) (holds same) (
        Post-if (ltb 0 u.fu.remaining) (Post-weaken (fadd_cycle-SameCounter u m') λ r e. e ∙ same) (
          holds (
            if_either {A = ArithmeticUnit Value Value × Machine Value} (λ x. SameCounter m x.1)
              (is_one_of u.fu.ins.opcode (add_d ∷ sub_d ∷ move_d ∷ []))
              (send_or_wait-SameCounter _ _ u m' ∙ same)
              (if_either {A = Machine Value} (λ n. SameCounter m n) u.fu.wait_to_write_back same
                (fadd_branch-SameCounter u m' h ∙ same)))))
