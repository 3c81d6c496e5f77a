-- ===== src/Simulator/Frame/Handlers.antt =====
-- Every handler, and so every line of a program, keeps the frame.
use mathlib.Core.Path.{subst}
use mscs.Common.{
  drop, ℕ, zero, suc, take, if◌then◌else◌, ◌≡◌, refl, Bool, true, false, not, Option, none, some,
  inl, inr, Option-cases,
}
use mscs.Common.Outcome.{
  guard, Post, holds, fails, stops, Post-bind, guard-eq_ok, Post-map, invalid_register,
}
use mscs.Common.Text.{Text, contains_text, find, atoi, print_int}
use mscs.Simulator.Double.{Double}
use mscs.Simulator.Operand.{c_string-eq_ok, c_string, next_operand, dot_d}
use mscs.Simulator.Machine.{Machine, validate_register, integer_register, float_register}
use mscs.Simulator.Arithmetic.{
  execute_add, execute_sub, execute_mul, execute_div, add_int, sub_int, mul_int, div_int,
  execute_noop, execute_move, convert,
}
use mscs.Simulator.Transfer.{
  read_mem, until_nul, address, positive, first_register, offset_and_base, load_integer, load_float,
  store_integer, store_float, execute_l, execute_li, execute_s,
}
use mscs.Simulator.Branch.{
  jump_if, branch_register, registers_equal, register_above, register_below, execute_beq,
  execute_bneq, execute_bgtz, execute_bltz,
}
use mscs.Simulator.Execute.{
  ltrim, Opcode, noop, add, sub, mul, div, li, l, s, beq, bneq, bgtz, bltz, move, decode,
  execute_opcode, execute_split, execute_line,
}
use mscs.Simulator.Frame.{
  branches_at, line_branches, is_branch, Frame, Frame-refl, charge-Frame, set_integer-Frame,
  set_float-Frame, execute_arithmetic-Frame, jump_if-Frame,
}

module _ (D : Double) where
  open D use {Value}

  convert-Frame :
      {b : Bool} (is_double : Bool) (source target : Text) (m : Machine Value)
      → validate_register (not is_double) target m ≡ true
      → Post (Frame b m) (convert D is_double source target m)
  unfolding convert
  convert-Frame true source target m h =
      elim (Option-cases (D.to_int (float_register D.zero_value source m))) [
        | inl e ↦ rw (e, convert) stops
        | inr (v, e) ↦ rw (e, convert) (holds (set_integer-Frame target v m h))
      ]
  convert-Frame false source target m h = holds (set_float-Frame target _ m h)

  execute_move-Frame :
      {b : Bool} (op line : Text) (m : Machine Value) → Post (Frame b m) (execute_move D op line m)
  unfolding execute_move
  execute_move-Frame op line m = Post-bind (next_operand 4 line) λ a _.
      Post-bind (guard (validate_register (contains_text dot_d op) a.0 m) invalid_register) λ _ _.
        Post-bind (next_operand 4 a.1) λ b _.
          Post-bind
            (guard (validate_register (not (contains_text dot_d op)) b.0 m) invalid_register)
            λ _ valid.
              Post-map (convert D (contains_text dot_d op) a.0 b.0 m)
                (convert-Frame (contains_text dot_d op) a.0 b.0 m (guard-eq_ok _ _ valid))
                λ m' h. charge-Frame op h

  load-Frame :
      {b : Bool} (is_double : Bool) (target offset base : Text) (m : Machine Value)
      → validate_register is_double target m ≡ true
      → Post (Frame b m) (
          if is_double
          then load_float D target offset base m
          else load_integer target offset base m)
  unfolding load_float load_integer
  load-Frame true target offset base m h = Post-bind (atoi offset) λ k _.
      Post-bind (address 8 (integer_register base m) k) λ a _. holds (set_float-Frame target _ m h)
  load-Frame false target offset base m h = Post-bind (atoi offset) λ k _.
      Post-bind (address 4 (integer_register base m) k) λ a _.
        Post-bind (atoi (until_nul (read_mem 4 a m.mem)))
          λ v _. holds (set_integer-Frame target v m h)

  Frame-mem : {b : Bool} {m : Machine Value} (f : ℕ → ℕ) → Frame b m (record m { mem = f })
  Frame-mem f = record {
    program = refl;
    labels = refl;
    integer_keys = refl;
    float_keys = refl;
    count = refl;
    counter = inl refl;
  }

  store-Frame :
      {b : Bool} (is_double : Bool) (source offset base : Text) (m : Machine Value)
      → Post (Frame b m) (
          if is_double
          then store_float D source offset base m
          else store_integer source offset base m)
  unfolding store_float store_integer
  store-Frame true source offset base m =
      Post-bind (c_string 9 (D.print (float_register D.zero_value source m))) λ number _.
        Post-bind (atoi offset)
          λ k _. Post-bind (address 8 (integer_register base m) k) λ a _. holds (Frame-mem _)
  store-Frame false source offset base m =
      Post-bind (c_string 5 (print_int (integer_register source m))) λ number _.
        Post-bind (atoi offset)
          λ k _. Post-bind (address 4 (integer_register base m) k) λ a _. holds (Frame-mem _)

  first_register-valid :
      (is_double : Bool) (line : Text) (m : Machine Value)
      → Post (λ r. validate_register is_double r.0 m ≡ true) (first_register is_double line m)
  unfolding first_register
  first_register-valid is_double line m = Post-bind (positive (find b',' line)) λ i _.
      Post-bind (c_string 4 (take i line)) λ reg _.
        Post-bind (guard (validate_register is_double reg m) invalid_register)
          λ _ valid. holds (guard-eq_ok _ _ valid)

  execute_l-Frame :
      {b : Bool} (op line : Text) (m : Machine Value) → Post (Frame b m) (execute_l D op line m)
  unfolding execute_l
  execute_l-Frame op line m =
      let is_double = contains_text dot_d op in
      Post-map (first_register is_double line m) (first_register-valid is_double line m) λ r valid.
        Post-bind (offset_and_base r.1 m) λ b _.
          Post-map (if is_double then load_float D r.0 b.0 b.1 m else load_integer r.0 b.0 b.1 m)
            (load-Frame is_double r.0 b.0 b.1 m valid) λ m' h. charge-Frame op h

  execute_s-Frame :
      {b : Bool} (op line : Text) (m : Machine Value) → Post (Frame b m) (execute_s D op line m)
  unfolding execute_s
  execute_s-Frame op line m =
      let is_double = contains_text dot_d op in
      Post-bind (first_register is_double line m) λ r _. Post-bind (offset_and_base r.1 m) λ b _.
        Post-map (if is_double then store_float D r.0 b.0 b.1 m else store_integer r.0 b.0 b.1 m)
          (store-Frame is_double r.0 b.0 b.1 m) λ m' h. charge-Frame op h

  execute_li-Frame :
      {b : Bool} (op line : Text) (m : Machine Value) → Post (Frame b m) (execute_li D op line m)
  unfolding execute_li
  execute_li-Frame op line m =
      Post-map (first_register false line m) (first_register-valid false line m) λ r valid.
        Post-bind (c_string 18 r.1) λ immediate _.
          Post-bind (atoi immediate) λ v _. charge-Frame op (set_integer-Frame r.0 v m valid)

  execute_beq-Frame :
      (op line : Text) (m : Machine Value) → Post (Frame true m) (execute_beq D op line m)
  unfolding execute_beq
  execute_beq-Frame op line m =
      let is_double = contains_text dot_d op in
      Post-bind (branch_register is_double line m) λ a _.
        Post-bind (branch_register is_double a.1 m) λ b _. Post-bind (next_operand 20 b.1) λ c _.
          Post-map (jump_if (registers_equal D is_double a.0 b.0 m) c.0 m)
            (jump_if-Frame (registers_equal D is_double a.0 b.0 m) c.0 m) λ m' h. charge-Frame op h

  execute_bneq-Frame :
      (op line : Text) (m : Machine Value) → Post (Frame true m) (execute_bneq D op line m)
  unfolding execute_bneq
  execute_bneq-Frame op line m =
      let is_double = contains_text dot_d op in
      Post-bind (branch_register is_double line m) λ a _.
        Post-bind (branch_register is_double a.1 m) λ b _. Post-bind (next_operand 20 b.1) λ c _.
          Post-map (jump_if (not (registers_equal D is_double a.0 b.0 m)) c.0 m)
            (jump_if-Frame (not (registers_equal D is_double a.0 b.0 m)) c.0 m)
            λ m' h. charge-Frame op h

  execute_bgtz-Frame :
      (op line : Text) (m : Machine Value) → Post (Frame true m) (execute_bgtz D op line m)
  unfolding execute_bgtz
  execute_bgtz-Frame op line m = Post-bind (branch_register (contains_text dot_d op) line m) λ a _.
      Post-bind (next_operand 20 a.1) λ c _.
        Post-map (jump_if (register_above D (contains_text dot_d op) a.0 m) c.0 m)
          (jump_if-Frame (register_above D (contains_text dot_d op) a.0 m) c.0 m)
          λ m' h. charge-Frame op h

  execute_bltz-Frame :
      (op line : Text) (m : Machine Value) → Post (Frame true m) (execute_bltz D op line m)
  unfolding execute_bltz
  execute_bltz-Frame op line m = Post-bind (branch_register (contains_text dot_d op) line m) λ a _.
      Post-bind (next_operand 20 a.1) λ c _.
        Post-map (jump_if (register_below D (contains_text dot_d op) a.0 m) c.0 m)
          (jump_if-Frame (register_below D (contains_text dot_d op) a.0 m) c.0 m)
          λ m' h. charge-Frame op h

  execute_opcode-Frame :
      (opcode : Option Opcode) (op line : Text) (m : Machine Value)
      → Post (Frame (is_branch opcode) m) (execute_opcode D opcode op line m)
  unfolding execute_opcode execute_noop execute_add execute_sub execute_mul execute_div
  execute_opcode-Frame none op line m = fails
  execute_opcode-Frame (some noop) op line m = charge-Frame op (Frame-refl m)
  execute_opcode-Frame (some add) op line m =
      execute_arithmetic-Frame D.zero_value add_int D.add op line m
  execute_opcode-Frame (some sub) op line m =
      execute_arithmetic-Frame D.zero_value sub_int D.sub op line m
  execute_opcode-Frame (some mul) op line m =
      execute_arithmetic-Frame D.zero_value mul_int D.mul op line m
  execute_opcode-Frame (some div) op line m =
      execute_arithmetic-Frame D.zero_value div_int D.div op line m
  execute_opcode-Frame (some li) op line m = execute_li-Frame op line m
  execute_opcode-Frame (some l) op line m = execute_l-Frame op line m
  execute_opcode-Frame (some s) op line m = execute_s-Frame op line m
  execute_opcode-Frame (some beq) op line m = execute_beq-Frame op line m
  execute_opcode-Frame (some bneq) op line m = execute_bneq-Frame op line m
  execute_opcode-Frame (some bgtz) op line m = execute_bgtz-Frame op line m
  execute_opcode-Frame (some bltz) op line m = execute_bltz-Frame op line m
  execute_opcode-Frame (some move) op line m = execute_move-Frame op line m

  -- Whatever line is executed: if it succeeds, the program, the labels, the names of both register
  -- files and the instruction count are as before, and the program counter is as before or, for a
  -- branch, one below a label.
  pub execute_line-Frame :
      (line : Text) (m : Machine Value)
      → Post (Frame (line_branches line) m) (execute_line D line m)
  unfolding execute_line execute_split
  execute_line-Frame line m =
      elim (find 32 line) as (λ i. Post (Frame (branches_at line i) m) (execute_split D line i m)) [
        | none ↦ holds (Frame-refl m)
        | some i ↦
            elim i
              as (λ i.
                Post (Frame (branches_at line (some i)) m) (execute_split D line (some i) m)) [
                  | zero ↦ holds (Frame-refl m)
                  | suc k ↦ Post-bind (c_string 10 (take (suc k) line)) λ op e.
                      subst
                        (λ t.
                          Post (Frame (is_branch (decode t)) m)
                            (execute_opcode D (decode op) op (ltrim (drop (suc k) line)) m))
                        (c_string-eq_ok 10 (take (suc k) line) e)
                        (execute_opcode-Frame (decode op) op (ltrim (drop (suc k) line)) m)
                ]
      ]
