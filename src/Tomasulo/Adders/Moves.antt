-- ===== src/Tomasulo/Adders/Moves.antt =====
-- `MOVE` and `MOVE.D`, which put a value of one type on the bus as one of the other type.
use mscs.Common.{◌≡◌, refl, ap, ◌∙◌, Bool, true, false, if◌then◌else◌, if-true, if-false}
use mscs.Common.Int.{ℤ, pos}
use mscs.Common.Outcome.{Outcome, undefined, ok, ◌>>=◌}
use mscs.Simulator.Double.{Double}
use mscs.Tomasulo.Types.{
  Opcode, move, move_d, FinalValue, ival, dval, WriteBack, Machine, ArithmeticUnit,
}
use mscs.Tomasulo.Registers.{
  integer_file, float_file, write_register, read_ival, read_dval, reset_write_back, write_result,
  run_write_back, send_to_write_back, reset_arithmetic,
}
use mscs.Tomasulo.Units.{keep_running, send_or_wait}
use mscs.Tomasulo.Adders.{
  iadd_result, iadd_finish, execute_iadd, fadd_result, fadd_finish, execute_fadd,
}

module _ (D : Double) where
  open D use {Value, zero_value}

  -- A unit that has done its cycles.
  abbrev pub done : {S : Type 0} → Opcode → ArithmeticUnit Value S → ArithmeticUnit Value S
  done op u = record u {
    fu = record u.fu {
      busy = true;
      do_not_execute = false;
      remaining = 0;
      wait_to_write_back = false;
      ins = record u.fu.ins { opcode = op };
    };
  }

  -- What is written to the bus is read as the other member of the union.
  wrong_member :
      {S : Type 0} (z : S) (b : Bool) (v : FinalValue Value) (u : ArithmeticUnit Value S)
      (m : Machine Value)
      → m.write_back.busy ≡ false
      → ((w : WriteBack Value) (n : Machine Value)
          → w.is_double ≡ b
          → w.val ≡ v
          → write_result D w n ≡ undefined)
      → run_write_back D (send_or_wait D z b v u m).1 ≡ undefined
  unfolding send_or_wait send_to_write_back run_write_back
  wrong_member {S} z b v u m free h =
      let w : WriteBack Value = record {
        target_reg = u.fu.ins.target_reg;
        is_double = b;
        busy = true;
        val = v;
        target = u.fu.ins.target;
      } in
      let k : Bool × Machine Value → ArithmeticUnit Value S × Machine Value = λ r.
        if r.0
        then (reset_arithmetic D z u, r.1)
        else (record u { fu = record u.fu { final_value = v; wait_to_write_back = true } }, r.1) in
      ap {A = Bool × Machine Value} (λ r. run_write_back D (k r).1)
        (if-false m.write_back.busy (false, m) (true, record m { write_back = w }) free)
      ∙ ap
          (λ (o : Outcome (Machine Value)).
            o >>= λ n. ok (record n { write_back = reset_write_back D }))
          (h w _ refl refl)

  as_double :
      (w : WriteBack Value) (n : Machine Value) (v : ℤ)
      → w.is_double ≡ true
      → w.val ≡ ival v
      → write_result D w n ≡ undefined
  unfolding write_result read_dval
  as_double w n v d e =
      if-true w.is_double _ _ d
      ∙ ap (λ x. read_dval x >>= λ y. write_register (float_file zero_value) w.target y n) e

  as_int :
      (w : WriteBack Value) (n : Machine Value) (v : Value)
      → w.is_double ≡ false
      → w.val ≡ dval v
      → write_result D w n ≡ undefined
  unfolding write_result read_ival
  as_int w n v d e =
      if-false w.is_double _ _ d
      ∙ ap (λ x. read_ival x >>= λ y. write_register integer_file w.target y n) e

  -- A unit with a `MOVE`, or with a `MOVE.D`, that has done its cycles and finds the bus free: the
  -- write-back stage that follows reads the member of the union that was not written, which C++
  -- leaves undefined.
  pub move-undefined :
      (u : ArithmeticUnit Value ℤ) (w : ArithmeticUnit Value Value) (m : Machine Value)
      → m.write_back.busy ≡ false
      → ((execute_iadd D (done move u) m >>= λ r. run_write_back D r.1) ≡ undefined)
        × ((execute_fadd D (done move_d w) m >>= λ r. run_write_back D r.1) ≡ undefined)
  unfolding execute_iadd execute_fadd keep_running iadd_finish iadd_result fadd_finish fadd_result
  move-undefined u w m free = (
    wrong_member (pos 0) true (ival u.j.s) (done move u) (record m { trigger_end = false }) free
        λ x n d e. as_double x n u.j.s d e,
    wrong_member zero_value false (dval w.j.s) (done move_d w) (record m { trigger_end = false })
        free λ x n d e. as_int x n w.j.s d e,
  )
