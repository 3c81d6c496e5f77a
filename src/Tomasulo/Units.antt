-- ===== src/Tomasulo/Units.antt =====
-- `execute` of the multipliers and the dividers. The four classes are the same text but for the
-- register file and the operator, which are arguments here; the operands and the end of an
-- instruction are those of the adders too. What is printed is left out.
pub mod Progress
pub mod Result
use mscs.Common.{◌-◌, Bool, true, false, not, ◌&&◌, ◌||◌, ◌==◌, ltb, if◌then◌else◌}
use mscs.Common.Int.{ℤ}
use mscs.Common.Outcome.{Outcome, ok, ◌>>=◌}
use mscs.Common.Text.{Text}
use mscs.Simulator.Double.{Double}
use mscs.Simulator.Arithmetic.{mul_int, div_int}
use mscs.Tomasulo.Types.{
  null, FinalValue, ival, dval, Machine, FunctionalUnit, Operand, ArithmeticUnit,
}
use mscs.Tomasulo.Registers.{
  File, is_free, integer_file, float_file, register, set_wait_on, may_take, is_null,
  send_to_write_back, reset_arithmetic,
}

-- `triggerend = false;` of a unit that is busy.
unfoldable pub keep_running : {V : Type 0} → Bool → Machine V → Machine V
keep_running busy m = if busy then record m { trigger_end = false } else m

-- `execCountRemaining--`
unfoldable pub tick : {V : Type 0} → FunctionalUnit V → FunctionalUnit V
tick u = record u { remaining = u.remaining - 1 }

-- `execCountRemaining == iCount`
abbrev pub at_start : {V : Type 0} → FunctionalUnit V → Bool
at_start u = u.remaining == u.i_count

module _ {V S : Type 0} (R : File V S) where
  -- An operand whose register was waited for is taken when the register is free; one that was
  -- there is read again.
  unfoldable pub fetch_operand : Text → Machine V → Operand S → Outcome (Operand S)
  unfolding register
  fetch_operand reg m o =
      if is_null o.v
      then (if is_null o.q
          then ok o
          else (R.cast o.q >>= λ waited.
              (if is_free (register R waited m)
                then ok (record { v = o.q; q = null; s = (register R reg m).val })
                else ok o)))
      else ok (record o { s = (register R reg m).val })

  -- The first cycle: the target is taken, if it is free or the unit's own.
  unfoldable pub begin : FunctionalUnit V → Machine V → FunctionalUnit V × Machine V
  unfolding may_take set_wait_on tick
  begin u m =
      if not (is_null u.ins.target) && may_take R u.my_id u.ins.target_reg m
      then (tick u, set_wait_on R u.ins.target_reg u.my_id m)
      else (u, m)

  unfoldable pub fetch_both : ArithmeticUnit V S → Machine V → Outcome (ArithmeticUnit V S)
  unfolding fetch_operand
  fetch_both u m = do
    j ← fetch_operand u.fu.ins.source_reg1 m u.j
    k ← fetch_operand u.fu.ins.source_reg2 m u.k
    ok (record u { j = j; k = k })

  -- `if(Vj != NULL && Vk != NULL)`
  unfoldable pub count_down : ArithmeticUnit V S → Machine V → ArithmeticUnit V S × Machine V
  unfolding begin tick
  count_down u m =
      if not (is_null u.j.v) && not (is_null u.k.v)
      then (if at_start u.fu
          then (let (fu, m') = begin u.fu m in (record u { fu = fu }, m'))
          else (record u { fu = tick u.fu }, m))
      else (u, m)

  unfoldable pub run_cycle :
      ArithmeticUnit V S → Machine V → Outcome (ArithmeticUnit V S × Machine V)
  unfolding fetch_both count_down
  run_cycle u m = (if at_start u.fu then fetch_both u m else ok u) >>= λ u'. ok (count_down u' m)

module _ (D : Double) where
  open D use {Value, zero_value, mul, div}

  -- The result is sent, or kept until the bus is free.
  unfoldable pub send_or_wait :
      {S : Type 0}
      → S
      → Bool
      → FinalValue Value
      → ArithmeticUnit Value S
      → Machine Value
      → ArithmeticUnit Value S × Machine Value
  unfolding send_to_write_back reset_arithmetic
  send_or_wait zero_s is_double v u m =
      let (sent, m') = send_to_write_back D is_double v u.fu.ins.target u.fu.ins.target_reg m in
      if sent
      then (reset_arithmetic D zero_s u, m')
      else (record u { fu = record u.fu { final_value = v; wait_to_write_back = true } }, m')

  -- The result is computed once.
  abbrev pub result :
      {S : Type 0}
      → (S → S → Outcome (FinalValue Value))
      → ArithmeticUnit Value S
      → Outcome (FinalValue Value)
  result operator u = if u.fu.wait_to_write_back then ok u.fu.final_value else operator u.j.s u.k.s

  -- `execute` of a unit with two operands and one result.
  unfoldable pub execute_binary :
      {S : Type 0}
      → File Value S
      → Bool
      → (S → S → Outcome (FinalValue Value))
      → ArithmeticUnit Value S
      → Machine Value
      → Outcome (ArithmeticUnit Value S × Machine Value)
  unfolding keep_running run_cycle send_or_wait
  execute_binary R is_double operator u m =
      let m' = keep_running u.fu.busy m in
      if u.fu.do_not_execute || not u.fu.busy
      then ok (record u { fu = record u.fu { do_not_execute = false } }, m')
      else if ltb 0 u.fu.remaining
      then run_cycle R u m'
      else (result operator u >>= λ v. ok (send_or_wait R.initial is_double v u m'))

  unfoldable pub execute_imul :
      ArithmeticUnit Value ℤ → Machine Value → Outcome (ArithmeticUnit Value ℤ × Machine Value)
  unfolding execute_binary mul_int
  execute_imul = execute_binary integer_file false λ a b. (mul_int a b >>= λ v. ok (ival v))

  unfoldable pub execute_idiv :
      ArithmeticUnit Value ℤ → Machine Value → Outcome (ArithmeticUnit Value ℤ × Machine Value)
  unfolding execute_binary div_int
  execute_idiv = execute_binary integer_file false λ a b. (div_int a b >>= λ v. ok (ival v))

  unfoldable pub execute_fmul :
      ArithmeticUnit Value Value
      → Machine Value
      → Outcome (ArithmeticUnit Value Value × Machine Value)
  unfolding execute_binary
  execute_fmul = execute_binary (float_file zero_value) true λ a b. ok (dval (mul a b))

  unfoldable pub execute_fdiv :
      ArithmeticUnit Value Value
      → Machine Value
      → Outcome (ArithmeticUnit Value Value × Machine Value)
  unfolding execute_binary
  execute_fdiv = execute_binary (float_file zero_value) true λ a b. ok (dval (div a b))
