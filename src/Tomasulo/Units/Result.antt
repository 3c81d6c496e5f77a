-- ===== src/Tomasulo/Units/Result.antt =====
-- A unit from its first cycle, in which it reads its operands and takes its target.
use mscs.Common.{
  ℕ, suc, ◌-◌, ◌<◌, ◌≡◌, refl, ap, ◌∙◌, Bool, true, false, ◌==◌, ltb, List, ◌++◌, length, All,
  if-true, if-false, arith,
}
use mscs.Common.Outcome.{Outcome, ok, ◌>>=◌, bind-ok}
use mscs.Common.Text.{Text}
use mscs.Simulator.Double.{Double}
use mscs.Tomasulo.Types.{FinalValue, Machine, Operand, ArithmeticUnit}
use mscs.Tomasulo.Registers.{
  File, register, set_wait_on, may_take, is_null, reset_unit, reset_arithmetic,
}
use mscs.Tomasulo.Units.{
  keep_running, tick, fetch_operand, begin, fetch_both, count_down, run_cycle, execute_binary,
}
use mscs.Tomasulo.Units.Progress.{through, working, sent, through-working}

module _ (D : Double) {S : Type 0} (R : File D.Value S) (is_double : Bool)
    (operator : S → S → Outcome (FinalValue D.Value)) where
  open D use {Value, zero_value}

  -- The operands as the machine has them.
  abbrev pub reading : ArithmeticUnit Value S → Machine Value → ArithmeticUnit Value S
  reading u m = record u {
    j = record u.j { s = (register R u.fu.ins.source_reg1 m).val };
    k = record u.k { s = (register R u.fu.ins.source_reg2 m).val };
  }

  -- A unit whose instruction takes `n` cycles.
  abbrev pub taking : ℕ → ArithmeticUnit Value S → ArithmeticUnit Value S
  taking n u = record u { fu = record u.fu { i_count = n } }

  fetch-there :
      (reg : Text) (m : Machine Value) (o : Operand S)
      → is_null o.v ≡ false
      → fetch_operand R reg m o ≡ ok (record o { s = (register R reg m).val })
  unfolding fetch_operand
  fetch-there reg m o h = if-false (is_null o.v) _ (ok (record o { s = (register R reg m).val })) h

  fetch_both-there :
      (u : ArithmeticUnit Value S) (m : Machine Value)
      → is_null u.j.v ≡ false
      → is_null u.k.v ≡ false
      → fetch_both R u m ≡ ok (reading u m)
  unfolding fetch_both
  fetch_both-there u m j k =
      bind-ok (fetch_operand R u.fu.ins.source_reg1 m u.j) _
        (fetch-there u.fu.ins.source_reg1 m u.j j)
        (bind-ok (fetch_operand R u.fu.ins.source_reg2 m u.k) _
          (fetch-there u.fu.ins.source_reg2 m u.k k) refl)

  same : (n : ℕ) → (n == n) ≡ true
  same n = ground arith

  more_to_go : (n : ℕ) → ltb 0 (suc n) ≡ true
  more_to_go n = ground arith

  one_less : (n : ℕ) → suc n - 1 ≡ n
  one_less n = omega arith

  first-cycle :
      (u : ArithmeticUnit Value S) (n : ℕ) (m : Machine Value)
      → is_null u.j.v ≡ false
      → is_null u.k.v ≡ false
      → is_null u.fu.ins.target ≡ false
      → may_take R u.fu.my_id u.fu.ins.target_reg m ≡ true
      → run_cycle R (working D R is_double operator (taking (suc n) u) (suc n)) m
        ≡ ok (
          working D R is_double operator (taking (suc n) (reading u m)) n,
          set_wait_on R u.fu.ins.target_reg u.fu.my_id m,
        )
  unfolding run_cycle count_down begin tick
  first-cycle u n m j k t f = rw (same (suc n)) (
      bind-ok (fetch_both R (working D R is_double operator (taking (suc n) u) (suc n)) m) _
        (fetch_both-there (working D R is_double operator (taking (suc n) u) (suc n)) m j k)
        (rw (j, k, same (suc n), t, f)
          (ap
            (λ c. ok (
              working D R is_double operator (taking (suc n) (reading u m)) c,
              set_wait_on R u.fu.ins.target_reg u.fu.my_id m,
            ))
            (one_less n))))

  execute-first :
      (u : ArithmeticUnit Value S) (n : ℕ) (m : Machine Value)
      → execute_binary D R is_double operator
          (working D R is_double operator (taking (suc n) u) (suc n))
          m
        ≡ run_cycle R
            (working D R is_double operator (taking (suc n) u) (suc n))
            (record m { trigger_end = false })
  unfolding execute_binary keep_running
  execute-first u n m =
      if-true (ltb 0 (suc n))
        (run_cycle R (working D R is_double operator (taking (suc n) u) (suc n))
          (record m { trigger_end = false }))
        _ (more_to_go n)

  below : (n : ℕ) → n < suc n
  below n = omega arith

  -- A busy unit before its first cycle, with its operands there, a target, and a machine `start` in
  -- which the target is free or waits for the unit. It reads the operands in this cycle, not when it
  -- was filled, and the target waits for the unit from then on: nothing else of the machine changes
  -- but `triggerend`. Its instruction takes one cycle more than there are machines in `ms`: after
  -- them, and after as many cycles as the bus is busy for, whatever the machine is in each, the first
  -- cycle with a free bus sends the operator's result of the values that the source registers had in
  -- `start`, for the target, and frees the unit. The operator has to have a result.
  pub through-result :
      (u : ArithmeticUnit Value S) (v : FinalValue Value) (start : Machine Value)
      (ms ws : List (Machine Value)) (m : Machine Value)
      → is_null u.j.v ≡ false
      → is_null u.k.v ≡ false
      → is_null u.fu.ins.target ≡ false
      → may_take R u.fu.my_id u.fu.ins.target_reg (record start { trigger_end = false }) ≡ true
      → operator
          (register R u.fu.ins.source_reg1 (record start { trigger_end = false })).val
          (register R u.fu.ins.source_reg2 (record start { trigger_end = false })).val
        ≡ ok v
      → All (λ w. w.write_back.busy ≡ true) ws
      → m.write_back.busy ≡ false
      → (first : ArithmeticUnit Value S) × (execute_binary D R is_double operator
            (working D R is_double operator (taking (suc (length ms)) u) (suc (length ms)))
            start
          ≡ ok (
            first,
            set_wait_on R u.fu.ins.target_reg u.fu.my_id (record start { trigger_end = false }),
          ))
        × ((through D R is_double operator (ms ++ ws) first >>= λ w.
              execute_binary D R is_double operator w m)
            ≡ sent D R is_double operator u v m)
  unfolding reset_arithmetic reset_unit
  through-result u v start ms ws m j k t f e busy free =
      let l : Machine Value = record start { trigger_end = false } in
      let w : ArithmeticUnit Value S = taking (suc (length ms)) (reading u l) in
      (
        working D R is_double operator w (length ms),
        execute-first u (length ms) start ∙ first-cycle u (length ms) l j k t f,
        through-working D R is_double operator w v ms ws m (below (length ms)) j k e busy free,
      )
