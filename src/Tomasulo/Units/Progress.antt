-- ===== src/Tomasulo/Units/Progress.antt =====
-- A unit that has started, through the cycles that follow, whatever the machine is in each.
use mscs.Common.{
  ℕ, suc, ◌-◌, ◌<◌, ◌≡◌, refl, ap, ◌∙◌, Bool, true, false, ◌==◌, ltb, if◌then◌else◌, List, [], ◌∷◌,
  ◌++◌, length, All, if-true, if-false, arith,
}
use mscs.Common.Outcome.{Outcome, ok, ◌>>=◌, bind-ok}
use mscs.Simulator.Double.{Double}
use mscs.Tomasulo.Types.{FinalValue, WriteBack, Machine, ArithmeticUnit}
use mscs.Tomasulo.Registers.{File, is_null, send_to_write_back, reset_unit, reset_arithmetic}
use mscs.Tomasulo.Units.{keep_running, tick, count_down, run_cycle, send_or_wait, execute_binary}

module _ (D : Double) {S : Type 0} (R : File D.Value S) (is_double : Bool)
    (operator : S → S → Outcome (FinalValue D.Value)) where
  open D use {Value, zero_value}

  -- One cycle for each machine.
  abbrev pub through :
      List (Machine Value) → ArithmeticUnit Value S → Outcome (ArithmeticUnit Value S)
  through [] u = ok u
  through (m ∷ ms) u = execute_binary D R is_double operator u m >>= λ r. through ms r.0

  -- A unit at work that has `n` cycles to go.
  abbrev pub working : ArithmeticUnit Value S → ℕ → ArithmeticUnit Value S
  working u n = record u {
    fu = record u.fu {
      busy = true;
      do_not_execute = false;
      remaining = n;
      wait_to_write_back = false;
    };
  }

  -- One that waits for the bus with its result.
  abbrev waiting : ArithmeticUnit Value S → FinalValue Value → ArithmeticUnit Value S
  waiting u v = record u {
    fu = record u.fu {
      busy = true;
      do_not_execute = false;
      remaining = 0;
      final_value = v;
      wait_to_write_back = true;
    };
  }

  abbrev pub bus_of : ArithmeticUnit Value S → FinalValue Value → WriteBack Value
  bus_of u v = record {
    target_reg = u.fu.ins.target_reg;
    is_double = is_double;
    busy = true;
    val = v;
    target = u.fu.ins.target;
  }

  not_at_start : (n c : ℕ) → n < c → (n == c) ≡ false
  not_at_start n c h = ground arith

  one_less : (n : ℕ) → suc n - 1 ≡ n
  one_less n = omega arith

  more_to_go : (n : ℕ) → ltb 0 (suc n) ≡ true
  more_to_go n = ground arith

  count-working :
      (u : ArithmeticUnit Value S) (n : ℕ) (m : Machine Value)
      → suc n < u.fu.i_count
      → is_null u.j.v ≡ false
      → is_null u.k.v ≡ false
      → execute_binary D R is_double operator (working u (suc n)) m
        ≡ ok (working u n, record m { trigger_end = false })
  unfolding execute_binary keep_running run_cycle count_down tick
  count-working u n m h j k =
      let late = not_at_start (suc n) u.fu.i_count h in
      rw (more_to_go n, late, j, k, late)
        (ap (λ c. ok (working u c, record m { trigger_end = false })) (one_less n))

  send-free :
      (u : ArithmeticUnit Value S) (v : FinalValue Value) (m : Machine Value)
      → m.write_back.busy ≡ false
      → send_or_wait D R.initial is_double v u m
        ≡ (reset_arithmetic D R.initial u, record m { write_back = bus_of u v })
  unfolding send_or_wait send_to_write_back
  send-free u v m h =
      ap {A = Bool × Machine Value}
        (λ r.
          if r.0
          then (reset_arithmetic D R.initial u, r.1)
          else (record u { fu = record u.fu { final_value = v; wait_to_write_back = true } }, r.1))
        (if-false m.write_back.busy (false, m) (true, record m { write_back = bus_of u v }) h)

  send-busy :
      (u : ArithmeticUnit Value S) (v : FinalValue Value) (m : Machine Value)
      → m.write_back.busy ≡ true
      → send_or_wait D R.initial is_double v u m
        ≡ (record u { fu = record u.fu { final_value = v; wait_to_write_back = true } }, m)
  unfolding send_or_wait send_to_write_back
  send-busy u v m h =
      ap {A = Bool × Machine Value}
        (λ r.
          if r.0
          then (reset_arithmetic D R.initial u, r.1)
          else (record u { fu = record u.fu { final_value = v; wait_to_write_back = true } }, r.1))
        (if-true m.write_back.busy (false, m) (true, record m { write_back = bus_of u v }) h)

  -- The end of the work, and of the wait.
  finish-working :
      (u : ArithmeticUnit Value S) (v : FinalValue Value) (m : Machine Value)
      → operator u.j.s u.k.s ≡ ok v
      → execute_binary D R is_double operator (working u 0) m
        ≡ ok (send_or_wait D R.initial is_double v (working u 0) (record m { trigger_end = false }))
  unfolding execute_binary keep_running
  finish-working u v m e = bind-ok (operator u.j.s u.k.s) _ e refl

  finish-waiting :
      (u : ArithmeticUnit Value S) (v : FinalValue Value) (m : Machine Value)
      → execute_binary D R is_double operator (waiting u v) m
        ≡ ok (send_or_wait D R.initial is_double v (waiting u v) (record m { trigger_end = false }))
  unfolding execute_binary keep_running
  finish-waiting u v m = refl

  reset-working :
      (u : ArithmeticUnit Value S) (n : ℕ)
      → reset_arithmetic D R.initial (working u n) ≡ reset_arithmetic D R.initial u
  unfolding reset_arithmetic reset_unit
  reset-working u n = refl

  reset-waiting :
      (u : ArithmeticUnit Value S) (v : FinalValue Value)
      → reset_arithmetic D R.initial (waiting u v) ≡ reset_arithmetic D R.initial u
  unfolding reset_arithmetic reset_unit
  reset-waiting u v = refl

  -- What the last cycle comes to.
  abbrev pub sent :
      ArithmeticUnit Value S
      → FinalValue Value
      → Machine Value
      → Outcome (ArithmeticUnit Value S × Machine Value)
  sent u v m =
      ok (reset_arithmetic D R.initial u, record m { trigger_end = false; write_back = bus_of u v })

  through-waiting :
      (u : ArithmeticUnit Value S) (v : FinalValue Value) (ws : List (Machine Value))
      (m : Machine Value)
      → All (λ w. w.write_back.busy ≡ true) ws
      → m.write_back.busy ≡ false
      → (through ws (waiting u v) >>= λ w. execute_binary D R is_double operator w m) ≡ sent u v m
  through-waiting u v [] m h free =
      finish-waiting u v m
      ∙ ap ok (send-free (waiting u v) v (record m { trigger_end = false }) free)
      ∙ ap {A = ArithmeticUnit Value S}
          (λ w. ok (w, record m { trigger_end = false; write_back = bus_of u v }))
          (reset-waiting u v)
  through-waiting u v (w ∷ ws) m h free =
      ap (λ o. o >>= (λ r. through ws r.0) >>= λ w. execute_binary D R is_double operator w m)
        (finish-waiting u v w
          ∙ ap ok (send-busy (waiting u v) v (record w { trigger_end = false }) h.0))
      ∙ through-waiting u v ws m h.1 free

  shorter : {n c : ℕ} → suc n < c → n < c
  shorter h = omega arith

  -- A unit at work whose operands are there, with fewer cycles to go than it started with: after
  -- that many cycles and then as many as the bus is busy for, whatever the machine is in each, the
  -- first cycle with a free bus sends the operator's result of the two operands for the unit's
  -- target, and frees the unit. The operator has to have a result.
  pub through-working :
      (u : ArithmeticUnit Value S) (v : FinalValue Value) (ms ws : List (Machine Value))
      (m : Machine Value)
      → length ms < u.fu.i_count
      → is_null u.j.v ≡ false
      → is_null u.k.v ≡ false
      → operator u.j.s u.k.s ≡ ok v
      → All (λ w. w.write_back.busy ≡ true) ws
      → m.write_back.busy ≡ false
      → (through (ms ++ ws) (working u (length ms)) >>= λ w.
          execute_binary D R is_double operator w m)
        ≡ sent u v m
  through-working u v (l ∷ ms) ws m h j k e busy free =
      ap
        (λ o.
          o >>= (λ r. through (ms ++ ws) r.0) >>= λ w. execute_binary D R is_double operator w m)
        (count-working u (length ms) l h j k)
      ∙ through-working u v ms ws m (shorter h) j k e busy free
  through-working u v [] [] m h j k e busy free =
      finish-working u v m e
      ∙ ap ok (send-free (working u 0) v (record m { trigger_end = false }) free)
      ∙ ap {A = ArithmeticUnit Value S}
          (λ w. ok (w, record m { trigger_end = false; write_back = bus_of u v }))
          (reset-working u 0)
  through-working u v [] (w ∷ ws) m h j k e busy free =
      ap (λ o. o >>= (λ r. through ws r.0) >>= λ x. execute_binary D R is_double operator x m)
        (finish-working u v w e
          ∙ ap ok (send-busy (working u 0) v (record w { trigger_end = false }) busy.0))
      ∙ through-waiting u v ws m busy.1 free
