-- ===== src/Tomasulo/Registers/Written.antt =====
-- A value from the bus to its register.
use mscs.Common.{◌≡◌, refl, ap, ◌∙◌, Bool, true, false, if◌then◌else◌, Option, none, some, if-false}
use mscs.Common.Int.{ℤ, pos}
use mscs.Common.Outcome.{ok}
use mscs.Common.Text.{Text, text_eq}
use mscs.Common.Dict.{lookup, lookup-assign}
use mscs.Simulator.Double.{Double}
use mscs.Tomasulo.Types.{Register, integer_at, ival, Machine}
use mscs.Tomasulo.Registers.{
  fresh, as_integer, integer_file, register, set_register, write_register, read_ival,
  reset_write_back, write_result, run_write_back, send_to_write_back,
}

module _ (D : Double) where
  open D use {Value, zero_value}

  abbrev found : Option (Register ℤ) → Register ℤ
  found none = fresh (pos 0)
  found (some x) = x

  over :
      (b : Bool) (r : Register ℤ) (o : Option (Register ℤ))
      → found (if b then some r else o) ≡ (if b then r else found o)
  over true r o = refl
  over false r o = refl

  pub register-set_register :
      (reg other : Text) (r : Register ℤ) (m : Machine Value)
      → register integer_file other (set_register integer_file reg r m)
        ≡ (if text_eq reg other then r else register integer_file other m)
  unfolding register set_register integer_file
  register-set_register reg other r m =
      ap found (lookup-assign reg other r m.integer_registers)
      ∙ over (text_eq reg other) r (lookup other m.integer_registers)

  -- An `int` that is sent for an integer register, to a bus that is free: the next write-back stage
  -- succeeds, the register then has the value and waits for no unit, every other integer register
  -- and all the float registers are as before, and the bus is free.
  pub send-run_write_back :
      (v : ℤ) (reg name : Text) (m : Machine Value)
      → m.write_back.busy ≡ false
      → (n : Machine Value) × (run_write_back D
            (send_to_write_back D false (ival v) (integer_at reg) name m).1
          ≡ ok n)
        × ((other : Text)
            → register integer_file other n ≡ (
                if text_eq reg other
                then record { val = v; wait_on = none }
                else register integer_file other m))
        × (n.float_registers ≡ m.float_registers)
        × (n.write_back.busy ≡ false)
  unfolding run_write_back send_to_write_back write_result write_register read_ival as_integer
      reset_write_back integer_file set_register register
  send-run_write_back v reg name m free = (
    record (set_register integer_file reg (record { val = v; wait_on = none }) m) {
      write_back = reset_write_back D;
    },
    ap {A = Bool × Machine Value} (λ r. run_write_back D r.1)
        (if-false m.write_back.busy (false, m)
          (
            true,
            record m {
              write_back = record {
                target_reg = name;
                is_double = false;
                busy = true;
                val = ival v;
                target = integer_at reg;
              };
            },
          )
          free),
    (λ other. register-set_register reg other (record { val = v; wait_on = none }) m),
    refl,
    refl,
  )
