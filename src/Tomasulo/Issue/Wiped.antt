-- ===== src/Tomasulo/Issue/Wiped.antt =====
-- A store whose register is taken.
use mscs.Common.{ℕ, suc, ◌≡◌, refl, ap, ◌∙◌, false, if◌then◌else◌, List, ◌∷◌}
use mscs.Common.Int.{pos, eqb_ℤ}
use mscs.Common.Outcome.{ok, bind-ok}
use mscs.Common.Text.{codes}
use mscs.Simulator.Double.{Double}
use mscs.Tomasulo.Types.{Instruction, Machine, MemoryUnit, Stations}
use mscs.Tomasulo.Registers.{is_free, integer_file, register, is_null, assign_instruction}
use mscs.Tomasulo.Reservation.{
  full, dropped, blocked, fill, fill_units, unit_count, conclude, bus_conflict,
}
use mscs.Tomasulo.Reservation.Kinds.{lock_memory_target, issue_memory, issue_store}
use mscs.Tomasulo.MemoryUnits.{reset_memory_unit}
use mscs.Tomasulo.Issue.{is_memory_busy, reset_at, conclude_store, run_store}

module _ (D : Double) where
  open D use {Value, zero_value}

  first_store :
      (i : Instruction) (m : Machine Value) (u : MemoryUnit Value) (us : List (MemoryUnit Value))
      (n : ℕ)
      → u.fu.busy ≡ false
      → is_null i.target ≡ false
      → bus_conflict i m ≡ false
      → i.is_double ≡ false
      → is_free (register integer_file i.target_reg m) ≡ false
      → fill_units is_memory_busy (issue_store D i) (pos (suc n)) (u ∷ us) m
        ≡ ok (record u { fu = assign_instruction D i m u.fu } ∷ us, m, blocked 0)
  unfolding fill_units fill issue_store issue_memory lock_memory_target
  first_store i m u us n idle target bus int taken = rw (idle, target, bus, int, taken) refl

  -- A store of an integer register that waits for a unit, with the first store unit idle and no
  -- write to the register on the bus: the store is in the unit all the same, the first unit of the
  -- loads is reset, whatever it was doing, and the fetch stalls only where there are as many loads
  -- as stores.
  pub run_store-wipes :
      (i : Instruction) (s : Stations Value) (m : Machine Value) (u l : MemoryUnit Value)
      (us ls : List (MemoryUnit Value)) (n : ℕ)
      → u.fu.busy ≡ false
      → unit_count (codes "stores") m ≡ pos (suc n)
      → is_null i.target ≡ false
      → bus_conflict i m ≡ false
      → i.is_double ≡ false
      → is_free (register integer_file i.target_reg m) ≡ false
      → run_store D i (record s { store_rs = u ∷ us; load_rs = l ∷ ls }) m
        ≡ ok (
          record s {
            store_rs = record u { fu = assign_instruction D i m u.fu } ∷ us;
            load_rs = reset_memory_unit D l ∷ ls;
          },
          conclude 1
              (if eqb_ℤ (unit_count (codes "loads") m) (unit_count (codes "stores") m)
                then full
                else dropped)
              m,
        )
  unfolding run_store fill_units fill issue_store issue_memory lock_memory_target conclude_store
      reset_at
  run_store-wipes i s m u l us ls n idle count target bus int taken =
      bind-ok
        (fill_units is_memory_busy (issue_store D i) (unit_count (codes "stores") m) (u ∷ us) m) _
        (ap (λ c. fill_units is_memory_busy (issue_store D i) c (u ∷ us) m) count
          ∙ first_store i m u us n idle target bus int taken)
        refl
