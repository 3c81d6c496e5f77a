-- ===== src/Tomasulo/Ending/Rounds.antt =====
-- Rounds of `executeProgram`.
use mscs.Common.{
  ℕ, zero, suc, ◌+◌, ◌≡◌, refl, sym, ap, ◌∙◌, ◌⊎◌, inl, inr, true, false, if◌then◌else◌, List, [],
  ◌∷◌, Bool-cases,
}
use mscs.Common.Outcome.{ok, Post, holds, Post-eq_ok, Post-bind, Post-map, Post-if, Post-weaken}
use mscs.Common.Text.{Text, print_int}
use mscs.Simulator.Double.{Double}
use mscs.Tomasulo.Types.{Machine}
use mscs.Tomasulo.Registers.{File, integer_file, float_file, register, touch, run_write_back}
use mscs.Tomasulo.Frame.{Kept}
use mscs.Tomasulo.Reserved.{
  Untouched, Untouched-refl, Untouched-trans, IsOnly, integer_file-IsOnly, float_file-IsOnly,
}
use mscs.Tomasulo.Cycle.{
  Simulation, get_status, display, execute, issue, display_registers, cycle, run_cycles,
  execute_program,
}
use mscs.Tomasulo.Stage.{execute-Kept}
use mscs.Tomasulo.Ending.{run_write_back-free, IsFetched, issue-IsFetched}
use mscs.Simulator.Machine.{integer_names}
use mscs.Simulator.Machine.{float_names}

module _ (D : Double) (print_fixed : D.Value → Text) where
  open D use {Value, zero_value}

  display-Untouched :
      {S : Type 0} (R : File Value S) (print : S → Text)
      → IsOnly R
      → (regs : List Text) (m : Machine Value)
      → Post (λ r. Untouched m r.1) (display R print regs m)
  unfolding display touch
  display-Untouched R print only [] m = holds (Untouched-refl m)
  display-Untouched R print only (reg ∷ regs) m =
      Post-bind (get_status print (register R reg m)) λ status e.
        Post-map (display R print regs (touch R reg m))
          (display-Untouched R print only regs (touch R reg m))
          λ r k. holds (Untouched-trans (only _ m) k)

  pub display_registers-Untouched :
      (m : Machine Value) → Post (λ r. Untouched m r.2) (display_registers D print_fixed m)
  unfolding display_registers
  display_registers-Untouched m =
      Post-map (display integer_file print_int integer_names m)
        (display-Untouched integer_file print_int integer_file-IsOnly integer_names m)
        λ r k.
          Post-map (display (float_file zero_value) print_fixed float_names r.1)
            (display-Untouched (float_file zero_value) print_fixed (float_file-IsOnly zero_value)
              float_names r.1)
            λ t k'. holds (Untouched-trans k k')

  -- The program goes on, or there is nothing left to write.
  abbrev pub IsWritten : Machine Value → Type 0
  IsWritten m = (m.trigger_end ≡ false) ⊎ (m.write_back.busy ≡ false)

  IsFetched-IsWritten : (m n : Machine Value) → IsFetched D m n → IsWritten m → IsWritten n
  IsFetched-IsWritten m n (bus, flag) h = elim flag [
    | inr ended ↦ inl ended
    | inl same ↦ elim h [
      | inl runs ↦ inl (same ∙ runs)
      | inr free ↦ inr (ap (λ w. w.busy) bus ∙ free)
    ]
  ]

  Kept-IsWritten : {m n : Machine Value} → Kept m n → m.write_back.busy ≡ false → IsWritten n
  Kept-IsWritten k free = elim k.change [
    | inr ended ↦ inl ended
    | inl same ↦ inr (ap (λ x. x.write_back.busy) same ∙ free)
  ]

  pub cycle-IsWritten :
      (s : Simulation Value) → Post (λ s'. IsWritten s'.machine) (cycle D print_fixed s)
  unfolding cycle
  cycle-IsWritten s =
      Post-map (run_write_back D (record s.machine { trigger_end = true }))
        (run_write_back-free D (record s.machine { trigger_end = true }))
        λ m free. Post-map (execute D s.stations m) (execute-Kept D s.stations m) λ r k.
          let s1 : Simulation Value = record s {
            machine = r.1;
            stations = r.0;
            cycle_count = s.cycle_count + 1;
          } in
          let written : IsWritten r.1 = Kept-IsWritten k free in
          Post-map (if r.1.stall_due_to_branch then ok s1 else issue D s1)
            (Post-if {P = λ t. IsWritten t.machine} r.1.stall_due_to_branch (holds written) (
              Post-weaken (issue-IsFetched D s1)
                λ t q. IsFetched-IsWritten r.1 t.machine q written))
            λ s2 w.
              Post-map (display_registers D print_fixed s2.machine)
                (display_registers-Untouched s2.machine)
                λ t k'. holds (IsFetched-IsWritten s2.machine t.2 (k'.bus, inl k'.flag) w)

  run_cycles-free_bus :
      (fuel : ℕ) (s : Simulation Value)
      → IsWritten s.machine
      → Post
          (λ r. (r.0 ≡ false) ⊎ (r.1.machine.write_back.busy ≡ false))
          (run_cycles D print_fixed fuel s)
  unfolding run_cycles
  run_cycles-free_bus zero s h = holds h
  run_cycles-free_bus (suc fuel) s h = elim (Bool-cases s.machine.trigger_end) [
    | inl ended ↦
        rw (ended, run_cycles)
          (holds (elim h [ inl runs ↦ inl (sym ended ∙ runs) | inr free ↦ inr free ]))
    | inr runs ↦
        rw (runs, run_cycles)
          (Post-map (cycle D print_fixed s) (cycle-IsWritten s)
            λ s' w. run_cycles-free_bus fuel s' w)
  ]

  -- However many rounds a program is given: when it ends within them, no value is left on the bus.
  pub execute_program-free_bus :
      (fuel : ℕ) (s s' : Simulation Value)
      → execute_program D print_fixed fuel s ≡ ok (true, s')
      → s'.machine.write_back.busy ≡ false
  unfolding execute_program
  execute_program-free_bus fuel s s' e =
      elim (Post-eq_ok _ (run_cycles-free_bus fuel _ (inl refl)) e) [
        | inl runs ↦ cc
        | inr free ↦ free
      ]
