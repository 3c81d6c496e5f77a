-- ===== src/Tomasulo/Ending/Lost.antt =====
-- The last round of a program that is stalled.
use mathlib.Core.Path.{subst}
use mscs.Common.{
  ◌+◌, ◌≡◌, refl, sym, ap, ◌∙◌, true, not, ◌&&◌, ◌||◌, if◌then◌else◌, length, if-true, if-false,
}
use mscs.Common.Int.{pos, ◌-ℤ◌, eqb_ℤ}
use mscs.Common.Outcome.{ok, Post, holds, Post-bind, Post-map, Post-if, Post-weaken}
use mscs.Common.Text.{Text}
use mscs.Simulator.Double.{Double}
use mscs.Tomasulo.Types.{WriteBack, Machine}
use mscs.Tomasulo.Registers.{
  as_integer, as_float, integer_file, float_file, set_register, write_register, read_ival,
  read_dval, write_result, run_write_back,
}
use mscs.Tomasulo.Decode.{decode}
use mscs.Tomasulo.Issue.{run_reservation}
use mscs.Tomasulo.Cycle.{
  Simulation, instruction_at, below_size, decoded_or_blank, fetch_next, fetch_again, fetch, execute,
  issue, display_registers, cycle,
}
use mscs.Tomasulo.Ending.{run_reservation-Untouched}
use mscs.Tomasulo.Ending.Rounds.{display_registers-Untouched}
use mscs.Tomasulo.Ending.Stalled.{IsIdle, execute-idle}

module _ (D : Double) where
  open D use {Value, zero_value}

  -- The flags that the write-back stage leaves alone.
  abbrev SameFlags : Machine Value → Machine Value → Type 0
  SameFlags m n = (n.trigger_end ≡ m.trigger_end) × (n.stall_if ≡ m.stall_if)

  write_result-SameFlags :
      (w : WriteBack Value) (m : Machine Value) → Post (SameFlags m) (write_result D w m)
  unfolding write_result write_register set_register integer_file float_file
  write_result-SameFlags w m =
      Post-if w.is_double
        (Post-bind (read_dval w.val)
          λ v e. Post-bind (as_float w.target) λ reg e'. holds (refl, refl))
        (Post-bind (read_ival w.val)
          λ v e. Post-bind (as_integer w.target) λ reg e'. holds (refl, refl))

  run_write_back-SameFlags : (m : Machine Value) → Post (SameFlags m) (run_write_back D m)
  unfolding run_write_back
  run_write_back-SameFlags m =
      Post-if m.write_back.busy
        (Post-map (write_result D m.write_back m) (write_result-SameFlags m.write_back m)
          λ n h. holds h)
        (holds (refl, refl))

  -- A fetch that is stalled gives the same instruction again.
  fetch-stalled :
      (s : Simulation Value)
      → s.machine.stall_if ≡ true
      → Post (λ t. t.machine ≡ s.machine) (fetch s)
  unfolding fetch fetch_again
  fetch-stalled s h =
      let m = s.machine in
      subst (Post (λ t. t.machine ≡ m))
        (sym (
          if-false (not m.stall_if && below_size m.program_counter s.vprogram && not m.freeze)
            (fetch_next s) _
            (ap (λ b. not b && below_size m.program_counter s.vprogram && not m.freeze) h)))
        (Post-if (eqb_ℤ m.program_counter (pos (length s.vprogram)))
          (subst (Post (λ t. t.machine ≡ m))
            (sym (if-true (m.stall_if || m.freeze) (fetch_again s) _ (ap (λ b. b || m.freeze) h)))
            (Post-bind (instruction_at (m.program_counter -ℤ pos 1) s.vprogram) λ i e. holds refl))
          (Post-if (below_size m.program_counter s.vprogram && m.stall_if)
            (Post-bind (instruction_at (m.program_counter -ℤ pos 1) s.vprogram) λ i e. holds refl)
            (holds refl)))

  issue-stalled :
      (s : Simulation Value)
      → s.machine.stall_if ≡ true
      → Post (λ t. t.machine.trigger_end ≡ s.machine.trigger_end) (issue D s)
  unfolding issue
  issue-stalled s h = Post-map (fetch s) (fetch-stalled s h) λ s1 same.
      Post-bind (decoded_or_blank (decode s1.ir s1.machine)) λ i e.
        Post-map (run_reservation D i s1.stations s1.machine)
          (run_reservation-Untouched D i s1.stations s1.machine)
          λ r k. holds (k.flag ∙ ap (λ m. m.trigger_end) same)

module _ (D : Double) (print_fixed : D.Value → Text) where
  open D use {Value, zero_value}

  -- A round with no busy unit, while the fetch is stalled, ends the loop, if it is defined: also
  -- where it has put the instruction that was waiting into a unit.
  pub cycle-stalled :
      (s : Simulation Value)
      → IsIdle s.stations
      → s.machine.stall_if ≡ true
      → Post (λ t. t.machine.trigger_end ≡ true) (cycle D print_fixed s)
  unfolding cycle
  cycle-stalled s idle stall =
      Post-map (run_write_back D (record s.machine { trigger_end = true }))
        (run_write_back-SameFlags D (record s.machine { trigger_end = true }))
        λ m flags. Post-map (execute D s.stations m) (execute-idle D s.stations m idle) λ r e.
          let s1 : Simulation Value = record s {
            machine = r.1;
            stations = r.0;
            cycle_count = s.cycle_count + 1;
          } in
          let ends : r.1.trigger_end ≡ true = ap (λ n. n.trigger_end) e ∙ flags.0 in
          let stalled : r.1.stall_if ≡ true = ap (λ n. n.stall_if) e ∙ flags.1 ∙ stall in
          Post-map (if r.1.stall_due_to_branch then ok s1 else issue D s1)
            (Post-if {P = λ t. t.machine.trigger_end ≡ true} r.1.stall_due_to_branch (holds ends)
              (Post-weaken (issue-stalled D s1 stalled) λ t same. same ∙ ends))
            λ s2 w.
              Post-map (display_registers D print_fixed s2.machine)
                (display_registers-Untouched D print_fixed s2.machine) λ t k. holds (k.flag ∙ w)
