-- ===== src/Tomasulo/Stuck/Forever.antt =====
-- A program with such a branch in a unit.
use mathlib.Core.Path.{subst}
use mscs.Common.{
  ℕ, zero, suc, ◌+◌, ◌≡◌, refl, sym, ap, ◌∙◌, inl, inr, true, false, not, ◌&&◌, ◌||◌, if◌then◌else◌,
  List, [], ◌∷◌, length, Bool-cases,
}
use mscs.Common.Int.{pos, ◌-ℤ◌, eqb_ℤ}
use mscs.Common.Outcome.{ok, Post, holds, Post-bind, Post-map, Post-if, Post-weaken, Post-and}
use mscs.Common.Text.{Text, codes}
use mscs.Simulator.Double.{Double}
use mscs.Tomasulo.Types.{
  noop, load, store, load_d, store_d, Instruction, Machine, ArithmeticUnit, Stations,
}
use mscs.Tomasulo.Registers.{eq_opcode, run_write_back}
use mscs.Tomasulo.Units.{execute_imul, execute_idiv, execute_fmul, execute_fdiv}
use mscs.Tomasulo.Adders.{is_one_of, execute_iadd, execute_fadd}
use mscs.Tomasulo.MemoryUnits.{execute_load, execute_store}
use mscs.Tomasulo.Decode.{decode}
use mscs.Tomasulo.Reservation.{Verdict, accepted, full, dropped, blocked, fill_units, unit_count}
use mscs.Tomasulo.Reservation.Kinds.{issue_store}
use mscs.Tomasulo.Frame.{Kept}
use mscs.Tomasulo.Bus.{execute_fadd-Kept, execute_fmul-Kept, execute_fdiv-Kept}
use mscs.Tomasulo.Issue.{is_memory_busy, reset_at, conclude_store, run_store, run_reservation}
use mscs.Tomasulo.Stage.{execute_all-Kept}
use mscs.Tomasulo.Cycle.{
  Simulation, execute_all, instruction_at, below_size, decoded_or_blank, fetch_next, fetch_again,
  fetch, execute, issue, display_registers, cycle, run_cycles,
}
use mscs.Tomasulo.Safety.Kinds.{run_load-IsSafe, run_reservation-IsSafe}
use mscs.Tomasulo.Ending.{issue-IsFetched}
use mscs.Tomasulo.Ending.Rounds.{display_registers-Untouched}
use mscs.Tomasulo.Stuck.{HasStuck, HasStuck-Keeps, execute_fadd-IsStuck}

module _ (D : Double) where
  open D use {Value, zero_value}

  still_running : (m n : Machine Value) → Kept m n → m.trigger_end ≡ false → n.trigger_end ≡ false
  still_running m n k h = elim k.change [
    | inl same ↦ ap (λ x. x.trigger_end) same ∙ h
    | inr ended ↦ ended
  ]

  execute_all-HasStuck :
      (us : List (ArithmeticUnit Value Value)) (m : Machine Value)
      → HasStuck us
      → Post (λ r. HasStuck r.0 × (r.1.trigger_end ≡ false)) (execute_all (execute_fadd D) us m)
  unfolding execute_all
  execute_all-HasStuck [] m h = elim h [ ]
  execute_all-HasStuck (u ∷ us) m (inl h) =
      Post-map (execute_fadd D u m) (execute_fadd-IsStuck D u m h) λ r q.
        Post-map (execute_all (execute_fadd D) us r.1)
          (execute_all-Kept D (execute_fadd D) (execute_fadd-Kept D) us r.1)
          λ t k. holds (inl q.0, still_running r.1 t.1 k q.1)
  execute_all-HasStuck (u ∷ us) m (inr h) = Post-bind (execute_fadd D u m) λ r e.
      Post-map (execute_all (execute_fadd D) us r.1) (execute_all-HasStuck us r.1 h)
        λ t q. holds (inr q.0, q.1)

  pub execute-HasStuck :
      (s : Stations Value) (m : Machine Value)
      → HasStuck s.fadd_rs
      → Post (λ r. HasStuck r.0.fadd_rs × (r.1.trigger_end ≡ false)) (execute D s m)
  unfolding execute
  execute-HasStuck s m h = Post-bind (execute_all (execute_load D) s.load_rs m) λ r1 e1.
      Post-bind (execute_all (execute_store D) s.store_rs r1.1) λ r2 e2.
        Post-bind (execute_all (execute_iadd D) s.iadd_rs r2.1) λ r3 e3.
          Post-bind (execute_all (execute_imul D) s.imul_rs r3.1) λ r4 e4.
            Post-bind (execute_all (execute_idiv D) s.idiv_rs r4.1) λ r5 e5.
              Post-map (execute_all (execute_fadd D) s.fadd_rs r5.1)
                (execute_all-HasStuck s.fadd_rs r5.1 h)
                λ r6 q.
                  Post-map (execute_all (execute_fmul D) s.fmul_rs r6.1)
                    (execute_all-Kept D (execute_fmul D) (execute_fmul-Kept D) s.fmul_rs r6.1)
                    λ r7 k7.
                      Post-map (execute_all (execute_fdiv D) s.fdiv_rs r7.1)
                        (execute_all-Kept D (execute_fdiv D) (execute_fdiv-Kept D) s.fdiv_rs r7.1)
                        λ r8 k8.
                          holds (q.0, still_running r7.1 r8.1 k8 (still_running r6.1 r7.1 k7 q.1))

  -- A store does not touch the units of floats.
  conclude_store-fadds :
      (v : Verdict) (t : Stations Value) (n : Machine Value)
      → Post (λ r. r.0.fadd_rs ≡ t.fadd_rs) (conclude_store D v t n)
  unfolding conclude_store
  conclude_store-fadds accepted t n = holds refl
  conclude_store-fadds full t n = holds refl
  conclude_store-fadds dropped t n = holds refl
  conclude_store-fadds (blocked k) t n = Post-bind (reset_at D k t.load_rs) λ us e. holds refl

  stored-HasStuck :
      (i : Instruction) (s : Stations Value) (m : Machine Value)
      → is_one_of i.opcode (store ∷ store_d ∷ []) ≡ true
      → HasStuck s.fadd_rs
      → Post (λ r. HasStuck r.0.fadd_rs) (run_reservation D i s m)
  unfolding run_reservation run_store
  stored-HasStuck i s m e h = Post-if (eq_opcode i.opcode noop) (holds h) (
      Post-if (is_one_of i.opcode (load ∷ load_d ∷ []))
        (Post-weaken (run_load-IsSafe D i s m)
          λ r q. HasStuck-Keeps s.fadd_rs r.0.fadd_rs q.0.fadds h)
        (rw e (
          Post-bind
            (fill_units is_memory_busy (issue_store D i) (unit_count (codes "stores") m) s.store_rs
              m)
            λ r k.
              Post-weaken (conclude_store-fadds r.2 (record s { store_rs = r.0 }) r.1)
                λ t same. subst HasStuck (sym same) h)))

  run_reservation-HasStuck :
      (i : Instruction) (s : Stations Value) (m : Machine Value)
      → HasStuck s.fadd_rs
      → Post (λ r. HasStuck r.0.fadd_rs) (run_reservation D i s m)
  run_reservation-HasStuck i s m h = elim (Bool-cases (is_one_of i.opcode (store ∷ store_d ∷ []))) [
    | inr e ↦
        Post-weaken (run_reservation-IsSafe D i s m e)
          λ r q. HasStuck-Keeps s.fadd_rs r.0.fadd_rs q.0.fadds h
    | inl e ↦ stored-HasStuck i s m e h
  ]

  fetch-stations : (s : Simulation Value) → Post (λ s'. s'.stations ≡ s.stations) (fetch s)
  unfolding fetch fetch_next fetch_again
  fetch-stations s =
      let m = s.machine in
      Post-if (not m.stall_if && below_size m.program_counter s.vprogram && not m.freeze)
        (Post-bind (instruction_at m.program_counter s.vprogram) λ i e. holds refl)
        (Post-if (eqb_ℤ m.program_counter (pos (length s.vprogram)))
          (Post-if (m.stall_if || m.freeze)
            (Post-bind (instruction_at (m.program_counter -ℤ pos 1) s.vprogram) λ i e. holds refl)
            (holds refl))
          (Post-if (below_size m.program_counter s.vprogram && m.stall_if)
            (Post-bind (instruction_at (m.program_counter -ℤ pos 1) s.vprogram) λ i e. holds refl)
            (holds refl)))

  -- What a round keeps.
  abbrev pub StaysStuck : Simulation Value → Type 0
  StaysStuck s = HasStuck s.stations.fadd_rs × (s.machine.trigger_end ≡ false)

  issue-HasStuck :
      (s : Simulation Value)
      → HasStuck s.stations.fadd_rs
      → Post (λ t. HasStuck t.stations.fadd_rs) (issue D s)
  unfolding issue
  issue-HasStuck s h = Post-map (fetch s) (fetch-stations s) λ s1 same.
      Post-bind (decoded_or_blank (decode s1.ir s1.machine)) λ i e.
        Post-map (run_reservation D i s1.stations s1.machine)
          (run_reservation-HasStuck i s1.stations s1.machine
            (subst (λ t. HasStuck t.fadd_rs) (sym same) h))
          λ r q. holds q

  issue-StaysStuck : (s : Simulation Value) → StaysStuck s → Post StaysStuck (issue D s)
  issue-StaysStuck s h =
      Post-weaken (Post-and (issue-HasStuck s h.0) (issue-IsFetched D s))
        λ t q. (q.0, elim q.1.1 [ inl same ↦ same ∙ h.1 | inr ended ↦ ended ])

module _ (D : Double) (print_fixed : D.Value → Text) where
  open D use {Value}

  pub cycle-StaysStuck :
      (s : Simulation Value)
      → HasStuck s.stations.fadd_rs
      → Post (StaysStuck D) (cycle D print_fixed s)
  unfolding cycle
  cycle-StaysStuck s h =
      Post-bind (run_write_back D (record s.machine { trigger_end = true })) λ m e.
        Post-map (execute D s.stations m) (execute-HasStuck D s.stations m h) λ r q.
          let s1 : Simulation Value = record s {
            machine = r.1;
            stations = r.0;
            cycle_count = s.cycle_count + 1;
          } in
          Post-map (if r.1.stall_due_to_branch then ok s1 else issue D s1)
            (Post-if {P = StaysStuck D} r.1.stall_due_to_branch (holds q) (issue-StaysStuck D s1 q))
            λ s2 w.
              Post-map (display_registers D print_fixed s2.machine)
                (display_registers-Untouched D print_fixed s2.machine)
                λ t k. holds (w.0, k.flag ∙ w.1)

  -- A program that runs, with a `BGTZ.D` or a `BLTZ.D` in a busy unit of `FAddRS` that has not yet
  -- counted down, whose opcode has at least one cycle and which has no target: however many rounds
  -- it is given, if they are defined it has not ended.
  pub run_cycles-forever :
      (fuel : ℕ) (s : Simulation Value)
      → HasStuck s.stations.fadd_rs
      → s.machine.trigger_end ≡ false
      → Post (λ r. r.0 ≡ false) (run_cycles D print_fixed fuel s)
  unfolding run_cycles
  run_cycles-forever zero s h e = holds e
  run_cycles-forever (suc fuel) s h e =
      rw (e, run_cycles)
        (Post-map (cycle D print_fixed s) (cycle-StaysStuck s h)
          λ t q. run_cycles-forever fuel t q.0 q.1)
