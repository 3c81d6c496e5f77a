-- ===== src/Tomasulo/Bus/Memory.antt =====
-- The bus while a load or a store executes.
use mscs.Common.{if_either, ◌+◌, refl, sym, ap, ◌∙◌, inl, inr, ◌&&◌, ltb, if◌then◌else◌, length}
use mscs.Common.Outcome.{ok, Post, holds, Post-bind, Post-map, Post-if}
use mscs.Common.Text.{Text}
use mscs.Common.Dict.{assign}
use mscs.Simulator.Double.{Double}
use mscs.Tomasulo.Types.{Register, FinalValue, Machine, FunctionalUnit, MemoryUnit}
use mscs.Tomasulo.Registers.{
  File, is_free, as_integer, as_float, integer_file, float_file, register, set_register,
  send_to_write_back,
}
use mscs.Tomasulo.Units.{at_start}
use mscs.Tomasulo.MemoryUnits.{
  begin_memory, effective_address, memory_cycle, loaded_value, store_text, store_value, send_loaded,
  finish_load, finish_store, execute_memory, execute_load, execute_store,
}
use mscs.Tomasulo.Frame.{
  Inside, Kept, Inside-refl, keep_running-Kept, IsApart, begin-Inside, integer_file-IsApart,
  float_file-IsApart, send_to_write_back-Inside,
}
use mscs.Simulator.Transfer.{address_at}

module _ (D : Double) where
  open D use {Value, zero_value}

  pub begin_memory-Inside :
      (u : FunctionalUnit Value) (m : Machine Value) → Inside m (begin_memory D u m).1
  unfolding begin_memory
  begin_memory-Inside u m =
      if_either {A = FunctionalUnit Value × Machine Value} (λ x. Inside m x.1) u.ins.is_double
        (begin-Inside (float_file zero_value) (float_file-IsApart zero_value) u m)
        (begin-Inside integer_file integer_file-IsApart u m)

  pub memory_cycle-Inside :
      (u : MemoryUnit Value) (m : Machine Value) → Post (λ r. Inside m r.1) (memory_cycle D u m)
  unfolding memory_cycle
  memory_cycle-Inside u m =
      Post-if (is_free (register integer_file u.fu.ins.source_reg1 m) && at_start u.fu)
        (Post-bind (effective_address D u.fu.ins m) λ a e. holds (begin_memory-Inside u.fu m))
        (Post-if (ltb u.fu.remaining u.fu.i_count) (holds (Inside-refl m)) (holds (Inside-refl m)))

  pub store_text-Inside :
      (text : Text) (u : MemoryUnit Value) (m : Machine Value)
      → Post (λ m'. Inside m m') (store_text D text u m)
  unfolding store_text
  store_text-Inside text u m =
      Post-bind (address_at (length text + 1) u.mem_address)
        λ a e. holds (record { bus = inr refl; flag = refl })

  pub set_register-Inside :
      {S : Type 0} (R : File Value S) (reg : Text) (r : Register S) {m n : Machine Value}
      → IsApart R
      → Inside m n
      → Inside m (set_register R reg r n)
  unfolding set_register
  set_register-Inside R reg r {m} {n} apart h =
      let k = apart (assign reg r (R.registers n)) n in
      record {
        bus = elim h.bus [
          | inl free ↦ inl free
          | inr same ↦ elim k.bus [
            | inl free ↦ inl (ap (λ w. w.busy) (sym same) ∙ free)
            | inr same' ↦ inr (same' ∙ same)
          ]
        ];
        flag = k.flag ∙ h.flag;
      }

  pub store_value-Inside :
      (u : MemoryUnit Value) (m : Machine Value) → Post (λ m'. Inside m m') (store_value D u m)
  unfolding store_value
  store_value-Inside u m =
      Post-if u.fu.ins.is_double
        (Post-bind (as_float u.fu.ins.target) λ reg e.
          Post-map (store_text D _ u m) (store_text-Inside _ u m) λ m' h.
            holds
              (set_register-Inside (float_file zero_value) reg _ (float_file-IsApart zero_value) h))
        (Post-bind (as_integer u.fu.ins.target) λ reg e.
          Post-map (store_text D _ u m) (store_text-Inside _ u m)
            λ m' h. holds (set_register-Inside integer_file reg _ integer_file-IsApart h))

  pub send_loaded-Inside :
      (v : FinalValue Value) (u : MemoryUnit Value) (m : Machine Value)
      → Inside m (send_loaded D v u m).1
  unfolding send_loaded
  send_loaded-Inside v u m =
      let i = u.fu.ins in
      let r = send_to_write_back D i.is_double v i.target i.target_reg m in
      if_either {A = MemoryUnit Value × Machine Value} (λ x. Inside m x.1) r.0
        (send_to_write_back-Inside D i.is_double v i.target i.target_reg m)
        (send_to_write_back-Inside D i.is_double v i.target i.target_reg m)

  pub execute_load-Kept :
      (u : MemoryUnit Value) (m : Machine Value) → Post (λ r. Kept m r.1) (execute_load D u m)
  unfolding execute_load execute_memory finish_load
  execute_load-Kept u m =
      keep_running-Kept u.fu.busy u.fu.do_not_execute _ m
        (λ m'. if ltb 0 u.fu.remaining then memory_cycle D u m' else finish_load D u m')
        λ m'. Post-if (ltb 0 u.fu.remaining) (memory_cycle-Inside u m') (
          Post-bind (if u.fu.wait_to_write_back then ok u.fu.final_value else loaded_value D u m')
            λ v e. holds (send_loaded-Inside v u m'))

  pub execute_store-Kept :
      (u : MemoryUnit Value) (m : Machine Value) → Post (λ r. Kept m r.1) (execute_store D u m)
  unfolding execute_store execute_memory finish_store
  execute_store-Kept u m =
      keep_running-Kept u.fu.busy u.fu.do_not_execute _ m
        (λ m'. if ltb 0 u.fu.remaining then memory_cycle D u m' else finish_store D u m')
        λ m'. Post-if (ltb 0 u.fu.remaining) (memory_cycle-Inside u m') (
          Post-if u.fu.wait_to_write_back (holds (Inside-refl m'))
            (Post-map (store_value D u m') (store_value-Inside u m') λ n h. holds h))
