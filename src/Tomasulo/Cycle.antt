-- ===== src/Tomasulo/Cycle.antt =====
-- `execute`, `Issue`, `displayRegsiterFileStatus` and `executeProgram`.
use mscs.Common.{
  ℕ, zero, suc, ◌+◌, Bool, true, false, not, ◌&&◌, ◌||◌, ltb, if◌then◌else◌, none, some, List, [],
  ◌∷◌, ◌++◌, length, get_elem?,
}
use mscs.Common.Int.{ℤ, pos, negsuc, ◌+ℤ◌, ◌-ℤ◌, eqb_ℤ}
use mscs.Common.Outcome.{Outcome, undefined, fail, ok, ◌>>=◌}
use mscs.Common.Text.{Text, codes, print_int}
use mscs.Simulator.Double.{Double}
use mscs.Simulator.Operand.{c_string}
use mscs.Simulator.Machine.{integer_names, float_names}
use mscs.Tomasulo.Types.{
  Register, Instruction, blank_instruction, instruction_reset, Machine, Stations,
}
use mscs.Tomasulo.Registers.{File, integer_file, float_file, register, touch, run_write_back}
use mscs.Tomasulo.Units.{execute_imul, execute_idiv, execute_fmul, execute_fdiv}
use mscs.Tomasulo.Adders.{execute_iadd, execute_fadd}
use mscs.Tomasulo.MemoryUnits.{execute_load, execute_store}
use mscs.Tomasulo.Issue.{run_reservation}
use mscs.Tomasulo.Decode.{decode}

-- The global state of sim_t.cpp.
pub record Simulation (V : Type 0) : Type 0 where
  pub machine : Machine V
  pub stations : Stations V
  pub vprogram : List Instruction
  pub ir : Instruction
  pub cycle_count : ℕ
  pub stall_count : ℕ
  pub instruction_count : ℕ

-- `for(i=0; i < rs.size(); i++) rs[i].execute();`
unfoldable pub execute_all :
    {U M : Type 0} → (U → M → Outcome (U × M)) → List U → M → Outcome (List U × M)
execute_all f [] m = ok ([], m)
execute_all f (u ∷ us) m = do (u', m1) ← f u m; (us', m2) ← execute_all f us m1; ok (u' ∷ us', m2)

-- `IR = vprogram[programCounter-1]`
unfoldable pub instruction_at : ℤ → List Instruction → Outcome Instruction
instruction_at (negsuc n) is = undefined
instruction_at (pos n) is = elim (get_elem? is n) [ none ↦ undefined | some i ↦ ok i ]

-- `programCounter < vprogram.size()`, where a negative number is a large one.
unfoldable pub below_size : ℤ → List Instruction → Bool
below_size (pos n) is = ltb n (length is)
below_size (negsuc n) is = false

-- What `decode` cannot read is issued as `NOOP`.
unfoldable pub decoded_or_blank : Outcome Instruction → Outcome Instruction
decoded_or_blank (ok i) = ok i
decoded_or_blank (fail e) = ok blank_instruction
decoded_or_blank undefined = undefined

module _ {V : Type 0} where
  unfoldable pub fetch_next : Simulation V → Outcome (Simulation V)
  unfolding instruction_at ◌+ℤ◌
  fetch_next s = do
    i ← instruction_at s.machine.program_counter s.vprogram
    ok (record s {
      ir = i;
      instruction_count = s.instruction_count + 1;
      machine = record s.machine {
        program_counter = s.machine.program_counter +ℤ pos 1;
        trigger_end = false;
      };
    })

  unfoldable pub fetch_again : Simulation V → Outcome (Simulation V)
  unfolding instruction_at ◌-ℤ◌
  fetch_again s = do
    i ← instruction_at (s.machine.program_counter -ℤ pos 1) s.vprogram
    ok (record s { ir = i })

  -- The first part of `Issue`.
  unfoldable pub fetch : Simulation V → Outcome (Simulation V)
  unfolding fetch_next fetch_again below_size instruction_reset ◌+ℤ◌
  fetch s =
      let m = s.machine in
      if not m.stall_if && below_size m.program_counter s.vprogram && not m.freeze
      then fetch_next s
      else if eqb_ℤ m.program_counter (pos (length s.vprogram))
      then (if m.stall_if || m.freeze
          then fetch_again s
          else ok (record s {
            ir = instruction_reset s.ir;
            machine = record m { program_counter = m.program_counter +ℤ pos 1 };
          }))
      else if below_size m.program_counter s.vprogram && m.stall_if
      then fetch_again s
      else ok s

-- `getstatus`: `char c[6]` holds five characters.
unfoldable pub get_status : {S : Type 0} → (S → Text) → Register S → Outcome Text
unfolding c_string print_int
get_status print r = elim r.wait_on [
  | none ↦ c_string 6 (print r.val)
  | some id ↦ c_string 6 (codes "W-" ++ print_int (pos id))
]

unfoldable pub display :
    {V S : Type 0} → File V S → (S → Text) → List Text → Machine V → Outcome (List Text × Machine V)
unfolding get_status register touch
display R print [] m = ok ([], m)
display R print (reg ∷ regs) m = do
  status ← get_status print (register R reg m)
  (rest, m') ← display R print regs (touch R reg m)
  ok (status ∷ rest, m')

module _ (D : Double) where
  open D use {Value, zero_value}

  -- `execute`
  unfoldable pub execute : Stations Value → Machine Value → Outcome (Stations Value × Machine Value)
  unfolding execute_all execute_load execute_store execute_iadd execute_imul execute_idiv
      execute_fadd execute_fmul execute_fdiv
  execute s m = do
    (loads, m1) ← execute_all (execute_load D) s.load_rs m
    (stores, m2) ← execute_all (execute_store D) s.store_rs m1
    (iadds, m3) ← execute_all (execute_iadd D) s.iadd_rs m2
    (imuls, m4) ← execute_all (execute_imul D) s.imul_rs m3
    (idivs, m5) ← execute_all (execute_idiv D) s.idiv_rs m4
    (fadds, m6) ← execute_all (execute_fadd D) s.fadd_rs m5
    (fmuls, m7) ← execute_all (execute_fmul D) s.fmul_rs m6
    (fdivs, m8) ← execute_all (execute_fdiv D) s.fdiv_rs m7
    ok (
      record {
        load_rs = loads;
        store_rs = stores;
        iadd_rs = iadds;
        imul_rs = imuls;
        idiv_rs = idivs;
        fadd_rs = fadds;
        fmul_rs = fmuls;
        fdiv_rs = fdivs;
      },
      m8,
    )

  -- `Issue`
  unfoldable pub issue : Simulation Value → Outcome (Simulation Value)
  unfolding fetch decode decoded_or_blank run_reservation
  issue s = do
    s' ← fetch s
    i ← decoded_or_blank (decode s'.ir s'.machine)
    (stations, m) ← run_reservation D i s'.stations s'.machine
    ok (record s' {
      stations = stations;
      machine = m;
      stall_count = if m.stall_if then s'.stall_count + 1 else s'.stall_count;
    })

-- `print_fixed` is the `%.3f` of `sprintf`.
module _ (D : Double) (print_fixed : D.Value → Text) where
  open D use {Value, zero_value}

  -- `displayRegsiterFileStatus`
  unfoldable pub display_registers : Machine Value → Outcome (List Text × List Text × Machine Value)
  unfolding display print_int
  display_registers m = do
    (integers, m1) ← display integer_file print_int integer_names m
    (floats, m2) ← display (float_file zero_value) print_fixed float_names m1
    ok (integers, floats, m2)

  -- One round of the loop of `executeProgram`.
  unfoldable pub cycle : Simulation Value → Outcome (Simulation Value)
  unfolding run_write_back execute issue display_registers
  cycle s = do
    m ← run_write_back D (record s.machine { trigger_end = true })
    (stations, m') ← execute D s.stations m
    let s1 = record s { machine = m'; stations = stations; cycle_count = s.cycle_count + 1 }
    s2 ← if m'.stall_due_to_branch then ok s1 else issue D s1
    (_, _, m2) ← display_registers s2.machine
    ok (record s2 { machine = m2 })

  -- The loop, with the rounds that are given to it; `false` where they are used up.
  unfoldable pub run_cycles : ℕ → Simulation Value → Outcome (Bool × Simulation Value)
  unfolding cycle
  run_cycles zero s = ok (s.machine.trigger_end, s)
  run_cycles (suc fuel) s = elim s.machine.trigger_end [
    | true ↦ ok (true, s)
    | false ↦ do s' ← cycle s; run_cycles fuel s'
  ]

  -- `executeProgram`
  unfoldable pub execute_program : ℕ → Simulation Value → Outcome (Bool × Simulation Value)
  unfolding run_cycles
  execute_program fuel s = run_cycles fuel (record s {
    machine = record s.machine { trigger_end = false; stall_due_to_rs = λ k. false };
  })
