-- ===== src/Tomasulo/MemoryUnits.antt =====
-- `LSReservationStation::execute`: loads and stores of decimal text in the memory. `memAddress` is
-- a `double` that holds a whole number.
use mscs.Common.{
  ◌+◌, true, false, not, ◌&&◌, ◌||◌, ltb, if◌then◌else◌, none, some, [], ◌∷◌, ◌++◌, length,
}
use mscs.Common.Int.{ℤ, negsuc}
use mscs.Common.Outcome.{Outcome, undefined, ok, ◌>>=◌}
use mscs.Common.Text.{Text, atoi, print_int}
use mscs.Simulator.Double.{Double}
use mscs.Simulator.Operand.{c_string}
use mscs.Simulator.Arithmetic.{add_int}
use mscs.Simulator.Transfer.{read_mem, write_mem, address_at, until_nul}
use mscs.Tomasulo.Types.{FinalValue, ival, dval, Instruction, Machine, FunctionalUnit, MemoryUnit}
use mscs.Tomasulo.Registers.{
  is_free, as_integer, as_float, integer_file, float_file, register, set_register,
  send_to_write_back, reset_unit,
}
use mscs.Tomasulo.Units.{keep_running, tick, at_start, begin}

module _ (D : Double) where
  open D use {Value, zero_value, parse, print_short, to_int}

  -- `LSReservationStation::resetFU`
  unfoldable pub reset_memory_unit : MemoryUnit Value → MemoryUnit Value
  unfolding reset_unit
  reset_memory_unit u = record { fu = reset_unit D u.fu; mem_address = negsuc 0 }

  -- The target is taken in the file that the instruction's type names.
  unfoldable pub begin_memory :
      FunctionalUnit Value → Machine Value → FunctionalUnit Value × Machine Value
  unfolding begin
  begin_memory u m =
      if u.ins.is_double then begin (float_file zero_value) u m else begin integer_file u m

  -- `atoi(temp) + integer_registers[..].getval()`, with `char temp[20]`.
  unfoldable pub effective_address : Instruction → Machine Value → Outcome ℤ
  unfolding c_string atoi register add_int
  effective_address i m = do
    temp ← c_string 20 i.temp_a
    offset ← atoi temp
    add_int offset (register integer_file i.source_reg1 m).val

  -- The base has to be free in the first cycle only.
  unfoldable pub memory_cycle :
      MemoryUnit Value → Machine Value → Outcome (MemoryUnit Value × Machine Value)
  unfolding register effective_address begin_memory tick
  memory_cycle u m =
      if is_free (register integer_file u.fu.ins.source_reg1 m) && at_start u.fu
      then (effective_address u.fu.ins m >>= λ a.
          (let (fu, m') = begin_memory u.fu m in ok (record { fu = fu; mem_address = a }, m')))
      else if ltb u.fu.remaining u.fu.i_count
      then ok (record u { fu = tick u.fu }, m)
      else ok (u, m)

  -- `memcpy(output,..)` of eight or four bytes, and `strtod`.
  unfoldable pub loaded_value : MemoryUnit Value → Machine Value → Outcome (FinalValue Value)
  unfolding address_at read_mem until_nul
  loaded_value u m =
      if u.fu.ins.is_double
      then (address_at 8 u.mem_address >>= λ a. ok (dval (parse (until_nul (read_mem 8 a m.mem)))))
      else (address_at 4 u.mem_address >>= λ a.
          elim (to_int (parse (until_nul (read_mem 4 a m.mem)))) [
            | none ↦ undefined
            | some v ↦ ok (ival v)
          ])

  -- `sprintf(&mem[..],..)` writes the text and its NUL; then the target is free.
  unfoldable pub store_text : Text → MemoryUnit Value → Machine Value → Outcome (Machine Value)
  unfolding address_at write_mem
  store_text text u m = do
    a ← address_at (length text + 1) u.mem_address
    ok (record m { mem = write_mem a (text ++ 0 ∷ []) m.mem })

  unfoldable pub store_value : MemoryUnit Value → Machine Value → Outcome (Machine Value)
  unfolding store_text register set_register print_int as_float as_integer
  store_value u m =
      if u.fu.ins.is_double
      then (as_float u.fu.ins.target >>= λ reg.
          (let r = register (float_file zero_value) reg m in
            (store_text (print_short r.val) u m >>= λ m'.
            ok (set_register (float_file zero_value) reg (record r { wait_on = none }) m'))))
      else (as_integer u.fu.ins.target >>= λ reg.
          (let r = register integer_file reg m in
            (store_text (print_int r.val) u m >>= λ m'.
            ok (set_register integer_file reg (record r { wait_on = none }) m'))))

  unfoldable pub send_loaded :
      FinalValue Value → MemoryUnit Value → Machine Value → MemoryUnit Value × Machine Value
  unfolding send_to_write_back reset_memory_unit
  send_loaded v u m =
      let i = u.fu.ins in
      let (sent, m') = send_to_write_back D i.is_double v i.target i.target_reg m in
      if sent
      then (reset_memory_unit u, m')
      else (record u { fu = record u.fu { final_value = v; wait_to_write_back = true } }, m')

  unfoldable pub finish_load :
      MemoryUnit Value → Machine Value → Outcome (MemoryUnit Value × Machine Value)
  unfolding loaded_value send_loaded
  finish_load u m =
      (if u.fu.wait_to_write_back then ok u.fu.final_value else loaded_value u m) >>= λ v.
      ok (send_loaded v u m)

  unfoldable pub finish_store :
      MemoryUnit Value → Machine Value → Outcome (MemoryUnit Value × Machine Value)
  unfolding store_value reset_memory_unit
  finish_store u m =
      if u.fu.wait_to_write_back
      then ok (u, m)
      else (store_value u m >>= λ m'. ok (reset_memory_unit u, m'))

  unfoldable pub execute_memory :
      (MemoryUnit Value → Machine Value → Outcome (MemoryUnit Value × Machine Value))
      → MemoryUnit Value
      → Machine Value
      → Outcome (MemoryUnit Value × Machine Value)
  unfolding keep_running memory_cycle
  execute_memory finish u m =
      let m' = keep_running u.fu.busy m in
      if u.fu.do_not_execute || not u.fu.busy
      then ok (record u { fu = record u.fu { do_not_execute = false } }, m')
      else if ltb 0 u.fu.remaining
      then memory_cycle u m'
      else finish u m'

  unfoldable pub execute_load :
      MemoryUnit Value → Machine Value → Outcome (MemoryUnit Value × Machine Value)
  unfolding execute_memory finish_load
  execute_load = execute_memory finish_load

  unfoldable pub execute_store :
      MemoryUnit Value → Machine Value → Outcome (MemoryUnit Value × Machine Value)
  unfolding execute_memory finish_store
  execute_store = execute_memory finish_store
