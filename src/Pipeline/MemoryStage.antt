-- ===== src/Pipeline/MemoryStage.antt =====
-- `memoryAccessCycle`: loads and stores, by the first letter of the opcode.
use mscs.Common.{ℕ, suc, Bool, true, false, if◌then◌else◌, List, [], ◌∷◌, ◌++◌, length}
use mscs.Common.Outcome.{Outcome, ok, undefined, ◌>>=◌}
use mscs.Common.Text.{Text, codes, starts_with, print_int}
use mscs.Simulator.Double.{Double}
use mscs.Simulator.Transfer.{read_mem, write_mem, address_at}
use mscs.Pipeline.Buffers.{copy_into}
use mscs.Pipeline.Cpu.{
  Target, null, integer_target, float_target, Cpu, integer_register, float_register,
}
use mscs.Pipeline.Alu.{buffer_int}

module _ (D : Double) where
  open D use {Value, zero_value, print_short}

  -- `memcpy(&MemWB.output,&mem[..],n)`: the bytes behind the first `n` stay those of the address.
  unfoldable pub load_output : ℕ → List ℕ → Cpu Value → Outcome (List ℕ)
  unfolding buffer_int address_at read_mem copy_into
  load_output n output c = do
    k ← buffer_int output
    a ← address_at n k
    copy_into (read_mem n a c.mem) output

  -- `sprintf(&mem[..],..)`
  unfoldable pub print_mem : Text → List ℕ → Cpu Value → Outcome (Cpu Value)
  unfolding buffer_int address_at write_mem
  print_mem t output c = do
    k ← buffer_int output
    a ← address_at (suc (length t)) k
    ok (record c { mem = write_mem a (t ++ 0 ∷ []) c.mem })

  -- The register that the latch points to, as text.
  unfoldable pub stored_text : Bool → Target → Cpu Value → Outcome Text
  unfolding float_register integer_register print_int
  stored_text true (float_target reg) c = ok (print_short (float_register zero_value reg c))
  stored_text false (integer_target reg) c = ok (print_int (integer_register reg c))
  stored_text true null c = undefined
  stored_text true (integer_target reg) c = undefined
  stored_text false null c = undefined
  stored_text false (float_target reg) c = undefined

  unfoldable pub load_stage : Cpu Value → Outcome (Cpu Value)
  unfolding load_output
  load_stage c = do
    let n = if c.mem_wb.latch.is_double then 8 else 4
    output ← load_output n c.mem_wb.output c
    ok (record c { mem_wb = record c.mem_wb { output = output } })

  unfoldable pub store_stage : Cpu Value → Outcome (Cpu Value)
  unfolding stored_text print_mem
  store_stage c = do
    t ← stored_text c.mem_wb.latch.is_double c.mem_wb.latch.target c
    print_mem t c.mem_wb.output c

  -- The ladder of opcodes, on the copied latch: `SUB` begins with `S` too.
  unfoldable pub access : Text → Cpu Value → Outcome (Cpu Value)
  unfolding load_stage store_stage starts_with
  access op c =
      if starts_with (codes "LI") op
      then ok c
      else if starts_with (codes "L") op
      then load_stage c
      else if starts_with (codes "S") op
      then store_stage c
      else ok c

  unfoldable pub memory_access : Cpu Value → Outcome (Cpu Value)
  unfolding access
  memory_access c =
      access c.execute_mem_buffered.latch.opcode (record c { mem_wb = c.execute_mem_buffered })
