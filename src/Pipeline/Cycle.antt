-- ===== src/Pipeline/Cycle.antt =====
-- `executeProgram`: a cycle of the five stages, the copies into the buffered latches, and the loop.
use mscs.Common.{
  ℕ, zero, suc, ◌+◌, ◌==◌, Bool, true, false, not, ◌&&◌, ◌||◌, ltb, if◌then◌else◌, none, some, List,
  [], length, get_elem?,
}
use mscs.Common.Outcome.{Outcome, ok, undefined, ◌>>=◌}
use mscs.Common.Text.{Text}
use mscs.Simulator.Double.{Double}
use mscs.Pipeline.Buffers.{zeros, is_empty}
use mscs.Pipeline.Cpu.{no_latch, no_data, Cpu}
use mscs.Pipeline.WriteBack.{write_back}
use mscs.Pipeline.Decode.{instruction_decode}
use mscs.Pipeline.Alu.{instruction_execute}
use mscs.Pipeline.MemoryStage.{memory_access}

-- `vprogram[i]`
unfoldable pub line_at : List Text → ℕ → Outcome Text
line_at program i = elim (get_elem? program i) [ none ↦ undefined | some line ↦ ok line ]

-- `vprogram[programCounter-1]`
unfoldable pub line_before : List Text → ℕ → Outcome Text
unfolding line_at
line_before program zero = undefined
line_before program (suc i) = line_at program i

module _ {V : Type 0} where
  abbrev pub is_held : Cpu V → Bool
  is_held c = c.stall_if || c.freeze

  unfoldable pub fetch_next : Cpu V → Outcome (Cpu V)
  unfolding line_at
  fetch_next c = do
    line ← line_at c.vprogram c.program_counter
    ok (record c {
      ir = line;
      program_counter = c.program_counter + 1;
      instruction_count = c.instruction_count + 1;
    })

  unfoldable pub fetch_again : Cpu V → Outcome (Cpu V)
  unfolding line_before
  fetch_again c = do line ← line_before c.vprogram c.program_counter; ok (record c { ir = line })

  -- `instructionFetch`
  unfoldable pub instruction_fetch : Cpu V → Outcome (Cpu V)
  unfolding fetch_next fetch_again
  instruction_fetch c =
      if not (is_held c) && ltb c.program_counter (length c.vprogram)
      then fetch_next c
      else if c.program_counter == length c.vprogram
      then (if is_held c
          then fetch_again c
          else ok (record c { ir = []; program_counter = c.program_counter + 1 }))
      else ok c

  -- The copies at the end of a cycle.
  unfoldable pub buffer_fetch : Cpu V → Cpu V
  buffer_fetch c =
      if is_held c
      then record c { stall_count = c.stall_count + 1 }
      else record c { ir_buffered = c.ir }

  unfoldable pub buffer_decode : Cpu V → Cpu V
  buffer_decode c = if c.freeze then c else record c {
    temp_a_buffered = c.temp_a;
    temp_b_buffered = c.temp_b;
    immediate_buffered = c.immediate;
    decode_execute_buffered = c.decode_execute;
  }

  -- What the decoder writes is cleared, unless it is frozen.
  unfoldable pub clear_decode : Cpu V → Cpu V
  clear_decode c =
      if c.freeze
      then c
      else record c { temp_a = zeros; temp_b = zeros; immediate = zeros; decode_execute = no_latch }

  unfoldable pub end_cycle : Cpu V → Cpu V
  unfolding buffer_fetch buffer_decode clear_decode
  end_cycle c =
      let c' = buffer_decode (buffer_fetch c) in
      record (clear_decode c') {
        execute_mem_buffered = c'.execute_mem;
        mem_wb_buffered = c'.mem_wb;
        execute_mem = no_data;
        mem_wb = no_data;
      }

  -- `endProgram`: nothing is left in the pipeline.
  unfoldable pub is_drained : Cpu V → Bool
  unfolding is_empty
  is_drained c =
      is_empty c.ir_buffered
      && is_empty c.decode_execute_buffered.opcode
      && is_empty c.execute_mem_buffered.latch.opcode
      && is_empty c.mem_wb_buffered.latch.opcode

  -- The state that the loop begins with.
  unfoldable pub reset_run : Cpu V → Cpu V
  reset_run c = record c {
    cycle_count = 0;
    stall_count = 0;
    instruction_count = 0;
    ir_buffered = [];
    decode_execute_buffered = record c.decode_execute_buffered { opcode = [] };
    execute_mem_buffered = record c.execute_mem_buffered {
      latch = record c.execute_mem_buffered.latch { opcode = [] };
    };
    mem_wb_buffered = record c.mem_wb_buffered {
      latch = record c.mem_wb_buffered.latch { opcode = [] };
    };
  }

module _ (D : Double) where
  open D use {Value}

  -- Each stage runs if there is an instruction in front of it.
  unfoldable pub decode_stage : Cpu Value → Outcome (Cpu Value)
  unfolding instruction_decode is_empty
  decode_stage c =
      if is_empty c.ir_buffered
      then ok (record c { decode_execute = record c.decode_execute { opcode = [] } })
      else instruction_decode D c

  unfoldable pub execute_stage : Cpu Value → Outcome (Cpu Value)
  unfolding instruction_execute is_empty
  execute_stage c =
      if is_empty c.decode_execute_buffered.opcode
      then ok (record c {
        execute_mem = record c.execute_mem { latch = record c.execute_mem.latch { opcode = [] } };
      })
      else instruction_execute D c

  unfoldable pub memory_stage : Cpu Value → Outcome (Cpu Value)
  unfolding memory_access is_empty
  memory_stage c =
      if is_empty c.execute_mem_buffered.latch.opcode
      then ok
          (record c { mem_wb = record c.mem_wb { latch = record c.mem_wb.latch { opcode = [] } } })
      else memory_access D c

  unfoldable pub write_stage : Cpu Value → Outcome (Cpu Value)
  unfolding write_back is_empty
  write_stage c = if is_empty c.mem_wb_buffered.latch.opcode then ok c else write_back D c

  -- The stages of a cycle, in the order of the code.
  unfoldable pub stages : Cpu Value → Outcome (Cpu Value)
  unfolding decode_stage execute_stage memory_stage write_stage
  stages c = do
    decoded ← decode_stage c
    executed ← execute_stage decoded
    accessed ← memory_stage executed
    write_stage accessed

  unfoldable pub cycle : Cpu Value → Outcome (Cpu Value)
  unfolding instruction_fetch stages end_cycle
  cycle c = do
    fetched ← instruction_fetch (record c { cycle_count = c.cycle_count + 1 })
    done ← stages fetched
    ok (end_cycle done)

  -- The `while` loop, `fuel` cycles of it at most, and whether it has ended.
  unfoldable pub loop : ℕ → Cpu Value → Outcome (Bool × Cpu Value)
  unfolding cycle is_drained
  loop zero c = ok (false, c)
  loop (suc fuel) c =
      cycle c >>= λ c'. (let rest = loop fuel c' in if is_drained c' then ok (true, c') else rest)

  -- `executeProgram`
  unfoldable pub execute_program : ℕ → Cpu Value → Outcome (Bool × Cpu Value)
  unfolding loop reset_run
  execute_program fuel c = loop fuel (reset_run c)
