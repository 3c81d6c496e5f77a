-- ===== src/Pipeline/Flow/Passage.antt =====
-- A program of one arithmetic instruction of integers through the cycles of the pipeline.
use mscs.Common.{ℕ, suc, ◌+◌, ◌≡◌, refl, ◌∙◌, true, false, List, [], ◌∷◌, if-true, if-false}
use mscs.Common.Int.{ℤ, pos, fits_int}
use mscs.Common.Outcome.{ok, bind-ok}
use mscs.Common.Text.{Text}
use mscs.Common.Dict.{Dict, assign}
use mscs.Simulator.Double.{Double}
use mscs.Pipeline.Buffers.{zeros, is_empty}
use mscs.Pipeline.Buffers.Texts.{Holds}
use mscs.Pipeline.Cpu.{Latch, integer_target, Cpu, set_integer}
use mscs.Pipeline.Program.{blank_cpu}
use mscs.Pipeline.WriteBack.{has_result, write_back}
use mscs.Pipeline.Alu.{instruction_execute}
use mscs.Pipeline.MemoryStage.{access, memory_access}
use mscs.Pipeline.Cycle.{
  line_at, instruction_fetch, fetch_next, decode_stage, execute_stage, memory_stage, write_stage,
  stages, buffer_fetch, buffer_decode, clear_decode, end_cycle, cycle, is_drained,
}
use mscs.Pipeline.Freeze.Returns.{waits, thaws}
use mscs.Pipeline.Flow.{write_target-Holds}

module _ (D : Double) where
  open D use {Value}

  -- The simulator behind `main`'s readers: a program of one line, the registers, the memory and the
  -- cycles of the opcodes of `c`, and nothing in the pipeline.
  abbrev pub alone : Text → Cpu Value → Cpu Value
  alone line c = record (blank_cpu D c.mem) {
    opcode_cycles = c.opcode_cycles;
    integer_registers = c.integer_registers;
    float_registers = c.float_registers;
    mlabels = c.mlabels;
    vprogram = line ∷ [];
  }

  -- The latch of the instruction.
  abbrev pub latch_of : Text → Text → Text → Latch
  latch_of t op line = record {
    target = integer_target t;
    target_register = t;
    is_double = false;
    opcode = op;
    instruction = line;
  }

  -- Behind the first cycle, and behind the second, with the operands in their buffers.
  abbrev pub fetched : Text → Cpu Value → Cpu Value
  fetched line c = record (alone line c) {
    cycle_count = 1;
    ir = line;
    ir_buffered = line;
    program_counter = 1;
    instruction_count = 1;
  }

  abbrev pub decoded : Text → List ℕ → List ℕ → Latch → Cpu Value → Cpu Value
  decoded line x y latch c = record (fetched line c) {
    cycle_count = 2;
    ir = [];
    ir_buffered = [];
    program_counter = 2;
    temp_a_buffered = x;
    temp_b_buffered = y;
    decode_execute_buffered = latch;
  }

  -- Behind a cycle of the execute stage that is not its last.
  abbrev pub stalled : ℕ → ℕ → Cpu Value → Cpu Value
  stalled cycle_count stall_count c = record c {
    cycle_count = cycle_count;
    stall_count = stall_count;
  }

  -- Behind the last one, and behind the memory stage.
  abbrev pub executed : ℕ → ℕ → Dict ℤ → ℤ → List ℕ → Cpu Value → Cpu Value
  executed cycle_count stall_count m left out c = record c {
    cycle_count = cycle_count;
    stall_count = stall_count;
    opcode_cycles = m;
    execute_cycle = left;
    freeze = false;
    temp_a_buffered = zeros;
    temp_b_buffered = zeros;
    decode_execute_buffered = (blank_cpu D c.mem).decode_execute;
    execute_mem_buffered = record { latch = c.decode_execute_buffered; output = out };
  }

  abbrev pub accessed : Cpu Value → Cpu Value
  accessed c = record c {
    cycle_count = c.cycle_count + 1;
    execute_mem_buffered = (blank_cpu D c.mem).execute_mem;
    mem_wb_buffered = c.execute_mem_buffered;
  }

  pub cycle-fetched : (line : Text) (c : Cpu Value) → cycle D (alone line c) ≡ ok (fetched line c)
  unfolding cycle instruction_fetch fetch_next line_at stages decode_stage execute_stage
      memory_stage write_stage end_cycle buffer_fetch buffer_decode clear_decode is_empty
  cycle-fetched line c = refl

  module _ (line op t : Text) (x y : List ℕ) (c : Cpu Value) (opcode : is_empty op ≡ false) where
    abbrev pub start : Cpu Value
    start = decoded line x y (latch_of t op line) c

    -- A cycle in which the execute stage freezes the pipeline or keeps it frozen.
    pub cycle-stalled :
        (n s k : ℕ) (m : Dict ℤ)
        → instruction_execute D (stalled (n + 1) s start)
          ≡ ok (waits D m k (stalled (n + 1) s start))
        → cycle D (stalled n s start) ≡ ok (waits D m k (stalled (n + 1) (s + 1) start))
    unfolding cycle instruction_fetch stages decode_stage execute_stage memory_stage write_stage
        end_cycle buffer_fetch buffer_decode clear_decode is_empty
    cycle-stalled n s k m e =
        bind-ok _ _
          (bind-ok (execute_stage D (stalled (n + 1) s start)) _
            (if-false (is_empty op) _ _ opcode ∙ e) refl)
          refl

    pub cycle-waits :
        (n s k : ℕ) (m m' : Dict ℤ)
        → instruction_execute D (waits D m (suc k) (stalled (n + 1) s start))
          ≡ ok (waits D m' k (stalled (n + 1) s start))
        → cycle D (waits D m (suc k) (stalled n s start))
          ≡ ok (waits D m' k (stalled (n + 1) (s + 1) start))
    unfolding cycle instruction_fetch stages decode_stage execute_stage memory_stage write_stage
        end_cycle buffer_fetch buffer_decode clear_decode is_empty
    cycle-waits n s k m m' e =
        bind-ok _ _
          (bind-ok (execute_stage D (waits D m (suc k) (stalled (n + 1) s start))) _
            (if-false (is_empty op) _ _ opcode ∙ e) refl)
          refl

    pub cycle-thaws :
        (n s : ℕ) (m m' : Dict ℤ) (out : List ℕ)
        → instruction_execute D (waits D m 0 (stalled (n + 1) s start))
          ≡ ok (record (thaws D m' (stalled (n + 1) s start)) {
            execute_mem = record { latch = latch_of t op line; output = out };
          })
        → cycle D (waits D m 0 (stalled n s start)) ≡ ok (executed (n + 1) s m' (pos 0) out start)
    unfolding cycle instruction_fetch stages decode_stage execute_stage memory_stage write_stage
        end_cycle buffer_fetch buffer_decode clear_decode is_empty
    cycle-thaws n s m m' out e =
        bind-ok _ _
          (bind-ok (execute_stage D (waits D m 0 (stalled (n + 1) s start))) _
            (if-false (is_empty op) _ _ opcode ∙ e) refl)
          refl

    pub cycle-single :
        (m' : Dict ℤ) (out : List ℕ)
        → instruction_execute D (stalled 3 0 start)
          ≡ ok (record (stalled 3 0 start) {
            opcode_cycles = m';
            execute_mem = record { latch = latch_of t op line; output = out };
          })
        → cycle D start ≡ ok (executed 3 0 m' (pos 1) out start)
    unfolding cycle instruction_fetch stages decode_stage execute_stage memory_stage write_stage
        end_cycle buffer_fetch buffer_decode clear_decode is_empty
    cycle-single m' out e =
        bind-ok _ _
          (bind-ok (execute_stage D (stalled 3 0 start)) _ (if-false (is_empty op) _ _ opcode ∙ e)
            refl)
          refl

    pub cycle-accessed :
        (n s : ℕ) (m : Dict ℤ) (left : ℤ) (out : List ℕ)
        → ((b : Cpu Value) → access D op b ≡ ok b)
        → cycle D (executed n s m left out start) ≡ ok (accessed (executed n s m left out start))
    unfolding cycle instruction_fetch stages decode_stage execute_stage memory_stage write_stage
        memory_access end_cycle buffer_fetch buffer_decode clear_decode is_empty
    cycle-accessed n s m left out passes =
        let b = record (executed (n + 1) s m left out start) {
          mem_wb = record { latch = latch_of t op line; output = out };
        } in
        bind-ok _ _
          (bind-ok (memory_stage D (executed (n + 1) s m left out start)) _
            (if-false (is_empty op) _ _ opcode ∙ passes b) refl)
          refl

    -- The last cycle: the register is written, and nothing is left in the pipeline.
    pub cycle-written :
        (n s : ℕ) (m : Dict ℤ) (left v : ℤ) (out : List ℕ)
        → has_result op ≡ true
        → fits_int v ≡ true
        → Holds out v
        → (c' : Cpu Value) × (cycle D (accessed (executed n s m left out start)) ≡ ok c')
          × (is_drained c' ≡ true)
          × (c'.integer_registers ≡ assign t v c.integer_registers)
    unfolding cycle instruction_fetch stages decode_stage execute_stage memory_stage write_stage
        write_back set_integer end_cycle buffer_fetch buffer_decode clear_decode is_empty is_drained
    cycle-written n s m left v out has fits h =
        let b = record (executed (n + 1 + 1) s m left out start) {
          execute_mem_buffered = (blank_cpu D c.mem).execute_mem;
          mem_wb_buffered = record { latch = latch_of t op line; output = out };
        } in
        (
          _,
          bind-ok _ _
              (if-false (is_empty op) _ _ opcode
                ∙ if-true (has_result op) _ _ has
                ∙ write_target-Holds D t v out b fits h)
              refl,
          refl,
          refl,
        )
