-- ===== src/Pipeline/Frame/Stages.antt =====
-- What the execute stage, the last two stages and the copies leave alone: the program, the labels
-- and the program counter.
use mscs.Common.{
  suc, false, not, ◌&&◌, ltb, if◌then◌else◌, ◌≡◌, refl, ap, ◌∙◌, inl, inr, length, Bool-cases,
}
use mscs.Common.Int.{◌-ℤ◌, pos_part, eqb_ℤ, ℤ, pos}
use mscs.Common.Outcome.{Outcome, ok, Post, holds, fails, stops, Post-bind}
use mscs.Common.Text.{codes, starts_with}
use mscs.Simulator.Double.{Double}
use mscs.Simulator.Operand.{c_string}
use mscs.Simulator.Execute.{decode}
use mscs.Simulator.Transfer.{address_at}
use mscs.Pipeline.Alu.{buffer_int}
use mscs.Common.Outcome.{Post-if, Post-weaken}
use mscs.Common.Int.{pos_part, eqb_ℤ, ◌-ℤ◌}
use mscs.Pipeline.Buffers.{is_empty}
use mscs.Pipeline.Cpu.{Cpu, cycles_of, subscript_cycles}
use mscs.Pipeline.Alu.{buffer_int, alu_output, finish, begin, count_down, instruction_execute}
use mscs.Pipeline.MemoryStage.{
  load_output, print_mem, stored_text, load_stage, store_stage, access, memory_access,
}
use mscs.Pipeline.Cycle.{
  buffer_fetch, buffer_decode, clear_decode, end_cycle, execute_stage, memory_stage, write_stage,
}
use mscs.Pipeline.Frame.{Held, Same, write_back-Same}

module _ {V : Type 0} where
  -- What the stages behind the decoder leave alone.
  pub record Fixed (c c' : Cpu V) : Type 0 where
    pub program : c'.vprogram ≡ c.vprogram
    pub labels : c'.mlabels ≡ c.mlabels
    pub counter : c'.program_counter ≡ c.program_counter

  pub Fixed-refl : (c : Cpu V) → Fixed c c
  Fixed-refl c = record { program = refl; labels = refl; counter = refl }

  pub end_cycle-Fixed : (c : Cpu V) → Fixed c (end_cycle c)
  unfolding end_cycle buffer_fetch buffer_decode clear_decode
  end_cycle-Fixed c = elim (Bool-cases c.freeze) [
    | inl frozen ↦ elim (Bool-cases c.stall_if) [
      | inl stalled ↦
          rw (frozen, stalled) (record { program = refl; labels = refl; counter = refl })
      | inr free ↦ rw (frozen, free) (record { program = refl; labels = refl; counter = refl })
    ]
    | inr thawed ↦ elim (Bool-cases c.stall_if) [
      | inl stalled ↦
          rw (thawed, stalled) (record { program = refl; labels = refl; counter = refl })
      | inr free ↦ rw (thawed, free) (record { program = refl; labels = refl; counter = refl })
    ]
  ]

module _ (D : Double) where
  open D use {Value}

  finish-Fixed : (c : Cpu Value) → Post (Fixed c) (finish D c)
  unfolding finish
  finish-Fixed c =
      Post-bind
        (alu_output D (decode c.decode_execute_buffered.opcode) c.decode_execute_buffered.is_double
          c)
        λ out _. holds (record { program = refl; labels = refl; counter = refl })

  Fixed-from :
      {c c' : Cpu Value} {m : Outcome (Cpu Value)}
      → Fixed c c'
      → Post (Fixed c') m
      → Post (Fixed c) m
  Fixed-from f (holds g) = holds (record {
    program = g.program ∙ f.program;
    labels = g.labels ∙ f.labels;
    counter = g.counter ∙ f.counter;
  })
  Fixed-from f fails = fails
  Fixed-from f stops = stops

  begin-Fixed : (cycles : ℤ) (c : Cpu Value) → Fixed c (begin D cycles c)
  unfolding begin
  begin-Fixed cycles c = elim (Bool-cases (ltb 1 (pos_part cycles) && not c.freeze)) [
    | inl starts ↦ rw starts (record { program = refl; labels = refl; counter = refl })
    | inr no_start ↦ rw no_start (Fixed-refl c)
  ]

  count_down-Fixed : (c : Cpu Value) → Post (Fixed c) (count_down D c)
  unfolding count_down
  count_down-Fixed c = elim (Bool-cases (eqb_ℤ (c.execute_cycle -ℤ pos 1) (pos 0))) [
    | inl last ↦ rw last (
        Fixed-from (record { program = refl; labels = refl; counter = refl })
          (finish-Fixed (record c { execute_cycle = c.execute_cycle -ℤ pos 1; freeze = false })))
    | inr more ↦ rw more (holds (record { program = refl; labels = refl; counter = refl }))
  ]

  run_or_count-Fixed :
      (c : Cpu Value) → Post (Fixed c) (if c.freeze then count_down D c else finish D c)
  run_or_count-Fixed c = Post-if c.freeze (count_down-Fixed c) (finish-Fixed c)

  instruction_execute-Fixed : (c : Cpu Value) → Post (Fixed c) (instruction_execute D c)
  unfolding instruction_execute subscript_cycles
  instruction_execute-Fixed c = Post-bind (c_string 10 c.decode_execute_buffered.opcode) λ name _.
      let c1 = subscript_cycles name c in
      let cycles = cycles_of name c in
      Fixed-from (record { program = refl; labels = refl; counter = refl })
        (Fixed-from (begin-Fixed cycles c1) (run_or_count-Fixed (begin D cycles c1)))

  memory_access-Fixed : (c : Cpu Value) → Post (Fixed c) (memory_access D c)
  unfolding memory_access access load_stage store_stage print_mem
  memory_access-Fixed c =
      let c1 = record c { mem_wb = c.execute_mem_buffered } in
      let op = c.execute_mem_buffered.latch.opcode in
      let fixed : Post (Fixed c) (ok c1) =
        holds (record { program = refl; labels = refl; counter = refl }) in
      Post-if (starts_with (codes "LI") op) fixed (
        Post-if (starts_with (codes "L") op)
          (Post-bind
            (load_output D (if c1.mem_wb.latch.is_double then 8 else 4) c1.mem_wb.output c1)
            λ out _. holds (record { program = refl; labels = refl; counter = refl }))
          (Post-if (starts_with (codes "S") op)
            (Post-bind (stored_text D c1.mem_wb.latch.is_double c1.mem_wb.latch.target c1) λ t _.
              Post-bind (buffer_int c1.mem_wb.output) λ k _.
                Post-bind (address_at (suc (length t)) k)
                  λ a _. holds (record { program = refl; labels = refl; counter = refl }))
            fixed))

  Same-Fixed : {c c' : Cpu Value} → Same c c' → Fixed c c'
  Same-Fixed s = record {
    program = ap (λ (x : Held). x.0.0) s.fields;
    labels = ap (λ (x : Held). x.0.1) s.fields;
    counter = s.counter;
  }

  pub execute_stage-Fixed : (c : Cpu Value) → Post (Fixed c) (execute_stage D c)
  unfolding execute_stage
  execute_stage-Fixed c =
      Post-if (is_empty c.decode_execute_buffered.opcode)
        (holds (record { program = refl; labels = refl; counter = refl }))
        (instruction_execute-Fixed c)

  pub memory_stage-Fixed : (c : Cpu Value) → Post (Fixed c) (memory_stage D c)
  unfolding memory_stage
  memory_stage-Fixed c =
      Post-if (is_empty c.execute_mem_buffered.latch.opcode)
        (holds (record { program = refl; labels = refl; counter = refl })) (memory_access-Fixed c)

  pub write_stage-Fixed : (c : Cpu Value) → Post (Fixed c) (write_stage D c)
  unfolding write_stage
  write_stage-Fixed c =
      Post-if (is_empty c.mem_wb_buffered.latch.opcode) (holds (Fixed-refl c))
        (Post-weaken (write_back-Same D c) λ c' s. Same-Fixed s)
