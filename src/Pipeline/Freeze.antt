-- ===== src/Pipeline/Freeze.antt =====
-- An instruction of n cycles is in the execute stage for n cycles, and the stages before it wait.
pub mod Execute
pub mod Cycles
pub mod Returns
use mathlib.Core.Path.{subst}
use mscs.Common.{
  if-true, if-false, if_either, ℕ, zero, suc, ◌+◌, ◌≤◌, ◌<◌, ◌==◌, Bool, true, false, not, ◌&&◌,
  ◌||◌, ltb, if◌then◌else◌, Option, none, some, List, ◌≡◌, refl, sym, ap, ◌∙◌, inl, inr, length,
  arith, Bool-cases, [],
}
use mscs.Common.Int.{ℤ, pos, ◌-ℤ◌, eqb_ℤ, pos_part}
use mscs.Common.Outcome.{
  Outcome, ok, ◌>>=◌, Post, holds, fails, stops, Post-bind, Post-map, Post-eq_ok, Post-if,
  Post-weaken,
}
use mscs.Common.Text.{Text, codes, starts_with}
use mscs.Common.Dict.{Dict, lookup}
use mscs.Simulator.Double.{Double}
use mscs.Simulator.Operand.{c_string, c_string-eq_ok}
use mscs.Simulator.Execute.{decode}
use mscs.Simulator.Transfer.{address_at}
use mscs.Pipeline.Buffers.{is_empty}
use mscs.Pipeline.Cpu.{Latch, DataLatch, no_data, Cpu, cycles_of, subscript_cycles}
use mscs.Pipeline.Alu.{buffer_int, alu_output, finish, begin, count_down, instruction_execute}
use mscs.Pipeline.MemoryStage.{
  load_output, print_mem, stored_text, load_stage, store_stage, access, memory_access,
}
use mscs.Pipeline.Cycle.{
  line_at, line_before, is_held, fetch_next, fetch_again, instruction_fetch, buffer_fetch,
  buffer_decode, clear_decode, end_cycle, decode_stage, execute_stage, memory_stage, write_stage,
  stages, cycle,
}
use mscs.Pipeline.Frame.{Held, held, Kept, Same, write_back-Same}
use mscs.Pipeline.Frame.Decoders.{instruction_decode-Kept}

module _ {V : Type 0} where
  -- The state of the execute stage.
  pub record Executes (latch : Latch) (frozen : Bool) (left : ℤ) (data_latch : DataLatch)
      (c : Cpu V) : Type 0 where
    pub buffered : c.decode_execute_buffered ≡ latch
    pub freeze : c.freeze ≡ frozen
    pub left_over : c.execute_cycle ≡ left
    pub ahead : c.execute_mem ≡ data_latch

  -- What fetching, decoding, and the last two stages leave alone.
  abbrev pub Aside : Cpu V → Cpu V → Type 0
  Aside c c' =
      (c'.decode_execute_buffered ≡ c.decode_execute_buffered)
      × (c'.freeze ≡ c.freeze)
      × (c'.execute_cycle ≡ c.execute_cycle)
      × (c'.execute_mem ≡ c.execute_mem)
      × (c'.opcode_cycles ≡ c.opcode_cycles)

  module _ {latch : Latch} {frozen : Bool} {left : ℤ} {data_latch : DataLatch} where
    pub Aside-Executes :
        {c c' : Cpu V}
        → Aside c c'
        → Executes latch frozen left data_latch c
        → Executes latch frozen left data_latch c'
    Aside-Executes a h = record {
      buffered = a.0 ∙ h.buffered;
      freeze = a.1 ∙ h.freeze;
      left_over = a.2 ∙ h.left_over;
      ahead = a.3 ∙ h.ahead;
    }

  pub fetch-Aside : (c : Cpu V) → Post (Aside c) (instruction_fetch c)
  unfolding instruction_fetch fetch_next fetch_again
  fetch-Aside c =
      Post-if (not (is_held c) && ltb c.program_counter (length c.vprogram))
        (Post-bind (line_at c.vprogram c.program_counter)
          λ t _. holds (refl, refl, refl, refl, refl))
        (Post-if (c.program_counter == length c.vprogram)
          (Post-if (is_held c)
            (Post-bind (line_before c.vprogram c.program_counter)
              λ t _. holds (refl, refl, refl, refl, refl))
            (holds (refl, refl, refl, refl, refl)))
          (holds (refl, refl, refl, refl, refl)))

  pub held-Aside : (c c' : Cpu V) → held c' ≡ held c → Aside c c'
  held-Aside c c' h = (
    ap (λ (x : Held). x.3.0) h,
    ap (λ (x : Held). x.1.0) h,
    ap (λ (x : Held). x.1.1) h,
    ap (λ (x : Held). x.3.1) h,
    ap (λ (x : Held). x.0.2) h,
  )

  -- The end of a cycle, by what the copies and the clearing leave.
  end_of : Cpu V → Cpu V → Cpu V
  end_of c cleared = record cleared {
    execute_mem_buffered = c.execute_mem;
    mem_wb_buffered = c.mem_wb;
    execute_mem = no_data;
    mem_wb = no_data;
  }

  end_cycle-end_of :
      (c : Cpu V)
      → end_cycle c
        ≡ end_of (buffer_decode (buffer_fetch c)) (clear_decode (buffer_decode (buffer_fetch c)))
  unfolding end_cycle end_of
  end_cycle-end_of c = refl

  module _ {latch : Latch} {frozen : Bool} {left : ℤ} {data_latch : DataLatch} where
    buffer_fetch-Executes :
        (c : Cpu V)
        → Executes latch frozen left data_latch c
        → Executes latch frozen left data_latch (buffer_fetch c)
    unfolding buffer_fetch
    buffer_fetch-Executes c h =
        if_either (Executes latch frozen left data_latch) (is_held c)
          (record {
            buffered = h.buffered;
            freeze = h.freeze;
            left_over = h.left_over;
            ahead = h.ahead;
          })
          (record {
            buffered = h.buffered;
            freeze = h.freeze;
            left_over = h.left_over;
            ahead = h.ahead;
          })

  buffer_decode-frozen : (c : Cpu V) → c.freeze ≡ true → buffer_decode c ≡ c
  unfolding buffer_decode
  buffer_decode-frozen c h = if-true c.freeze c _ h

  clear_decode-frozen : (c : Cpu V) → c.freeze ≡ true → clear_decode c ≡ c
  unfolding clear_decode
  clear_decode-frozen c h = if-true c.freeze c _ h

  pub end_cycle-frozen :
      {latch : Latch} {left : ℤ} (c : Cpu V)
      → Executes latch true left no_data c
      → Executes latch true left no_data (end_cycle c)
        × ((end_cycle c).execute_mem_buffered ≡ no_data)
  unfolding end_of
  end_cycle-frozen {latch} {left} c h =
      let c1 = buffer_fetch c in
      let h1 = buffer_fetch-Executes c h in
      let same : end_cycle c ≡ end_of c1 c1 =
        end_cycle-end_of c
        ∙ ap (λ (x : Cpu V). end_of x (clear_decode x)) (buffer_decode-frozen c1 h1.freeze)
        ∙ ap (λ (x : Cpu V). end_of c1 x) (clear_decode-frozen c1 h1.freeze) in
      subst (λ (x : Cpu V). Executes latch true left no_data x × (x.execute_mem_buffered ≡ no_data))
        (sym same)
        (
          record {
            buffered = h1.buffered;
            freeze = h1.freeze;
            left_over = h1.left_over;
            ahead = refl;
          },
          h1.ahead,
        )

  abbrev Passes : Bool → DataLatch → Cpu V → Type 0
  Passes frozen data_latch c = (c.freeze ≡ frozen) × (c.execute_mem ≡ data_latch)

  pub end_cycle-thawed :
      {frozen : Bool} {data_latch : DataLatch} (c : Cpu V)
      → Passes frozen data_latch c
      → ((end_cycle c).freeze ≡ frozen) × ((end_cycle c).execute_mem_buffered ≡ data_latch)
  unfolding end_of buffer_fetch buffer_decode clear_decode
  end_cycle-thawed {frozen} {data_latch} c h =
      let c1 = buffer_fetch c in
      let h1 : Passes frozen data_latch c1 = if_either (Passes frozen data_latch) (is_held c) h h in
      let c2 = buffer_decode c1 in
      let h2 : Passes frozen data_latch c2 = if_either (Passes frozen data_latch) c1.freeze h1 h1 in
      let h3 : Passes frozen data_latch (clear_decode c2) =
        if_either (Passes frozen data_latch) c2.freeze h2 h2 in
      subst (λ (x : Cpu V). (x.freeze ≡ frozen) × (x.execute_mem_buffered ≡ data_latch))
        (sym (end_cycle-end_of c)) (h3.0, h2.1)
