-- ===== src/Pipeline/Flow/Alone.antt =====
-- The cycles of a program of one arithmetic instruction, from the first to the last.
use mathlib.Core.Path.{subst}
use mscs.Common.{ℕ, zero, suc, ◌+◌, ◌≡◌, refl, ap, ◌∙◌, true, false, List, arith}
use mscs.Common.Int.{ℤ, pos, fits_int}
use mscs.Common.Outcome.{Outcome, ok, bind-ok}
use mscs.Common.Text.{Text}
use mscs.Common.Dict.{Dict, assign}
use mscs.Simulator.Double.{Double}
use mscs.Simulator.Operand.{c_string-lt}
use mscs.Simulator.Operand.Encode.{three_operands}
use mscs.Simulator.Execute.{Opcode, decode}
use mscs.Pipeline.Buffers.Texts.{Holds}
use mscs.Pipeline.Cpu.{Cpu, integer_register, cycles_of, subscript_cycles}
use mscs.Pipeline.Alu.{int_output, alu_output, finish, instruction_execute}
use mscs.Pipeline.Cycle.{cycle, is_drained}
use mscs.Pipeline.Fetch.{cycles}
use mscs.Pipeline.Freeze.Execute.{run, begin-single}
use mscs.Pipeline.Freeze.Returns.{waits, execute-starts, execute-waits, execute-thaws}
use mscs.Pipeline.Flow.{int_output-Holds}
use mscs.Pipeline.Flow.Decoded.{instruction_line, IsArithmetic}
use mscs.Pipeline.Flow.Passage.{
  alone, latch_of, stalled, executed, start, cycle-fetched, cycle-stalled, cycle-waits, cycle-thaws,
  cycle-single, cycle-accessed, cycle-written,
}
use mscs.Pipeline.Flow.Operands.{IsReady, cycle-decoded}

module _ (D : Double) where
  open D use {Value}

  -- One cycle, and those behind it.
  cycles-step :
      (n : ℕ) (c c1 : Cpu Value) {r : Outcome (Cpu Value)}
      → cycle D c ≡ ok c1
      → cycles D n c1 ≡ r
      → cycles D (suc n) c ≡ r
  unfolding cycles
  cycles-step n c c1 e h = bind-ok _ _ e h

  module _ (operator : ℤ → ℤ → Outcome ℤ) (op : Text) (o : Opcode)
      (h : IsArithmetic D operator op o) (t a b : Text) (c : Cpu Value)
      (ready : IsReady D t a b c) where
    abbrev line : Text
    line = instruction_line op (three_operands t a b)

    module _ (x y : List ℕ) (hx : Holds x (integer_register a c))
        (hy : Holds y (integer_register b c)) (v : ℤ) (fits : fits_int v ≡ true)
        (value : operator (integer_register a c) (integer_register b c) ≡ ok v) where
      abbrev at_start : Cpu Value
      at_start = start D line op t x y c h.opcode

      -- What the execute stage computes.
      computed :
          (out : List ℕ) × ((s : Cpu Value)
            → s.temp_a_buffered ≡ x
            → s.temp_b_buffered ≡ y
            → alu_output D (decode op) false s ≡ ok out)
          × Holds out v
      computed =
          let (out, e, holds) =
            int_output-Holds operator x y _ _ v hx hy ready.fits_a ready.fits_b fits value in
          (
            out,
            (λ s ea eb.
                ap (λ q. alu_output D q false s) h.known
                ∙ h.computes s
                ∙ ap (λ z. int_output operator z s.temp_b_buffered) ea
                ∙ ap (int_output operator x) eb
                ∙ e),
            holds,
          )

      -- Nothing is left in the pipeline, and the target has the result.
      abbrev pub Written : Outcome (Cpu Value) → Type 0
      Written r =
          (c' : Cpu Value) × (r ≡ ok c')
          × (is_drained c' ≡ true)
          × (c'.integer_registers ≡ assign t v c.integer_registers)

      Written-step :
          (j : ℕ) (s s1 : Cpu Value)
          → cycle D s ≡ ok s1
          → Written (cycles D j s1)
          → Written (cycles D (suc j) s)
      Written-step j s s1 e (c', ran, drained, registers) =
          (c', cycles-step j s s1 e ran, drained, registers)

      -- The memory stage and the last one.
      executed-Written :
          (n s : ℕ) (m : Dict ℤ) (left : ℤ)
          → Written (cycles D 2 (executed D n s m left computed.0 at_start))
      unfolding cycles
      executed-Written n s m left =
          let (c', e, drained, registers) =
            cycle-written D line op t x y c h.opcode n s m left v computed.0 h.has fits
              computed.2 in
          Written-step 1 _ _
            (cycle-accessed D line op t x y c h.opcode n s m left computed.0 h.passes)
            (c', cycles-step 0 _ c' e refl, drained, registers)

      -- A frozen pipeline, with `suc k` cycles of the execute stage to go.
      waits-Written :
          (k j n s : ℕ) (m : Dict ℤ)
          → j ≡ k + 3
          → Written (cycles D j (waits D m k (stalled D n s at_start)))
      waits-Written k zero n s m e = absurd (omega arith)
      waits-Written zero (suc j) n s m e =
          let (m', run) =
            execute-thaws D (stalled D (n + 1) s at_start) h.short m computed.0
              (computed.1 (stalled D (n + 1) s at_start) refl refl) in
          let two : 2 ≡ j = omega arith in
          Written-step j _ _ (cycle-thaws D line op t x y c h.opcode n s m m' computed.0 run) (
            subst (λ i. Written (cycles D i (executed D (n + 1) s m' (pos 0) computed.0 at_start)))
              two (executed-Written (n + 1) s m' (pos 0)))
      waits-Written (suc k) (suc j) n s m e =
          let (m', run) = execute-waits D (stalled D (n + 1) s at_start) h.short k m in
          Written-step j _ _ (cycle-waits D line op t x y c h.opcode n s k m m' run)
            (waits-Written k j (n + 1) (s + 1) m' (omega arith))

      single :
          cycles_of op c ≡ pos 1
          → (m' : Dict ℤ) × (instruction_execute D (stalled D 3 0 at_start)
              ≡ ok (record (stalled D 3 0 at_start) {
                opcode_cycles = m';
                execute_mem = record { latch = latch_of D t op line; output = computed.0 };
              }))
      unfolding instruction_execute cycles_of subscript_cycles finish
      single one =
          let s = stalled D 3 0 at_start in
          let s1 = subscript_cycles op s in
          (
            s1.opcode_cycles,
            bind-ok _ _ (c_string-lt 10 op h.short) (
                ap (run D) (begin-single D (cycles_of op s) s1 one)
                ∙ bind-ok _ _ (computed.1 s1 refl refl) refl),
          )

      -- From the first cycle of the execute stage on.
      start-Written :
          (k j : ℕ) → cycles_of op c ≡ pos (suc k) → j ≡ k + 3 → Written (cycles D j at_start)
      unfolding cycles_of
      start-Written k zero total e = absurd (omega arith)
      start-Written zero (suc j) total e =
          let (m', run) = single total in
          let two : 2 ≡ j = omega arith in
          Written-step j _ _ (cycle-single D line op t x y c h.opcode m' computed.0 run) (
            subst (λ i. Written (cycles D i (executed D 3 0 m' (pos 1) computed.0 at_start))) two
              (executed-Written 3 0 m' (pos 1)))
      start-Written (suc k) (suc j) total e =
          let (m', run) = execute-starts D (stalled D 3 0 at_start) h.short k total refl in
          Written-step j _ _ (cycle-stalled D line op t x y c h.opcode 2 0 k m' run)
            (waits-Written k j 3 1 m' (omega arith))

    -- As many cycles as the opcode takes, and four more.
    pub alone-Written :
        (k : ℕ) (v : ℤ)
        → cycles_of op c ≡ pos (suc k)
        → fits_int v ≡ true
        → operator (integer_register a c) (integer_register b c) ≡ ok v
        → (c' : Cpu Value) × (cycles D (suc k + 4) (alone D line c) ≡ ok c')
          × (is_drained c' ≡ true)
          × (c'.integer_registers ≡ assign t v c.integer_registers)
    alone-Written k v total fits value =
        let (x, y, e, hx, hy) = cycle-decoded D operator op o h t a b c ready in
        let (c', ran, drained, registers) =
          start-Written x y hx hy v fits value k (k + 3) total refl in
        (
          c',
          ap (λ j. cycles D j (alone D line c)) (omega arith)
              ∙ cycles-step (suc (k + 3)) _ _ (cycle-fetched D line c)
                  (cycles-step (k + 3) _ _ e ran),
          drained,
          registers,
        )
