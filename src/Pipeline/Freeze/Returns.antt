-- ===== src/Pipeline/Freeze/Returns.antt =====
-- The execute stage alone, for as many cycles as its instruction takes.
use mscs.Common.{
  ℕ, zero, suc, ◌≤◌, ◌<◌, ◌≡◌, refl, ap, ◌∙◌, Bool, true, false, Option, none, some, List, length,
  arith,
}
use mscs.Common.Int.{ℤ, pos}
use mscs.Common.Outcome.{Outcome, ok, ◌>>=◌, bind-ok}
use mscs.Common.Dict.{Dict}
use mscs.Simulator.Double.{Double}
use mscs.Simulator.Operand.{c_string-lt}
use mscs.Simulator.Execute.{
  Opcode, decode, noop, add, sub, mul, div, li, l, s, beq, bneq, bgtz, bltz, move,
}
use mscs.Pipeline.Cpu.{Cpu, cycles_of, subscript_cycles}
use mscs.Pipeline.Alu.{alu_output, finish, instruction_execute}
use mscs.Pipeline.Freeze.Execute.{run, begin-frozen, begin-first, count_down-more, count_down-last}

module _ (D : Double) where
  open D use {Value}

  -- The stage run in so many cycles.
  unfoldable pub execute_times : ℕ → Cpu Value → Outcome (Cpu Value)
  unfolding instruction_execute
  execute_times zero c = ok c
  execute_times (suc n) c = instruction_execute D c >>= execute_times n

  -- The instruction waits, with `suc k` cycles to go.
  abbrev pub waits : Dict ℤ → ℕ → Cpu Value → Cpu Value
  waits m k c = record c { opcode_cycles = m; freeze = true; execute_cycle = pos (suc k) }

  abbrev pub thaws : Dict ℤ → Cpu Value → Cpu Value
  thaws m c = record c { opcode_cycles = m; freeze = false; execute_cycle = pos 0 }

  alu_output-thaws :
      (o : Option Opcode) (is_double : Bool) (m : Dict ℤ) (c : Cpu Value)
      → alu_output D o is_double (thaws m c) ≡ alu_output D o is_double c
  unfolding alu_output
  alu_output-thaws none is_double m c = refl
  alu_output-thaws (some noop) is_double m c = refl
  alu_output-thaws (some add) is_double m c = refl
  alu_output-thaws (some sub) is_double m c = refl
  alu_output-thaws (some mul) is_double m c = refl
  alu_output-thaws (some div) is_double m c = refl
  alu_output-thaws (some li) is_double m c = refl
  alu_output-thaws (some l) is_double m c = refl
  alu_output-thaws (some s) is_double m c = refl
  alu_output-thaws (some beq) is_double m c = refl
  alu_output-thaws (some bneq) is_double m c = refl
  alu_output-thaws (some bgtz) is_double m c = refl
  alu_output-thaws (some bltz) is_double m c = refl
  alu_output-thaws (some move) is_double m c = refl

  module _ (c : Cpu Value) (short : length c.decode_execute_buffered.opcode < 10) where
    abbrev op : List ℕ
    op = c.decode_execute_buffered.opcode

    pub execute-starts :
        (k : ℕ)
        → cycles_of op c ≡ pos (suc (suc k))
        → c.freeze ≡ false
        → (m : Dict ℤ) × (instruction_execute D c ≡ ok (waits m k c))
    unfolding instruction_execute subscript_cycles
    execute-starts k total thawed =
        let c1 = subscript_cycles op c in
        let c2 = record c1 { execute_cycle = cycles_of op c; freeze = true } in
        (
          c1.opcode_cycles,
          bind-ok _ _ (c_string-lt 10 op short) (
              ap (run D) (begin-first D k (cycles_of op c) c1 total thawed)
              ∙ count_down-more D k c2 total),
        )

    pub execute-waits :
        (k : ℕ) (m : Dict ℤ)
        → (m' : Dict ℤ) × (instruction_execute D (waits m (suc k) c) ≡ ok (waits m' k c))
    unfolding instruction_execute subscript_cycles
    execute-waits k m =
        let c0 = waits m (suc k) c in
        let c1 = subscript_cycles op c0 in
        (
          c1.opcode_cycles,
          bind-ok _ _ (c_string-lt 10 op short)
              (ap (run D) (begin-frozen D (cycles_of op c0) c1 refl) ∙ count_down-more D k c1 refl),
        )

    pub execute-thaws :
        (m : Dict ℤ) (out : List ℕ)
        → alu_output D (decode op) c.decode_execute_buffered.is_double c ≡ ok out
        → (m' : Dict ℤ) × (instruction_execute D (waits m 0 c)
            ≡ ok (record (thaws m' c) {
              execute_mem = record { latch = c.decode_execute_buffered; output = out };
            }))
    unfolding instruction_execute subscript_cycles finish
    execute-thaws m out computed =
        let c0 = waits m 0 c in
        let c1 = subscript_cycles op c0 in
        (
          c1.opcode_cycles,
          bind-ok _ _ (c_string-lt 10 op short) (
              ap (run D) (begin-frozen D (cycles_of op c0) c1 refl)
              ∙ count_down-last D c1 refl
              ∙ bind-ok _ _
                  (alu_output-thaws (decode op) c.decode_execute_buffered.is_double c1.opcode_cycles
                      c
                    ∙ computed)
                  refl),
        )

    waits-times :
        (i k : ℕ) (m : Dict ℤ)
        → i ≤ k
        → (c' : Cpu Value) × (execute_times i (waits m k c) ≡ ok c') × (c'.freeze ≡ true)
    unfolding execute_times
    waits-times zero k m le = (waits m k c, refl, refl)
    waits-times (suc i) zero m le = absurd (omega arith)
    waits-times (suc i) (suc k) m le =
        let (m', e) = execute-waits k m in
        let (c', f, frozen) = waits-times i k m' (omega arith) in (c', bind-ok _ _ e f, frozen)

    -- Thawed, with the result in the next latch.
    abbrev pub IsDone : List ℕ → Cpu Value → Type 0
    IsDone out c' =
        (c'.freeze ≡ false)
        × (c'.execute_mem ≡ record { latch = c.decode_execute_buffered; output = out })

    thaws-times :
        (k : ℕ) (m : Dict ℤ) (out : List ℕ)
        → alu_output D (decode op) c.decode_execute_buffered.is_double c ≡ ok out
        → (c' : Cpu Value) × (execute_times (suc k) (waits m k c) ≡ ok c') × IsDone out c'
    unfolding execute_times
    thaws-times zero m out computed =
        let (m', e) = execute-thaws m out computed in (_, bind-ok _ _ e refl, (refl, refl))
    thaws-times (suc k) m out computed =
        let (m', e) = execute-waits k m in
        let (c', f, done) = thaws-times k m' out computed in (c', bind-ok _ _ e f, done)

    -- An instruction with an opcode of at most nine characters, that takes n cycles, two or more, and
    -- whose result is defined, in a pipeline that is not frozen: the execute stage run n times
    -- returns, each time; behind each of the first n - 1 cycles the pipeline is frozen, and behind
    -- the n-th it is thawed, with the instruction and its result in the next latch.
    pub execute_times-returns :
        (i k : ℕ) (out : List ℕ)
        → i ≤ k
        → cycles_of op c ≡ pos (suc (suc k))
        → c.freeze ≡ false
        → alu_output D (decode op) c.decode_execute_buffered.is_double c ≡ ok out
        → ((c' : Cpu Value) × (execute_times (suc i) c ≡ ok c') × (c'.freeze ≡ true))
          × ((c' : Cpu Value) × (execute_times (suc (suc k)) c ≡ ok c') × IsDone out c')
    unfolding execute_times
    execute_times-returns i k out le total thawed computed =
        let (m, e) = execute-starts k total thawed in
        let (waiting, f, frozen) = waits-times i k m le in
        let (done, g, finished) = thaws-times k m out computed in
        ((waiting, bind-ok _ _ e f, frozen), (done, bind-ok _ _ e g, finished))
