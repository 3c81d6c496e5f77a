-- ===== src/Pipeline/Freeze/Cycles.antt =====
-- The cycles of the whole pipeline while one instruction executes.
use mathlib.Core.Path.{subst}
use mscs.Common.{
  zero, suc, ◌≤◌, arith, some, if-false, ℕ, suc, ◌+◌, Bool, true, false, if◌then◌else◌, List, ◌≡◌,
  refl, sym, ap, ◌∙◌, length,
}
use mscs.Common.Int.{ℤ, pos}
use mscs.Common.Outcome.{ok, Post, holds, Post-bind, Post-map, Post-if, Post-weaken}
use mscs.Common.Text.{codes, starts_with}
use mscs.Simulator.Double.{Double}
use mscs.Simulator.Transfer.{address_at}
use mscs.Pipeline.Buffers.{is_empty}
use mscs.Pipeline.Cpu.{cycles_of, Latch, DataLatch, no_data, Cpu}
use mscs.Pipeline.Alu.{buffer_int, instruction_execute}
use mscs.Pipeline.MemoryStage.{
  load_output, stored_text, load_stage, store_stage, print_mem, access, memory_access,
}
use mscs.Pipeline.Cycle.{
  instruction_fetch, end_cycle, decode_stage, execute_stage, memory_stage, write_stage, stages,
  cycle,
}
use mscs.Pipeline.Frame.{write_back-Same}
use mscs.Pipeline.Frame.Decoders.{instruction_decode-Kept}
use mscs.Pipeline.Fetch.{cycles}
use mscs.Pipeline.Freeze.{
  Executes, Aside, Aside-Executes, fetch-Aside, held-Aside, end_cycle-frozen, end_cycle-thawed,
}
use mscs.Common.Dict.{Dict, lookup}
use mscs.Pipeline.Freeze.Execute.{execute-first, execute-middle, execute-last, Finished}

module _ (D : Double) where
  open D use {Value}

  decode_stage-Aside : (c : Cpu Value) → Post (Aside c) (decode_stage D c)
  unfolding decode_stage
  decode_stage-Aside c =
      Post-if (is_empty c.ir_buffered) (holds (refl, refl, refl, refl, refl))
        (Post-weaken (instruction_decode-Kept D c) λ c' k. held-Aside c c' k.fields)

  memory_access-Aside : (c : Cpu Value) → Post (Aside c) (memory_access D c)
  unfolding memory_access access load_stage store_stage print_mem
  memory_access-Aside c =
      let c1 = record c { mem_wb = c.execute_mem_buffered } in
      let op = c.execute_mem_buffered.latch.opcode in
      let aside : Post (Aside c) (ok c1) = holds (refl, refl, refl, refl, refl) in
      Post-if (starts_with (codes "LI") op) aside (
        Post-if (starts_with (codes "L") op)
          (Post-bind
            (load_output D (if c1.mem_wb.latch.is_double then 8 else 4) c1.mem_wb.output c1)
            λ out _. holds (refl, refl, refl, refl, refl))
          (Post-if (starts_with (codes "S") op)
            (Post-bind (stored_text D c1.mem_wb.latch.is_double c1.mem_wb.latch.target c1) λ t _.
              Post-bind (buffer_int c1.mem_wb.output) λ k _.
                Post-bind (address_at (suc (length t)) k)
                  λ a _. holds (refl, refl, refl, refl, refl))
            aside))

  memory_stage-Aside : (c : Cpu Value) → Post (Aside c) (memory_stage D c)
  unfolding memory_stage
  memory_stage-Aside c =
      Post-if (is_empty c.execute_mem_buffered.latch.opcode) (holds (refl, refl, refl, refl, refl))
        (memory_access-Aside c)

  write_stage-Aside : (c : Cpu Value) → Post (Aside c) (write_stage D c)
  unfolding write_stage
  write_stage-Aside c =
      Post-if (is_empty c.mem_wb_buffered.latch.opcode) (holds (refl, refl, refl, refl, refl))
        (Post-weaken (write_back-Same D c) λ c' s. held-Aside c c' s.fields)

  execute_stage-there :
      (c : Cpu Value)
      → is_empty c.decode_execute_buffered.opcode ≡ false
      → execute_stage D c ≡ instruction_execute D c
  unfolding execute_stage
  execute_stage-there c h =
      if-false (is_empty c.decode_execute_buffered.opcode) _ (instruction_execute D c) h

  -- A cycle around what the execute stage does.
  cycle_around :
      (P Q : Cpu Value → Type 0) (c : Cpu Value)
      → ((x y : Cpu Value) → Aside x y → P x → P y)
      → ((x y : Cpu Value) → Aside x y → Q x → Q y)
      → ((x : Cpu Value) → P x → is_empty x.decode_execute_buffered.opcode ≡ false)
      → ((x : Cpu Value) → P x → Post Q (instruction_execute D x))
      → P c
      → Post (λ c'. (x : Cpu Value) × Q x × (c' ≡ end_cycle x)) (cycle D c)
  unfolding cycle stages
  cycle_around P Q c keep_p keep_q there execute h =
      let c0 = record c { cycle_count = c.cycle_count + 1 } in
      Post-map (instruction_fetch c0) (fetch-Aside c0) λ c1 a1.
        let h1 : P c1 = keep_p c0 c1 a1 (keep_p c c0 (refl, refl, refl, refl, refl) h) in
        Post-map (stages D c1)
          (Post-map (decode_stage D c1) (decode_stage-Aside c1) λ c2 a2.
            let h2 : P c2 = keep_p c1 c2 a2 h1 in
            Post-map (execute_stage D c2)
              (subst (Post Q) (sym (execute_stage-there c2 (there c2 h2))) (execute c2 h2))
              λ c3 q3. Post-map (memory_stage D c3) (memory_stage-Aside c3) λ c4 a4.
                Post-weaken (write_stage-Aside c4) λ c5 a5. keep_q c4 c5 a5 (keep_q c3 c4 a4 q3))
          λ c5 q5. holds (c5, q5, refl)

  module _ (latch : Latch) (there : is_empty latch.opcode ≡ false) where
    -- The instruction has `suc k` cycles to go.
    abbrev Frozen : ℕ → Cpu Value → Type 0
    Frozen k c = Executes latch true (pos (suc k)) no_data c

    still_there :
        {frozen : Bool} {left : ℤ} {ahead : DataLatch} (x : Cpu Value)
        → Executes latch frozen left ahead x
        → is_empty x.decode_execute_buffered.opcode ≡ false
    still_there x h = ap (λ (l : Latch). is_empty l.opcode) h.buffered ∙ there

    cycle-middle :
        (k : ℕ) (c : Cpu Value)
        → Frozen (suc k) c
        → Post (λ c'. Frozen k c' × (c'.execute_mem_buffered ≡ no_data)) (cycle D c)
    cycle-middle k c h =
        Post-weaken
          (cycle_around (Frozen (suc k)) (Frozen k) c (λ x y a. Aside-Executes a)
            (λ x y a. Aside-Executes a) (λ x e. still_there x e)
            (λ x e. execute-middle D x k latch e) h)
          λ c' found.
            subst (λ (y : Cpu Value). Frozen k y × (y.execute_mem_buffered ≡ no_data)) (sym found.2)
              (end_cycle-frozen found.0 found.1)

    abbrev pub Done : Cpu Value → Type 0
    Done c =
        (c.freeze ≡ false)
        × ((output : List ℕ) × (c.execute_mem_buffered ≡ record { latch = latch; output = output }))

    cycle-last : (c : Cpu Value) → Frozen 0 c → Post Done (cycle D c)
    cycle-last c h =
        Post-weaken
          (cycle_around (Frozen 0) (Finished D latch) c (λ x y a. Aside-Executes a)
            (λ x y a q. (q.0, Aside-Executes a q.1)) (λ x e. still_there x e)
            (λ x e. execute-last D x latch e) h)
          λ c' found.
            let out = found.1.0 in
            let e = found.1.1 in
            subst Done (sym found.2)
              (let ends = end_cycle-thawed found.0 (e.freeze, e.ahead) in (ends.0, (out, ends.1)))

    -- The instruction is about to begin, with `n` cycles.
    pub record Ready (n : ℕ) (c : Cpu Value) : Type 0 where
      pub buffered : c.decode_execute_buffered ≡ latch
      pub thawed : c.freeze ≡ false
      pub ahead : c.execute_mem ≡ no_data
      pub known : lookup latch.opcode c.opcode_cycles ≡ some (pos n)

    Ready-Aside : (n : ℕ) (x y : Cpu Value) → Aside x y → Ready n x → Ready n y
    Ready-Aside n x y a r = record {
      buffered = a.0 ∙ r.buffered;
      thawed = a.1 ∙ r.thawed;
      ahead = a.3 ∙ r.ahead;
      known = ap (λ (d : Dict ℤ). lookup latch.opcode d) a.4 ∙ r.known;
    }

    cycles_of-known :
        (n : ℕ) (x : Cpu Value)
        → lookup latch.opcode x.opcode_cycles ≡ some (pos n)
        → cycles_of latch.opcode x ≡ pos n
    unfolding cycles_of
    cycles_of-known n x e = rw (e, cycles_of) refl

    cycle-first :
        (k : ℕ) (c : Cpu Value)
        → Ready (suc (suc k)) c
        → Post (λ c'. Frozen k c' × (c'.execute_mem_buffered ≡ no_data)) (cycle D c)
    cycle-first k c h =
        Post-weaken
          (cycle_around (Ready (suc (suc k))) (Frozen k) c (Ready-Aside (suc (suc k)))
            (λ x y a. Aside-Executes a)
            (λ x r. ap (λ (l : Latch). is_empty l.opcode) r.buffered ∙ there)
            (λ x r. execute-first D x k latch (cycles_of-known (suc (suc k)) x r.known) (record {
              buffered = r.buffered;
              freeze = r.thawed;
              left_over = refl;
              ahead = r.ahead;
            }))
            h)
          λ c' found.
            subst (λ (y : Cpu Value). Frozen k y × (y.execute_mem_buffered ≡ no_data)) (sym found.2)
              (end_cycle-frozen found.0 found.1)

    -- Waiting for as many cycles as are left.
    Frozen-cycles :
        (i k : ℕ) (c : Cpu Value)
        → i ≤ k
        → Frozen k c × (c.execute_mem_buffered ≡ no_data)
        → Post (λ c'. (c'.freeze ≡ true) × (c'.execute_mem_buffered ≡ no_data)) (cycles D i c)
    unfolding cycles
    Frozen-cycles zero k c le h = holds (h.0.freeze, h.1)
    Frozen-cycles (suc i) zero c le h = absurd (omega arith)
    Frozen-cycles (suc i) (suc k) c le h =
        Post-map (cycle D c) (cycle-middle k c h.0) λ c' h'. Frozen-cycles i k c' (omega arith) h'

    Done-cycles : (k : ℕ) (c : Cpu Value) → Frozen k c → Post Done (cycles D (suc k) c)
    unfolding cycles
    Done-cycles zero c h = Post-map (cycle D c) (cycle-last c h) λ c' d. holds d
    Done-cycles (suc k) c h =
        Post-map (cycle D c) (cycle-middle k c h) λ c' h'. Done-cycles k c' h'.0

    -- An instruction of n cycles, two or more, that is about to execute, with nothing in the latch
    -- ahead of it: in each of the first n - 1 cycles, unless the program ends in an error, the
    -- pipeline is frozen and a bubble goes to the memory stage; with the n-th the pipeline is thawed
    -- and the instruction goes there.
    pub cycles-execute :
        (i k : ℕ) (c : Cpu Value)
        → i ≤ k
        → Ready (suc (suc k)) c
        → Post (λ c'. (c'.freeze ≡ true) × (c'.execute_mem_buffered ≡ no_data)) (cycles D (suc i) c)
          × Post Done (cycles D (suc (suc k)) c)
    unfolding cycles
    cycles-execute i k c le r = (
      Post-map (cycle D c) (cycle-first k c r) λ c' h. Frozen-cycles i k c' le h,
      Post-map (cycle D c) (cycle-first k c r) λ c' h. Done-cycles k c' h.0,
    )
