-- ===== src/Pipeline/Fetch.antt =====
-- No cycle reads the program outside its lines.
pub mod Loaded
use mscs.Common.{
  ℕ, zero, suc, ◌+◌, ◌≤◌, ◌<◌, ◌==◌, Bool, true, false, not, ◌&&◌, ◌||◌, ltb, if◌then◌else◌, Option,
  none, some, List, ◌≡◌, refl, sym, ap, ◌∙◌, inl, inr, length, get_elem?, get_elem?-lt, arith,
  Bool-cases, [],
}
use mscs.Common.Int.{◌-ℤ◌, pos_part, eqb_ℤ, ℤ, pos}
use mscs.Common.Outcome.{
  Outcome, ok, ◌>>=◌, Post, holds, fails, stops, Post-bind, Post-map, Post-eq_ok,
}
use mscs.Common.Text.{Text, codes, starts_with}
use mscs.Common.Dict.{Dict, lookup, AllValues, lookup-AllValues}
use mscs.Simulator.Double.{Double}
use mscs.Simulator.Operand.{c_string}
use mscs.Simulator.Execute.{decode}
use mscs.Simulator.Transfer.{address_at}
use mscs.Pipeline.Alu.{buffer_int}
use mscs.Common.Outcome.{Post-if, Post-weaken}
use mscs.Common.Int.{pos_part, eqb_ℤ, ◌-ℤ◌}
use mscs.Pipeline.Buffers.{is_empty}
use mscs.Pipeline.Cpu.{Latch, DataLatch, Cpu, cycles_of, subscript_cycles}
use mscs.Pipeline.Alu.{buffer_int, alu_output, finish, begin, count_down, instruction_execute}
use mscs.Pipeline.MemoryStage.{
  load_output, print_mem, stored_text, load_stage, store_stage, access, memory_access,
}
use mscs.Pipeline.Cycle.{
  line_at, line_before, is_held, fetch_next, fetch_again, instruction_fetch, buffer_fetch,
  buffer_decode, clear_decode, end_cycle, decode_stage, execute_stage, memory_stage, write_stage,
  stages, cycle,
}
use mscs.Pipeline.Frame.{Held, held, Goes, Kept, Kept-refl, Same, write_back-Same}
use mscs.Pipeline.Frame.Stages.{
  Fixed, Fixed-refl, end_cycle-Fixed, execute_stage-Fixed, memory_stage-Fixed, write_stage-Fixed,
}
use mscs.Pipeline.Frame.Decoders.{instruction_decode-Kept}

line_at-lt :
    (program : List Text) (i : ℕ) → i < length program → (t : Text) × (line_at program i ≡ ok t)
unfolding line_at
line_at-lt program i h = let (t, e) = get_elem?-lt program i h in (t, rw (e, line_at) refl)

line_before-le :
    (program : List Text) (i : ℕ)
    → 0 < i
    → i ≤ length program
    → (t : Text) × (line_before program i ≡ ok t)
unfolding line_before
line_before-le program zero h k = elim h [ ]
line_before-le program (suc i) h k = line_at-lt program i (omega arith)

module _ {V : Type 0} where
  -- The labels and the program counter stay within a program that is not empty; the counter is one
  -- behind its end once the end has been met.
  pub record InRange (c : Cpu V) : Type 0 where
    pub labels_within : AllValues (λ t. t ≤ length c.vprogram) c.mlabels
    pub counter : c.program_counter ≤ length c.vprogram + 1
    pub some_line : 0 < length c.vprogram

  Fixed-InRange : {c c' : Cpu V} → Fixed c c' → InRange c → InRange c'
  Fixed-InRange {c} {c'} f h = record {
    labels_within = rw (f.program, f.labels) h.labels_within;
    counter = rw (f.program, f.counter) h.counter;
    some_line = rw f.program h.some_line;
  }

  Goes-within : (c : Cpu V) (pc : ℕ) → InRange c → Goes c pc → pc ≤ length c.vprogram + 1
  Goes-within c pc h (inl same) = omega (arith, h.counter, same)
  Goes-within c pc h (inr (label, e)) =
      let within : pc ≤ length c.vprogram =
        lookup-AllValues (λ t. t ≤ length c.vprogram) label c.mlabels h.labels_within e in
      omega arith

  Kept-InRange : {c c' : Cpu V} → Kept c c' → InRange c → InRange c'
  Kept-InRange {c} {c'} k h =
      let program : c'.vprogram ≡ c.vprogram = ap (λ (x : Held). x.0.0) k.fields in
      let labels : c'.mlabels ≡ c.mlabels = ap (λ (x : Held). x.0.1) k.fields in
      record {
        labels_within = rw (program, labels) h.labels_within;
        counter = rw program (Goes-within c c'.program_counter h k.goes);
        some_line = rw program h.some_line;
      }

  fetch_next-InRange :
      (c : Cpu V)
      → InRange c
      → c.program_counter < length c.vprogram
      → (c' : Cpu V) × (fetch_next c ≡ ok c') × InRange c'
  unfolding fetch_next
  fetch_next-InRange c h k =
      let (t, e) = line_at-lt c.vprogram c.program_counter k in
      (
        record c {
          ir = t;
          program_counter = c.program_counter + 1;
          instruction_count = c.instruction_count + 1;
        },
        rw e refl,
        record { labels_within = h.labels_within; counter = omega arith; some_line = h.some_line },
      )

  fetch_again-InRange :
      (c : Cpu V)
      → InRange c
      → c.program_counter ≡ length c.vprogram
      → (c' : Cpu V) × (fetch_again c ≡ ok c') × InRange c'
  unfolding fetch_again
  fetch_again-InRange c h k =
      let (t, e) =
        line_before-le c.vprogram c.program_counter (omega (arith, h.some_line)) (omega arith) in
      (
        record c { ir = t },
        rw e refl,
        record { labels_within = h.labels_within; counter = h.counter; some_line = h.some_line },
      )

  pub instruction_fetch-InRange :
      (c : Cpu V) → InRange c → (c' : Cpu V) × (instruction_fetch c ≡ ok c') × InRange c'
  unfolding instruction_fetch
  instruction_fetch-InRange c h =
      elim (Bool-cases (not (is_held c) && ltb c.program_counter (length c.vprogram))) [
        | inl more ↦ rw more (fetch_next-InRange c h (ground arith))
        | inr other ↦ elim (Bool-cases (c.program_counter == length c.vprogram)) [
          | inl end ↦ elim (Bool-cases (is_held c)) [
            | inl held_up ↦ rw (other, end, held_up) (fetch_again-InRange c h (ground arith))
            | inr free ↦
                rw (other, end, free)
                  (
                    record c { ir = []; program_counter = c.program_counter + 1 },
                    refl,
                    record {
                      labels_within = h.labels_within;
                      counter = ground arith;
                      some_line = h.some_line;
                    },
                  )
          ]
          | inr beyond ↦ rw (other, beyond) (c, refl, h)
        ]
      ]

module _ (D : Double) where
  open D use {Value}

  decode_stage-InRange : (c : Cpu Value) → InRange c → Post InRange (decode_stage D c)
  unfolding decode_stage
  decode_stage-InRange c h =
      Post-if (is_empty c.ir_buffered)
        (holds (Fixed-InRange (record { program = refl; labels = refl; counter = refl }) h))
        (Post-weaken (instruction_decode-Kept D c) λ c' k. Kept-InRange k h)

  stages-InRange : (c : Cpu Value) → InRange c → Post InRange (stages D c)
  unfolding stages
  stages-InRange c h = Post-map (decode_stage D c) (decode_stage-InRange c h) λ c1 h1.
      Post-map (execute_stage D c1) (execute_stage-Fixed D c1) λ c2 f2.
        Post-map (memory_stage D c2) (memory_stage-Fixed D c2) λ c3 f3.
          Post-weaken (write_stage-Fixed D c3)
            λ c4 f4. Fixed-InRange f4 (Fixed-InRange f3 (Fixed-InRange f2 h1))

  pub cycle-InRange : (c : Cpu Value) → InRange c → Post InRange (cycle D c)
  unfolding cycle
  cycle-InRange c h =
      let (c1, fetched, h1) =
        instruction_fetch-InRange (record c { cycle_count = c.cycle_count + 1 })
          (Fixed-InRange (record { program = refl; labels = refl; counter = refl }) h) in
      rw fetched (
        Post-map (stages D c1) (stages-InRange c1 h1)
          λ c2 h2. holds (Fixed-InRange (end_cycle-Fixed c2) h2))

  -- The state behind `n` cycles of the loop.
  unfoldable pub cycles : ℕ → Cpu Value → Outcome (Cpu Value)
  cycles zero c = ok c
  cycles (suc n) c = cycle D c >>= cycles n

  pub cycles-InRange : (n : ℕ) (c : Cpu Value) → InRange c → Post InRange (cycles n c)
  unfolding cycles
  cycles-InRange zero c h = holds h
  cycles-InRange (suc n) c h = Post-map (cycle D c) (cycle-InRange c h) (cycles-InRange n)
