-- ===== src/Pipeline/Frame.antt =====
-- What the decoders and the write back keep: the program, the labels, the memory, the counters, the
-- freeze and every latch but the decoder's own. The program counter stays, or is a label's line.
pub mod Decoders
pub mod Stages
use mscs.Common.{
  ℕ, Bool, true, false, not, Option, none, some, List, ◌≡◌, refl, ◌∙◌, ◌⊎◌, inl, inr, ap, sym,
  if◌then◌else◌, Option-cases, Bool-cases, ◌==◌,
}
use mscs.Common.Int.{ℤ}
use mscs.Common.Outcome.{Outcome, ok, Post, holds, fails, stops, Post-bind, Post-map, Post-if}
use mscs.Common.Text.{Text, codes, starts_with, atoi}
use mscs.Common.Dict.{Dict, lookup}
use mscs.Simulator.Double.{Double}
use mscs.Simulator.Operand.{next_operand}
use mscs.Pipeline.Buffers.{c_text, is_empty}
use mscs.Pipeline.Cpu.{
  Latch, DataLatch, Cpu, Target, null, integer_target, float_target, set_integer, set_float,
}
use mscs.Pipeline.WriteBack.{has_result, write_target, write_back}
use mscs.Pipeline.Hazard.{
  found_before, is_pending, set_stall, write_early, detect_hazard, continue_unless, unless_pending,
}

-- The fields that are kept.
abbrev pub Held : Type 0
Held =
    (List Text × Dict ℕ × Dict ℤ × (ℕ → ℕ))
    × (Bool × ℤ × ℕ × ℕ)
    × (List ℕ × List ℕ × List ℕ)
    × (Latch × DataLatch × DataLatch × DataLatch × DataLatch)

module _ {V : Type 0} where
  abbrev pub held : Cpu V → Held
  held c = (
    (c.vprogram, c.mlabels, c.opcode_cycles, c.mem),
    (c.freeze, c.execute_cycle, c.cycle_count, c.instruction_count),
    (c.temp_a_buffered, c.temp_b_buffered, c.immediate_buffered),
    (c.decode_execute_buffered, c.execute_mem, c.execute_mem_buffered, c.mem_wb, c.mem_wb_buffered),
  )

  -- The program counter is that of `c`, or the line of a label.
  abbrev pub Goes : Cpu V → ℕ → Type 0
  Goes c pc = (pc ≡ c.program_counter) ⊎ ((label : Text) × (lookup label c.mlabels ≡ some pc))

  pub record Kept (c c' : Cpu V) : Type 0 where
    pub fields : held c' ≡ held c
    pub goes : Goes c c'.program_counter

  pub Kept-refl : (c : Cpu V) → Kept c c
  Kept-refl c = record { fields = refl; goes = inl refl }

  -- The program counter has been left alone so far.
  pub record Same (c c' : Cpu V) : Type 0 where
    pub fields : held c' ≡ held c
    pub counter : c'.program_counter ≡ c.program_counter

  pub Same-refl : (c : Cpu V) → Same c c
  Same-refl c = record { fields = refl; counter = refl }

  pub Same-trans : {a b c : Cpu V} → Same a b → Same b c → Same a c
  Same-trans h k = record { fields = k.fields ∙ h.fields; counter = k.counter ∙ h.counter }

  Goes-from : {a b : Cpu V} (pc : ℕ) → Same a b → Goes b pc → Goes a pc
  Goes-from pc h (inl same) = inl (same ∙ h.counter)
  Goes-from {a} {b} pc h (inr (label, e)) =
      let labels : b.mlabels ≡ a.mlabels = ap (λ (x : Held). x.0.1) h.fields in
      inr (label, rw labels at e)

  pub Same-Kept : {a b c : Cpu V} → Same a b → Kept b c → Kept a c
  Same-Kept {a} {b} {c} h k = record {
    fields = k.fields ∙ h.fields;
    goes = Goes-from c.program_counter h k.goes;
  }

  pub Kept-Same : {c c' : Cpu V} → Same c c' → Kept c c'
  Kept-Same h = record { fields = h.fields; goes = inl h.counter }

  -- A continuation after a hazard test.
  pub Kept-from :
      {c c' : Cpu V} {m : Outcome (Cpu V)} → Same c c' → Post (Kept c') m → Post (Kept c) m
  Kept-from h (holds k) = holds (Same-Kept h k)
  Kept-from h fails = fails
  Kept-from h stops = stops

  set_stall-Same : (b : Bool) (c : Cpu V) → Same c (set_stall b c)
  unfolding set_stall
  set_stall-Same true c = record { fields = refl; counter = refl }
  set_stall-Same false c = record { fields = refl; counter = refl }

module _ (D : Double) where
  open D use {Value}

  -- What holds of the state, and of it with any new value in any register, holds behind the last
  -- stage.
  module _ (P : Cpu Value → Type 0) (c : Cpu Value) (same : P c)
      (integers : (reg : Text) (v : ℤ) → P (set_integer reg v c))
      (floats : (reg : Text) (v : Value) → P (set_float reg v c)) where
    write_target-frame :
        (is_double : Bool) (target : Target) (output : List ℕ)
        → Post P (write_target D is_double target output c)
    unfolding write_target
    write_target-frame true (float_target reg) output =
        Post-bind (c_text output)
          λ t _. Post-if (is_empty t) (holds same) (holds (floats reg (D.parse t)))
    write_target-frame false (integer_target reg) output =
        Post-bind (c_text output) λ t _.
          Post-if (is_empty t) (holds same) (Post-bind (atoi t) λ v _. holds (integers reg v))
    write_target-frame true null output = stops
    write_target-frame true (integer_target reg) output = stops
    write_target-frame false null output = stops
    write_target-frame false (float_target reg) output = stops

    pub write_back-frame : Post P (write_back D c)
    unfolding write_back
    write_back-frame =
        let w = c.mem_wb_buffered in
        Post-if (has_result w.latch.opcode)
          (write_target-frame w.latch.is_double w.latch.target w.output)
          (Post-if (starts_with (codes "MOVE") w.latch.opcode)
            (write_target-frame (not w.latch.is_double) w.latch.target w.output) (holds same))

    pub write_early-frame : (r : Text) → Post P (write_early D r c)
    unfolding write_early
    write_early-frame r =
        Post-if (found_before 3 r c.mem_wb_buffered.latch.target_register) write_back-frame
          (holds same)

  pub write_back-Same : (c : Cpu Value) → Post (Same c) (write_back D c)
  unfolding set_integer set_float
  write_back-Same c =
      write_back-frame (Same c) c (Same-refl c) (λ r v. record { fields = refl; counter = refl })
        (λ r v. record { fields = refl; counter = refl })

  write_early-Same : (r : Text) (c : Cpu Value) → Post (Same c) (write_early D r c)
  unfolding set_integer set_float
  write_early-Same r c =
      write_early-frame (Same c) c (Same-refl c) (λ q v. record { fields = refl; counter = refl })
        (λ q v. record { fields = refl; counter = refl }) r

  detect_hazard-Same :
      (r : Text) (c : Cpu Value) → Post (λ found. Same c found.1) (detect_hazard D r c)
  unfolding detect_hazard
  detect_hazard-Same r c =
      Post-map (write_early D r (set_stall (is_pending r c) c))
        (write_early-Same r (set_stall (is_pending r c) c))
        λ c' h. holds (Same-trans (set_stall-Same (is_pending r c) c) h)

  continue_unless-Kept :
      (c : Cpu Value) (found : Bool × Cpu Value) (next : Cpu Value → Outcome (Cpu Value))
      → Same c found.1
      → ((c' : Cpu Value) → Post (Kept c') (next c'))
      → Post (Kept c) (continue_unless D found next)
  unfolding continue_unless
  continue_unless-Kept c (true, c') next same h = holds (Kept-Same same)
  continue_unless-Kept c (false, c') next same h = Kept-from same (h c')

  -- Whatever is done behind a hazard test keeps the fields, if it keeps those it finds.
  pub unless_pending-Kept :
      (r : Text) (c : Cpu Value) (next : Cpu Value → Outcome (Cpu Value))
      → ((c' : Cpu Value) → Post (Kept c') (next c'))
      → Post (Kept c) (unless_pending D r c next)
  unfolding unless_pending
  unless_pending-Kept r c next h =
      Post-map (detect_hazard D r c) (detect_hazard-Same r c)
        (λ found same. continue_unless-Kept c found next same h)
