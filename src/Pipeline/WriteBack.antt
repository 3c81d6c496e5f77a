-- ===== src/Pipeline/WriteBack.antt =====
-- `WriteBackCycle`: the result of the instruction that leaves the pipeline goes to its register.
use mscs.Common.{ℕ, Bool, true, false, not, ◌||◌, if◌then◌else◌, List}
use mscs.Common.Outcome.{Outcome, ok, undefined, ◌>>=◌}
use mscs.Common.Text.{Text, codes, starts_with, atoi}
use mscs.Simulator.Double.{Double}
use mscs.Pipeline.Buffers.{c_text, is_empty}
use mscs.Pipeline.Cpu.{Target, null, integer_target, float_target, Cpu, set_integer, set_float}

-- The opcodes whose result is a number of their own kind.
unfoldable pub has_result : Text → Bool
unfolding starts_with
has_result op =
    starts_with (codes "ADD") op
    || (starts_with (codes "SUB") op
        || (starts_with (codes "MUL") op
            || (starts_with (codes "DIV") op
                || (starts_with (codes "LI") op || starts_with (codes "L") op))))

module _ (D : Double) where
  open D use {Value, parse}

  -- `*temp = ..` through a pointer to a `double` or to an `int`; any other target is not one.
  unfoldable pub write_target : Bool → Target → List ℕ → Cpu Value → Outcome (Cpu Value)
  unfolding c_text is_empty atoi set_integer set_float
  write_target true (float_target reg) output c = do
    t ← c_text output
    if is_empty t then ok c else ok (set_float reg (parse t) c)
  write_target false (integer_target reg) output c = do
    t ← c_text output
    if is_empty t then ok c else (atoi t >>= λ v. ok (set_integer reg v c))
  write_target true null output c = undefined
  write_target true (integer_target reg) output c = undefined
  write_target false null output c = undefined
  write_target false (float_target reg) output c = undefined

  unfoldable pub write_back : Cpu Value → Outcome (Cpu Value)
  unfolding has_result write_target
  write_back c =
      let w = c.mem_wb_buffered in
      if has_result w.latch.opcode
      then write_target w.latch.is_double w.latch.target w.output c
      else if starts_with (codes "MOVE") w.latch.opcode
      then write_target (not w.latch.is_double) w.latch.target w.output c
      else ok c
