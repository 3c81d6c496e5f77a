-- ===== src/Pipeline/Hazard.antt =====
-- `detecthazard`: whether a register that is read is still to be written.
use mscs.Common.{ℕ, zero, suc, Bool, true, false, ◌||◌, if◌then◌else◌, [], drop}
use mscs.Common.Outcome.{Outcome, ok, ◌>>=◌}
use mscs.Common.Text.{Text, starts_with}
use mscs.Simulator.Double.{Double}
use mscs.Pipeline.Cpu.{null, Cpu}
use mscs.Pipeline.WriteBack.{write_back}

-- `name.find(r) < n`: the text stands at one of the first `n` places.
unfoldable pub found_before : ℕ → Text → Text → Bool
found_before zero r name = false
found_before (suc n) r name =
    let rest = found_before n r (drop 1 name) in if starts_with r name then true else rest

module _ {V : Type 0} where
  -- The test on the instructions in the execute and in the memory stage.
  unfoldable pub is_pending : Text → Cpu V → Bool
  unfolding found_before
  is_pending r c =
      found_before 3 r c.decode_execute_buffered.target_register
      || found_before 3 r c.execute_mem_buffered.latch.target_register

  -- A bubble in place of the instruction that is decoded.
  unfoldable pub stall : Cpu V → Cpu V
  stall c = record c {
    stall_if = true;
    decode_execute = record c.decode_execute {
      opcode = [];
      is_double = false;
      target = null;
      target_register = [];
    };
  }

  unfoldable pub set_stall : Bool → Cpu V → Cpu V
  unfolding stall
  set_stall true c = stall c
  set_stall false c = record c { stall_if = false }

module _ (D : Double) where
  open D use {Value}

  -- A register that the last stage is about to write is written first.
  unfoldable pub write_early : Text → Cpu Value → Outcome (Cpu Value)
  unfolding found_before write_back
  write_early r c =
      if found_before 3 r c.mem_wb_buffered.latch.target_register then write_back D c else ok c

  unfoldable pub detect_hazard : Text → Cpu Value → Outcome (Bool × Cpu Value)
  unfolding is_pending set_stall write_early
  detect_hazard r c = do c' ← write_early r (set_stall (is_pending r c) c); ok (is_pending r c, c')

  -- `if(detecthazard(reg)) return E_SUCCESS;`
  unfoldable pub continue_unless :
      Bool × Cpu Value → (Cpu Value → Outcome (Cpu Value)) → Outcome (Cpu Value)
  continue_unless (true, c) next = ok c
  continue_unless (false, c) next = next c

  unfoldable pub unless_pending :
      Text → Cpu Value → (Cpu Value → Outcome (Cpu Value)) → Outcome (Cpu Value)
  unfolding detect_hazard continue_unless
  unless_pending r c next = do found ← detect_hazard r c; continue_unless found next
