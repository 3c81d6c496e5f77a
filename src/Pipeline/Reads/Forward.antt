-- ===== src/Pipeline/Reads/Forward.antt =====
-- A register that the last stage is about to write is written before it is read.
use mathlib.Core.Path.{subst}
use mscs.Common.{
  ℕ, suc, ◌≡◌, refl, ap, ◌∙◌, true, false, Option, none, some, List, [], ◌∷◌, length, arith,
  if-true,
}
use mscs.Common.Int.{ℤ, pos, fits_int}
use mscs.Common.Outcome.{Outcome, ok, bind-ok}
use mscs.Common.Text.{Text, starts_with, text_eq, text_eq_refl}
use mscs.Common.Dict.{lookup-assign}
use mscs.Simulator.Double.{Double}
use mscs.Pipeline.Buffers.Texts.{Holds}
use mscs.Pipeline.Cpu.{Target, integer_target, Cpu, set_integer, integer_register}
use mscs.Pipeline.WriteBack.{has_result, write_target, write_back}
use mscs.Pipeline.Hazard.{
  found_before, is_pending, set_stall, write_early, detect_hazard, continue_unless, unless_pending,
}
use mscs.Pipeline.Decode.{load_a}
use mscs.Pipeline.Flow.{write_target-Holds, load_a-Holds}

starts_with_refl : (r : Text) → starts_with r r ≡ true
unfolding starts_with
starts_with_refl [] = refl
starts_with_refl (c ∷ r) = ground (arith, starts_with_refl r)

found_before_refl : (n : ℕ) (r : Text) → found_before (suc n) r r ≡ true
unfolding found_before
found_before_refl n r = if-true (starts_with r r) _ _ (starts_with_refl r)

module _ {V : Type 0} where
  integer_register-set_integer :
      (r : Text) (v : ℤ) (c : Cpu V) → integer_register r (set_integer r v c) ≡ v
  unfolding integer_register set_integer
  integer_register-set_integer r v c =
      ap (λ (o : Option ℤ). elim o [ none ↦ pos 0 | some w ↦ w ])
        (lookup-assign r r v c.integer_registers ∙ if-true (text_eq r r) _ _ (text_eq_refl r))

  -- The instruction in front of the last stage puts the integer v into the register r.
  pub record Leaves (r : Text) (v : ℤ) (c : Cpu V) : Type 0 where
    pub has : has_result c.mem_wb_buffered.latch.opcode ≡ true
    pub integer : c.mem_wb_buffered.latch.is_double ≡ false
    pub target : c.mem_wb_buffered.latch.target ≡ integer_target r
    pub name : c.mem_wb_buffered.latch.target_register ≡ r
    pub output : Holds c.mem_wb_buffered.output v
    pub fits : fits_int v ≡ true

module _ (D : Double) where
  open D use {Value}

  write_back-Leaves :
      (r : Text) (v : ℤ) (c : Cpu Value) → Leaves r v c → write_back D c ≡ ok (set_integer r v c)
  unfolding write_back
  write_back-Leaves r v c h =
      let w = c.mem_wb_buffered in
      if-true (has_result w.latch.opcode) _ _ h.has
      ∙ ap (λ d. write_target D d w.latch.target w.output c) h.integer
      ∙ ap (λ (t : Target). write_target D false t w.output c) h.target
      ∙ write_target-Holds D r v w.output c h.fits h.output

  write_early-Leaves :
      (r : Text) (v : ℤ) (c : Cpu Value) → Leaves r v c → write_early D r c ≡ ok (set_integer r v c)
  unfolding write_early
  write_early-Leaves r v c h =
      if-true (found_before 3 r c.mem_wb_buffered.latch.target_register) _ _
        (ap (λ n. found_before 3 r n) h.name ∙ found_before_refl 2 r)
      ∙ write_back-Leaves r v c h

  unless_pending-Leaves :
      (r : Text) (v : ℤ) (c : Cpu Value) (next : Cpu Value → Outcome (Cpu Value))
      → is_pending r c ≡ false
      → Leaves r v c
      → unless_pending D r c next ≡ next (set_integer r v (record c { stall_if = false }))
  unfolding unless_pending detect_hazard set_stall continue_unless
  unless_pending-Leaves r v c next free h =
      let c0 = record c { stall_if = false } in
      let h0 : Leaves r v c0 = record {
        has = h.has;
        integer = h.integer;
        target = h.target;
        name = h.name;
        output = h.output;
        fits = h.fits;
      } in
      rw free (bind-ok _ _ (bind-ok _ _ (write_early-Leaves r v c0 h0) refl) refl)

  -- A source of an integer instruction that no instruction in the execute or in the memory stage
  -- writes, and that the instruction in front of the last stage writes: the decoder does not wait,
  -- the register gets its new value at once, and this is the value that is read.
  pub unless_pending-load_a :
      (r : Text) (v : ℤ) (c : Cpu Value)
      → is_pending r c ≡ false
      → Leaves r v c
      → c.decode_execute.is_double ≡ false
      → length c.temp_a ≡ 20
      → (b : List ℕ) × (unless_pending D r c (load_a D r)
          ≡ ok (record (set_integer r v c) { stall_if = false; temp_a = b }))
        × Holds b v
  unfolding set_integer
  unless_pending-load_a r v c free h int room =
      let c1 = set_integer r v (record c { stall_if = false }) in
      let value : integer_register r c1 ≡ v =
        integer_register-set_integer r v (record c { stall_if = false }) in
      let (b, e, holds) = load_a-Holds D r c1 int room (ap fits_int value ∙ h.fits) in
      (b, unless_pending-Leaves r v c (load_a D r) free h ∙ e, subst (Holds b) value holds)
